-- ===== src/Config/Load/Ranges.antt =====
-- The range of each number of the settings.
use s3proxy4gcs.Base.{◌≡◌, true, ℤ, pos, negsuc, is_positive}
use s3proxy4gcs.Config.{Settings}
use s3proxy4gcs.Config.Env.{
  max_concurrent_requests, read_buffer_size, write_buffer_size, proxy_buffer_size,
  req_log_max_size_mb, req_log_max_backup, req_log_chan_buf, req_log_keep_days,
}

abbrev pub IsPositive : ℤ → Type 0
IsPositive n = is_positive n ≡ true

-- 0, which switches a limit off, or more.
abbrev pub IsLimit : ℤ → Type 0
IsLimit (pos n) = Unit
IsLimit (negsuc n) = ⊥

-- The sizes of buffers and of the request log are positive, the limit on concurrent requests is 0
-- or more.
pub record IsInRange (s : Settings) : Type 0 where
  pub reads : IsPositive s.read_buffer_size
  pub writes : IsPositive s.write_buffer_size
  pub copies : IsPositive s.proxy_buffer_size
  pub log_size : IsPositive s.req_log_max_size_mb
  pub log_backup : IsPositive s.req_log_max_backup
  pub log_channel : IsPositive s.req_log_chan_buf
  pub log_days : IsPositive s.req_log_keep_days
  pub concurrent : IsLimit s.max_concurrent_requests
