-- ===== src/Config/Env.antt =====
-- The variables of the environment that `LoadConfig` of config/settings.go reads, and the numbers
-- among them, a block of the source to a definition. What is only logged is left out.
use s3proxy4gcs.Base.{
  Bool, true, false, ◌||◌, Option, none, some, Text, codes, text_eq, is_nil, ℤ, pos, negsuc,
  is_positive, atoi, if◌then◌else◌,
}

-- `os.LookupEnv`.
abbrev pub Environment : Type 0
Environment = Text → Option Text

abbrev pub truth : Bool → Text → Bool
truth fallback raw =
    if text_eq raw (codes "true")
      || text_eq raw (codes "TRUE")
      || text_eq raw (codes "True")
      || text_eq raw (codes "1")
    then true
    else if text_eq raw (codes "false")
        || text_eq raw (codes "FALSE")
        || text_eq raw (codes "False")
        || text_eq raw (codes "0")
    then false
    else fallback

-- What a block does with the number that it read, the default in hand.
abbrev pub as_is : ℤ → ℤ → ℤ
as_is fallback n = n

abbrev pub zero_unless_positive : ℤ → ℤ → ℤ
zero_unless_positive fallback n = if is_positive n then n else pos 0

abbrev pub if_positive : ℤ → ℤ → ℤ
if_positive fallback n = if is_positive n then n else fallback

-- A block that has the text of its variable: an empty text and one that is no number leave the default.
unfoldable pub number : (ℤ → ℤ → ℤ) → ℤ → Text → ℤ
number accept fallback v =
    if is_nil v then fallback else elim (atoi v) [ none ↦ fallback | some n ↦ accept fallback n ]

module _ (env : Environment) where
  unfoldable pub get_env : Text → Text → Text
  get_env key fallback = elim (env key) [ none ↦ fallback | some value ↦ value ]

  unfoldable pub get_env_bool : Text → Bool → Bool
  get_env_bool key fallback = elim (env key) [ none ↦ fallback | some raw ↦ truth fallback raw ]

  -- `getEnv(key, "true") == "true"`.
  unfoldable pub is_true : Text → Text → Bool
  unfolding get_env
  is_true key fallback = text_eq (get_env key fallback) (codes "true")

  unfoldable pub max_idle_conns : ℤ
  unfolding get_env number
  max_idle_conns = number as_is (pos 1000) (get_env (codes "MAX_IDLE_CONNS") (codes "1000"))

  unfoldable pub max_idle_conns_per_host : ℤ
  unfolding get_env number
  max_idle_conns_per_host =
      number as_is (pos 1000) (get_env (codes "MAX_IDLE_CONNS_PER_HOST") (codes "1000"))

  -- 0 is no limit.
  unfoldable pub max_concurrent_requests : ℤ
  unfolding get_env number
  max_concurrent_requests =
      number zero_unless_positive (pos 1000)
        (get_env (codes "MAX_CONCURRENT_REQUESTS") (codes "1000"))

  -- 0 is no limit.
  unfoldable pub gcs_call_timeout_sec : ℤ
  unfolding get_env number
  gcs_call_timeout_sec =
      number zero_unless_positive (pos 30) (get_env (codes "GCS_CALL_TIMEOUT_SEC") (codes "30"))

  unfoldable pub idle_conn_timeout_sec : ℤ
  unfolding get_env number
  idle_conn_timeout_sec =
      number if_positive (pos 120) (get_env (codes "IDLE_CONN_TIMEOUT_SEC") (codes "120"))

  unfoldable pub response_header_timeout_sec : ℤ
  unfolding get_env number
  response_header_timeout_sec =
      number if_positive (pos 30) (get_env (codes "RESPONSE_HEADER_TIMEOUT_SEC") (codes "30"))

  unfoldable pub read_buffer_size : ℤ
  unfolding get_env number
  read_buffer_size =
      number if_positive (pos 65536) (get_env (codes "READ_BUFFER_SIZE") (codes "65536"))

  unfoldable pub write_buffer_size : ℤ
  unfolding get_env number
  write_buffer_size =
      number if_positive (pos 65536) (get_env (codes "WRITE_BUFFER_SIZE") (codes "65536"))

  unfoldable pub proxy_buffer_size : ℤ
  unfolding get_env number
  proxy_buffer_size =
      number if_positive (pos 32768) (get_env (codes "PROXY_BUFFER_SIZE") (codes "32768"))

  -- -1, 0 and every other number are valid; the block asks the environment itself.
  unfoldable pub flush_interval_ms : ℤ
  unfolding number
  flush_interval_ms = elim (env (codes "FLUSH_INTERVAL_MS")) [
    | none ↦ negsuc 0
    | some v ↦ number as_is (negsuc 0) v
  ]

  unfoldable pub req_log_max_size_mb : ℤ
  unfolding get_env number
  req_log_max_size_mb =
      number if_positive (pos 512) (get_env (codes "REQUEST_LOG_MAX_SIZE_MB") (codes "512"))

  unfoldable pub req_log_max_backup : ℤ
  unfolding get_env number
  req_log_max_backup =
      number if_positive (pos 5) (get_env (codes "REQUEST_LOG_MAX_BACKUP") (codes "5"))

  unfoldable pub req_log_chan_buf : ℤ
  unfolding get_env number
  req_log_chan_buf =
      number if_positive (pos 10240) (get_env (codes "REQUEST_LOG_CHAN_BUF") (codes "10240"))

  unfoldable pub req_log_keep_days : ℤ
  unfolding get_env number
  req_log_keep_days =
      number if_positive (pos 7) (get_env (codes "REQUEST_LOG_KEEP_DAYS") (codes "7"))
