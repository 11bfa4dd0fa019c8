-- ===== src/Config.antt =====
-- config/settings.go: the feature flags and the settings.
pub mod Env
pub mod Load
use s3proxy4gcs.Base.{Bool, Text, Dict, ℤ}

pub record FeatureFlags : Type 0 where
  pub lifecycle : Bool
  pub cors : Bool
  pub logging : Bool
  pub website : Bool
  pub tagging : Bool
  pub restore_object : Bool
  pub copy_object : Bool
  pub multipart_upload : Bool
  pub delete_objects : Bool
  pub health_endpoint : Bool
  pub readyz_endpoint : Bool
  pub metrics_endpoint : Bool

-- The durations are in nanoseconds; a count that the code takes as any number is an integer.
pub record Settings : Type 0 where
  pub port : Text
  pub gcp_project_id : Text
  pub target_bucket : Text
  pub storage_base_url : Text
  pub gcs_prefix : Text
  pub dry_run : Bool
  pub debug_logging : Bool
  pub max_idle_conns : ℤ
  pub max_idle_conns_per_host : ℤ
  pub max_concurrent_requests : ℤ
  pub gcs_call_timeout : ℤ
  pub idle_conn_timeout : ℤ
  pub response_header_timeout : ℤ
  pub read_buffer_size : ℤ
  pub write_buffer_size : ℤ
  pub proxy_buffer_size : ℤ
  pub flush_interval_ms : ℤ
  pub proxy_access_key : Text
  pub proxy_secret_key : Text
  pub json_key : Text
  pub proxy_base_domain : Text
  pub disable_header_strip : Bool
  pub hmac_credentials : Dict Text
  pub credentials_file : Text
  pub hmac_strict : Bool
  pub pprof_addr : Text
  pub restore_skip_existence_check : Bool
  pub req_log_enabled : Bool
  pub req_log_path : Text
  pub req_log_max_size_mb : ℤ
  pub req_log_max_backup : ℤ
  pub req_log_chan_buf : ℤ
  pub req_log_keep_days : ℤ
  pub features : FeatureFlags
