-- ===== src/Tests/Sample.antt =====
-- A proxy in front of a storage service with one bucket, of which only the lifecycle is kept.
use s3proxy4gcs.Base.{
  Bool, true, false, Option, none, some, [], ◌∷◌, Text, Dict, codes, pos, negsuc,
}
use s3proxy4gcs.Base.Result.{ok, err}
use s3proxy4gcs.Config.{FeatureFlags, Settings}
use s3proxy4gcs.Http.{Method, Request}
use s3proxy4gcs.CredStore.{Store}
use s3proxy4gcs.Translate.S3.{LifecycleConfiguration}
use s3proxy4gcs.Translate.Gcs.{Lifecycle, delete_action}
use s3proxy4gcs.Translate.Lifecycle.{action, no_condition}
use s3proxy4gcs.Proxy.Client.{Env, GcsError}
use s3proxy4gcs.Proxy.Monad.{State}

abbrev pub access_key : Text
access_key = codes "AK"

abbrev pub secret_key : Text
secret_key = codes "SK"

abbrev pub one_client : Store
one_client = record { creds = (access_key, secret_key) ∷ []; loaded = 1 }

abbrev pub nobody : Store
nobody = record { creds = []; loaded = 0 }

abbrev all_features : FeatureFlags
all_features = record {
  lifecycle = true;
  cors = true;
  logging = true;
  website = true;
  tagging = true;
  restore_object = true;
  copy_object = true;
  multipart_upload = true;
  delete_objects = true;
  health_endpoint = true;
  readyz_endpoint = true;
  metrics_endpoint = true;
}

abbrev settings : Bool → Settings
settings dry_run = record {
  port = codes "8080";
  gcp_project_id = [];
  target_bucket = [];
  storage_base_url = codes "https://storage.googleapis.com";
  gcs_prefix = [];
  dry_run = dry_run;
  debug_logging = false;
  max_idle_conns = pos 1000;
  max_idle_conns_per_host = pos 1000;
  max_concurrent_requests = pos 1000;
  gcs_call_timeout = pos 30000000000;
  idle_conn_timeout = pos 120000000000;
  response_header_timeout = pos 30000000000;
  read_buffer_size = pos 65536;
  write_buffer_size = pos 65536;
  proxy_buffer_size = pos 32768;
  flush_interval_ms = negsuc 0;
  proxy_access_key = [];
  proxy_secret_key = [];
  json_key = [];
  proxy_base_domain = [];
  disable_header_strip = false;
  hmac_credentials = [];
  credentials_file = [];
  hmac_strict = true;
  pprof_addr = [];
  restore_skip_existence_check = false;
  req_log_enabled = true;
  req_log_path = codes "./logs/req_%Y%M%D.csv";
  req_log_max_size_mb = pos 512;
  req_log_max_backup = pos 5;
  req_log_chan_buf = pos 10240;
  req_log_keep_days = pos 7;
  features = all_features;
}

abbrev lifecycle_or : Option Lifecycle → Lifecycle → Lifecycle
lifecycle_or none old = old
lifecycle_or (some new) old = new

abbrev forbidden : GcsError
forbidden = record {
  api_code = some 403;
  is_canceled = false;
  is_deadline_exceeded = false;
  is_object_not_exist = false;
}

-- Every body decodes to `document`.
abbrev pub env_of : Bool → Store → Option LifecycleConfiguration → Env Lifecycle
env_of dry_run store document = record {
  settings = settings dry_run;
  store_at_gate = store;
  store_at_validation = store;
  store_at_lookup = store;
  has_client = true;
  now = [];
  to_lower = λ t. t;
  unmarshal_lifecycle = λ body. document;
  unmarshal_cors = λ body. none;
  unmarshal_logging = λ body. some (record { logging_enabled = none });
  unmarshal_website = λ body. none;
  unmarshal_tagging = λ body. none;
  bucket_attrs =
      λ bucket w. ok (record { lifecycle = w; cors = []; logging = none; website = none });
  bucket_update = λ bucket u w. (ok tt, lifecycle_or u.lifecycle w);
  object_attrs = λ bucket object w. err forbidden;
  object_update = λ bucket object generation contexts w. (err forbidden, w);
}

-- The bucket deletes its objects after 30 days.
abbrev pub monthly : Lifecycle
monthly = record {
  rules =
      record {
        action = action delete_action [];
        condition = record no_condition { age_in_days = pos 30 };
      }
      ∷ [];
}

abbrev pub fresh : State Lifecycle
fresh = record {
  header = [];
  status = none;
  body = [];
  metrics = [];
  forwarded = none;
  world = monthly;
}

abbrev pub request : Method → Text → Dict Text → Dict Text → Request
request method path query header = record {
  method = method;
  host = [];
  remote_addr = [];
  path = path;
  raw_path = [];
  raw_query = [];
  query = query;
  header = header;
  body = record { sent = codes "<x/>"; broken = false };
  resolved_creds = none;
}

abbrev pub signed : Dict Text
signed =
    (codes "authorization", codes "AWS4-HMAC-SHA256 Credential=AK/20260101/auto/s3/aws4_request")
    ∷ []

abbrev pub lifecycle_of_bucket : Method → Dict Text → Request
lifecycle_of_bucket method header =
    request method (codes "/bucket") ((codes "lifecycle", []) ∷ []) header

abbrev pub object_of_bucket : Method → Dict Text → Request
object_of_bucket method header = request method (codes "/bucket/object") [] header
