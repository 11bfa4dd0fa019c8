-- ===== src/Config/Load.antt =====
-- `LoadConfig` of config/settings.go, `loadHMACCredentials` and the readers of the environment.
-- The environment is that of the process after `godotenv.Load`. What is only logged is left out.
pub mod Credentials
pub mod Ranges
use Prim.Native.String.{String}
use s3proxy4gcs.Base.{
  Bool, true, false, ◌&&◌, ◌||◌, not, Option, none, some, [], ◌∷◌, Text, Dict, codes, text_eq,
  is_nil, ℤ, pos, negsuc, is_positive, atoi, if◌then◌else◌,
}
use s3proxy4gcs.Base.Result.{Result, ok, err, ◌>>=◌, ◌>>◌}
use s3proxy4gcs.Config.{FeatureFlags, Settings}
use s3proxy4gcs.Config.Env.{
  Environment, number, get_env, get_env_bool, is_true, max_idle_conns, max_idle_conns_per_host,
  max_concurrent_requests, gcs_call_timeout_sec, idle_conn_timeout_sec, response_header_timeout_sec,
  read_buffer_size, write_buffer_size, proxy_buffer_size, flush_interval_ms, req_log_max_size_mb,
  req_log_max_backup, req_log_chan_buf, req_log_keep_days,
}
use s3proxy4gcs.CredStore.{ParseError, load_file, parse_json}
use s3proxy4gcs.Translate.Cors.{seconds}

-- What `log.Fatal` ends the process with.
pub data Fatal : Type 0 where
  invalid_credentials_file invalid_credentials : ParseError → Fatal
  no_credentials : Fatal

-- Where the credentials came from.
pub data Source : Type 0 where
  file inline legacy nowhere : Source

abbrev is_legacy : Source → Bool
is_legacy legacy = true
is_legacy _ = false

module _ (env : Environment) where
  unfoldable pub features : FeatureFlags
  unfolding get_env_bool
  features = record {
    lifecycle = get_env_bool env (codes "ENABLE_LIFECYCLE") true;
    cors = get_env_bool env (codes "ENABLE_CORS") true;
    logging = get_env_bool env (codes "ENABLE_LOGGING") true;
    website = get_env_bool env (codes "ENABLE_WEBSITE") true;
    tagging = get_env_bool env (codes "ENABLE_TAGGING") true;
    restore_object = get_env_bool env (codes "ENABLE_RESTORE_OBJECT") true;
    copy_object = get_env_bool env (codes "ENABLE_COPY_OBJECT") true;
    multipart_upload = get_env_bool env (codes "ENABLE_MULTIPART_UPLOAD") true;
    delete_objects = get_env_bool env (codes "ENABLE_DELETE_OBJECTS") true;
    health_endpoint = get_env_bool env (codes "ENABLE_HEALTH_ENDPOINT") true;
    readyz_endpoint = get_env_bool env (codes "ENABLE_READYZ_ENDPOINT") true;
    metrics_endpoint = get_env_bool env (codes "ENABLE_METRICS_ENDPOINT") true;
  }

  -- Of `legacy_ak` and `legacy_sk`, when no map of credentials is given.
  unfoldable pub legacy_credentials : Text → Text → Dict Text × Text × Source
  legacy_credentials legacy_ak legacy_sk =
      if not (is_nil legacy_ak) && not (is_nil legacy_sk)
      then ((legacy_ak, legacy_sk) ∷ [], [], legacy)
      else ([], [], nowhere)

  unfoldable pub proxy_ak : Text
  unfolding get_env
  proxy_ak =
      get_env env (codes "PROXY_AWS_ACCESS_KEY_ID") (get_env env (codes "AWS_ACCESS_KEY_ID") [])

  unfoldable pub proxy_sk : Text
  unfolding get_env
  proxy_sk =
      get_env env (codes "PROXY_AWS_SECRET_ACCESS_KEY")
        (get_env env (codes "AWS_SECRET_ACCESS_KEY") [])

  -- The settings, given the credentials with their file and their source.
  unfoldable pub settings : Dict Text → Text → Source → Settings
  settings creds path source = record {
    port = get_env env (codes "PORT") (codes "8080");
    gcp_project_id = get_env env (codes "GCP_PROJECT_ID") [];
    target_bucket = get_env env (codes "TARGET_BUCKET") [];
    storage_base_url =
        get_env env (codes "STORAGE_BASE_URL") (codes "https://storage.googleapis.com");
    gcs_prefix = get_env env (codes "GCS_PREFIX") [];
    dry_run = is_true env (codes "DRY_RUN") (codes "true");
    debug_logging = is_true env (codes "DEBUG_LOGGING") (codes "false");
    max_idle_conns = max_idle_conns env;
    max_idle_conns_per_host = max_idle_conns_per_host env;
    max_concurrent_requests = max_concurrent_requests env;
    gcs_call_timeout = seconds (gcs_call_timeout_sec env);
    idle_conn_timeout = seconds (idle_conn_timeout_sec env);
    response_header_timeout = seconds (response_header_timeout_sec env);
    read_buffer_size = read_buffer_size env;
    write_buffer_size = write_buffer_size env;
    proxy_buffer_size = proxy_buffer_size env;
    flush_interval_ms = flush_interval_ms env;
    proxy_access_key = proxy_ak;
    proxy_secret_key = proxy_sk;
    json_key = get_env env (codes "JSON_KEY") [];
    proxy_base_domain = get_env env (codes "PROXY_BASE_DOMAIN") [];
    disable_header_strip = get_env_bool env (codes "DISABLE_HEADER_STRIP") true;
    hmac_credentials = creds;
    credentials_file = path;
    hmac_strict = get_env_bool env (codes "HMAC_STRICT") (not (is_legacy source));
    pprof_addr = get_env env (codes "PPROF_ADDR") [];
    restore_skip_existence_check =
        is_true env (codes "RESTORE_SKIP_EXISTENCE_CHECK") (codes "false");
    req_log_enabled = is_true env (codes "REQUEST_LOG_ENABLED") (codes "true");
    req_log_path = get_env env (codes "REQUEST_LOG_PATH") (codes "./logs/req_%Y%M%D.csv");
    req_log_max_size_mb = req_log_max_size_mb env;
    req_log_max_backup = req_log_max_backup env;
    req_log_chan_buf = req_log_chan_buf env;
    req_log_keep_days = req_log_keep_days env;
    features = features;
  }

-- `log.Fatalf` on an error.
abbrev or_fatal : {A : Type 0} → (ParseError → Fatal) → Result ParseError A → Result Fatal A
or_fatal f (ok a) = ok a
or_fatal f (err e) = err (f e)

-- `json.Unmarshal` and `os.ReadFile` are parameters.
module _ (unmarshal : Text → Option (Dict Text)) (read_file : Text → Option Text)
    (env : Environment) where
  unfoldable pub load_hmac_credentials : Text → Text → Result Fatal (Dict Text × Text × Source)
  unfolding get_env legacy_credentials
  load_hmac_credentials legacy_ak legacy_sk =
      let path = get_env env (codes "HMAC_CREDENTIALS_FILE") [] in
      let raw = get_env env (codes "HMAC_CREDENTIALS") [] in
      if not (is_nil path)
      then (or_fatal invalid_credentials_file (load_file unmarshal (read_file path)) >>= λ m.
          ok (m, path, file))
      else if not (is_nil raw)
      then (or_fatal invalid_credentials (parse_json unmarshal raw) >>= λ m. ok (m, [], inline))
      else ok (legacy_credentials env legacy_ak legacy_sk)

  -- What is left of the checks at the end: the fatal one.
  unfoldable pub validate : Settings → Result Fatal Settings
  validate s =
      if not s.dry_run && (is_nil s.hmac_credentials && is_nil s.credentials_file)
      then err no_credentials
      else ok s

  unfoldable pub load_config : Result Fatal Settings
  unfolding settings load_hmac_credentials validate
  load_config = do
    (creds, path, source) ← load_hmac_credentials (proxy_ak env) (proxy_sk env)
    validate (settings env creds path source)
