-- ===== src/Proxy/Restore.antt =====
-- `handleRestoreObject` of main.go.
use s3proxy4gcs.Base.{◌||◌, not, Text, codes, if◌then◌else◌}
use s3proxy4gcs.Http.{Request}
use s3proxy4gcs.Proxy.Helpers.{BodyRead, whole, too_big, failed, read_capped}
use s3proxy4gcs.Proxy.Monad.{
  M, pure, leave, ◌>>=◌, ◌>>◌, set_header, write_header, asks, return_if, unless,
}
use s3proxy4gcs.Proxy.Helpers.{write_s3_error, time_gcs_call, or_fail, parse_object_from_path}
use s3proxy4gcs.Proxy.Client.{Env, GcsError}

module _ {W : Type 0} (env : Env W) where
  -- A body that breaks off is only logged.
  unfoldable pub drain_body : BodyRead → M W (Unit {0})
  unfolding write_s3_error
  drain_body (whole body) = pure tt
  drain_body failed = pure tt
  drain_body too_big = do
    write_s3_error 400 "MaxMessageLengthExceeded"
        "Your request was too big. Max RestoreObject body size is 65536 bytes."
    leave

  unfoldable pub probe_failed : GcsError → M W (Unit {0})
  unfolding write_s3_error
  probe_failed e =
      if e.is_object_not_exist
      then write_s3_error 404 "NoSuchKey" "The specified key does not exist."
      else write_s3_error 502 "InternalError"
          "Failed to verify object existence prior to synthesising RestoreObject response."

  unfoldable pub probe : Text → Text → M W (Unit {0})
  unfolding write_s3_error time_gcs_call or_fail probe_failed
  probe target_bucket target_object = do
    return_if (not env.has_client)
        (write_s3_error 500 "InternalError" "Proxy misconfiguration: GCS client unavailable.")
    result ←
        time_gcs_call "RestoreObject_HeadProbe"
          (asks (env.object_attrs target_bucket target_object))
    attrs ← or_fail result probe_failed
    pure tt

  unfoldable pub handle_restore_object : Request → M W (Unit {0})
  unfolding parse_object_from_path read_capped drain_body probe
  handle_restore_object r = do
    (target_bucket, target_object) ←
        parse_object_from_path "Bucket and Object name required for RestoreObject." r
    drain_body (read_capped r.body)
    unless (env.settings.dry_run || env.settings.restore_skip_existence_check)
        (probe target_bucket target_object)
    set_header (codes "date") env.now
    set_header (codes "content-length") (codes "0")
    write_header 200
