-- ===== src/Proxy/Logging.antt =====
-- The logging handlers of main.go.
use s3proxy4gcs.Base.{none, some, []}
use s3proxy4gcs.Http.{Request}
use s3proxy4gcs.Translate.Logging.{translate_s3_to_gcs_logging, translate_gcs_to_s3_logging}
use s3proxy4gcs.Proxy.Monad.{logging_xml, M, ◌>>=◌, ◌>>◌, write_header, asks, updates, return_if}
use s3proxy4gcs.Proxy.Helpers.{
  write_s3_error, write_xml, time_gcs_call, or_fail, parse_bucket_from_path,
  decode_control_plane_xml,
}
use s3proxy4gcs.Proxy.Client.{Env, no_update}

module _ {W : Type 0} (env : Env W) where
  unfoldable pub handle_put_logging : Request → M W (Unit {0})
  unfolding write_s3_error write_xml time_gcs_call or_fail parse_bucket_from_path
      decode_control_plane_xml
  handle_put_logging r = do
    s3_cfg ← decode_control_plane_xml env.unmarshal_logging r
    target_bucket ← parse_bucket_from_path r
    let gcs_logging = translate_s3_to_gcs_logging s3_cfg
    return_if env.settings.dry_run (write_header 200)
    result ←
        time_gcs_call "PutBucketLogging"
          (updates (env.bucket_update target_bucket (record no_update { logging = gcs_logging })))
    or_fail result
        λ _. write_s3_error 502 "InternalError" "Failed to update logging configuration on GCS."
    write_header 200

  unfoldable pub handle_get_logging : Request → M W (Unit {0})
  unfolding write_s3_error write_xml time_gcs_call or_fail parse_bucket_from_path
  handle_get_logging r = do
    target_bucket ← parse_bucket_from_path r
    return_if env.settings.dry_run (write_xml (logging_xml (record { logging_enabled = none })))
    result ← time_gcs_call "GetBucketLogging" (asks (env.bucket_attrs target_bucket))
    attrs ←
        or_fail result λ _.
          write_s3_error 502 "InternalError" "Failed to retrieve logging configuration from GCS."
    write_xml (logging_xml (translate_gcs_to_s3_logging attrs.logging))

  unfoldable pub handle_delete_logging : Request → M W (Unit {0})
  unfolding write_s3_error write_xml time_gcs_call or_fail parse_bucket_from_path
  handle_delete_logging r = do
    target_bucket ← parse_bucket_from_path r
    return_if env.settings.dry_run (write_header 204)
    result ← time_gcs_call "DeleteBucketLogging" (
        updates (
          env.bucket_update target_bucket (record no_update {
            logging = some (record { log_bucket = []; log_object_prefix = [] });
          })))
    or_fail result
        λ _. write_s3_error 502 "InternalError" "Failed to delete logging configuration on GCS."
    write_header 204
