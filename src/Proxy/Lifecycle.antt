-- ===== src/Proxy/Lifecycle.antt =====
-- The lifecycle handlers of main.go.
use s3proxy4gcs.Base.{some, [], is_nil}
use s3proxy4gcs.Base.Result.{Result, ok, err}
use s3proxy4gcs.Http.{Request}
use s3proxy4gcs.Translate.Gcs.{Lifecycle}
use s3proxy4gcs.Translate.Lifecycle.{Error, translate_s3_to_gcs_lifecycle}
use s3proxy4gcs.Translate.Lifecycle.Reverse.{translate_gcs_to_s3_lifecycle}
use s3proxy4gcs.Proxy.Monad.{
  lifecycle_error, lifecycle_xml, M, pure, leave, ◌>>=◌, ◌>>◌, write_header, asks, updates,
  return_if,
}
use s3proxy4gcs.Proxy.Helpers.{
  write_s3_error, write_xml, write_error, time_gcs_call, or_fail, parse_bucket_from_path,
  decode_control_plane_xml,
}
use s3proxy4gcs.Proxy.Client.{Env, no_update}

module _ {W : Type 0} (env : Env W) where
  -- The message is the text of the error.
  unfoldable pub translated : Result Error Lifecycle → M W Lifecycle
  unfolding write_error
  translated (ok l) = pure l
  translated (err e) = do write_error 400 (lifecycle_error e); leave

  unfoldable pub handle_put_lifecycle : Request → M W (Unit {0})
  unfolding write_s3_error write_xml time_gcs_call or_fail parse_bucket_from_path
      decode_control_plane_xml translated
  handle_put_lifecycle r = do
    s3_cfg ← decode_control_plane_xml env.unmarshal_lifecycle r
    target_bucket ← parse_bucket_from_path r
    storage_lifecycle ← translated (translate_s3_to_gcs_lifecycle s3_cfg)
    return_if env.settings.dry_run (write_header 200)
    result ← time_gcs_call "PutBucketLifecycle" (
        updates (
          env.bucket_update target_bucket
            (record no_update { lifecycle = some storage_lifecycle })))
    or_fail result
        λ _. write_s3_error 502 "InternalError" "Failed to update lifecycle configuration on GCS."
    write_header 200

  unfoldable pub handle_get_lifecycle : Request → M W (Unit {0})
  unfolding write_s3_error write_xml time_gcs_call or_fail parse_bucket_from_path
  handle_get_lifecycle r = do
    target_bucket ← parse_bucket_from_path r
    return_if env.settings.dry_run (
        write_s3_error 404 "NoSuchLifecycleConfiguration"
          "The lifecycle configuration does not exist.")
    result ← time_gcs_call "GetBucketLifecycle" (asks (env.bucket_attrs target_bucket))
    attrs ← or_fail result λ _.
        write_s3_error 502 "InternalError" "Failed to retrieve lifecycle configuration from GCS."
    let s3_cfg = translate_gcs_to_s3_lifecycle attrs.lifecycle
    return_if (is_nil s3_cfg.rules) (
        write_s3_error 404 "NoSuchLifecycleConfiguration"
          "The lifecycle configuration does not exist.")
    write_xml (lifecycle_xml s3_cfg)

  unfoldable pub handle_delete_lifecycle : Request → M W (Unit {0})
  unfolding write_s3_error write_xml time_gcs_call or_fail parse_bucket_from_path
  handle_delete_lifecycle r = do
    target_bucket ← parse_bucket_from_path r
    return_if env.settings.dry_run (write_header 204)
    result ← time_gcs_call "DeleteBucketLifecycle" (
        updates (
          env.bucket_update target_bucket
            (record no_update { lifecycle = some (record { rules = [] }) })))
    or_fail result
        λ _. write_s3_error 502 "InternalError" "Failed to delete lifecycle configuration on GCS."
    write_header 204
