-- ===== src/Proxy/Cors.antt =====
-- The CORS handlers of main.go.
use s3proxy4gcs.Base.{Option, none, some, List, [], ◌∷◌, ◌++◌, Text, codes, join}
use s3proxy4gcs.Http.{Request}
use s3proxy4gcs.Translate.S3.{CorsConfiguration}
use s3proxy4gcs.Translate.Cors.{translate_s3_to_gcs_cors, translate_gcs_to_s3_cors}
use s3proxy4gcs.Proxy.Monad.{
  cors_xml, M, pure, ◌>>=◌, ◌>>◌, set_header, write_header, asks, updates, return_if,
}
use s3proxy4gcs.Proxy.Helpers.{
  write_s3_error, write_xml, time_gcs_call, or_fail, parse_bucket_from_path,
  decode_control_plane_xml,
}
use s3proxy4gcs.Proxy.Client.{Env, no_update}

-- A slice that was built by `append` from nil: nil if nothing was appended.
abbrev pub appended : {A : Type 0} → List A → Option (List A)
appended [] = none
appended (x ∷ xs) = some (x ∷ xs)

abbrev pub warning : Text
warning = codes "x-s3proxy-warning"

-- The format of the warning header.
abbrev pub warning_text : List Text → Text
warning_text dropped =
    codes "AllowedHeaders not supported by GCS and were ignored: " ++ join dropped (codes ", ")

abbrev pub cors_or_empty : Option CorsConfiguration → CorsConfiguration
cors_or_empty none = record { cors_rules = [] }
cors_or_empty (some cfg) = cfg

module _ {W : Type 0} (env : Env W) where
  unfoldable pub warn_dropped : List Text → M W (Unit {0})
  warn_dropped [] = pure tt
  warn_dropped (h ∷ hs) = set_header warning (warning_text (h ∷ hs))

  unfoldable pub handle_put_cors : Request → M W (Unit {0})
  unfolding write_s3_error write_xml time_gcs_call or_fail parse_bucket_from_path
      decode_control_plane_xml warn_dropped
  handle_put_cors r = do
    s3_cfg ← decode_control_plane_xml env.unmarshal_cors r
    target_bucket ← parse_bucket_from_path r
    let (gcs_cors, dropped_headers) = translate_s3_to_gcs_cors env.to_lower s3_cfg
    warn_dropped dropped_headers
    return_if env.settings.dry_run (write_header 200)
    result ←
        time_gcs_call "PutBucketCors" (
          updates (env.bucket_update target_bucket (record no_update { cors = appended gcs_cors })))
    or_fail result
        λ _. write_s3_error 502 "InternalError" "Failed to update CORS configuration on GCS."
    write_header 200

  unfoldable pub handle_get_cors : Request → M W (Unit {0})
  unfolding write_s3_error write_xml time_gcs_call or_fail parse_bucket_from_path
  handle_get_cors r = do
    target_bucket ← parse_bucket_from_path r
    return_if env.settings.dry_run (write_xml (cors_xml (record { cors_rules = [] })))
    result ← time_gcs_call "GetBucketCors" (asks (env.bucket_attrs target_bucket))
    attrs ←
        or_fail result
          λ _. write_s3_error 502 "InternalError" "Failed to retrieve CORS configuration from GCS."
    write_xml (cors_xml (cors_or_empty (translate_gcs_to_s3_cors attrs.cors)))

  unfoldable pub handle_delete_cors : Request → M W (Unit {0})
  unfolding write_s3_error write_xml time_gcs_call or_fail parse_bucket_from_path
  handle_delete_cors r = do
    target_bucket ← parse_bucket_from_path r
    return_if env.settings.dry_run (write_header 204)
    result ←
        time_gcs_call "DeleteBucketCors"
          (updates (env.bucket_update target_bucket (record no_update { cors = some [] })))
    or_fail result
        λ _. write_s3_error 502 "InternalError" "Failed to delete CORS configuration on GCS."
    write_header 204
