-- ===== src/Proxy/Website.antt =====
-- The website handlers of main.go.
use s3proxy4gcs.Base.{Option, none, some, []}
use s3proxy4gcs.Http.{Request}
use s3proxy4gcs.Translate.S3.{WebsiteConfiguration}
use s3proxy4gcs.Translate.Website.{translate_s3_to_gcs_website, translate_gcs_to_s3_website}
use s3proxy4gcs.Proxy.Monad.{website_xml, M, ◌>>=◌, ◌>>◌, write_header, asks, updates, return_if}
use s3proxy4gcs.Proxy.Helpers.{
  write_s3_error, write_xml, time_gcs_call, or_fail, parse_bucket_from_path,
  decode_control_plane_xml,
}
use s3proxy4gcs.Proxy.Client.{Env, no_update}

module _ {W : Type 0} (env : Env W) where
  unfoldable pub show_website : Option WebsiteConfiguration → M W (Unit {0})
  unfolding write_s3_error write_xml
  show_website none =
      write_s3_error 404 "NoSuchWebsiteConfiguration"
        "The specified bucket does not have a website configuration."
  show_website (some s3_cfg) = write_xml (website_xml s3_cfg)

  unfoldable pub handle_put_website : Request → M W (Unit {0})
  unfolding write_s3_error write_xml time_gcs_call or_fail parse_bucket_from_path
      decode_control_plane_xml
  handle_put_website r = do
    s3_cfg ← decode_control_plane_xml env.unmarshal_website r
    target_bucket ← parse_bucket_from_path r
    let gcs_website = translate_s3_to_gcs_website s3_cfg
    return_if env.settings.dry_run (write_header 200)
    result ← time_gcs_call "PutBucketWebsite" (
        updates (env.bucket_update target_bucket (record no_update { website = some gcs_website })))
    or_fail result
        λ _. write_s3_error 502 "InternalError" "Failed to update website configuration on GCS."
    write_header 200

  unfoldable pub handle_get_website : Request → M W (Unit {0})
  unfolding write_s3_error write_xml time_gcs_call or_fail parse_bucket_from_path show_website
  handle_get_website r = do
    target_bucket ← parse_bucket_from_path r
    return_if env.settings.dry_run (
        write_s3_error 404 "NoSuchWebsiteConfiguration"
          "The specified bucket does not have a website configuration.")
    result ← time_gcs_call "GetBucketWebsite" (asks (env.bucket_attrs target_bucket))
    attrs ←
        or_fail result λ _.
          write_s3_error 502 "InternalError" "Failed to retrieve website configuration from GCS."
    show_website (translate_gcs_to_s3_website attrs.website)

  unfoldable pub handle_delete_website : Request → M W (Unit {0})
  unfolding write_s3_error write_xml time_gcs_call or_fail parse_bucket_from_path
  handle_delete_website r = do
    target_bucket ← parse_bucket_from_path r
    return_if env.settings.dry_run (write_header 204)
    result ← time_gcs_call "DeleteBucketWebsite" (
        updates (
          env.bucket_update target_bucket (record no_update {
            website = some (record { main_page_suffix = []; not_found_page = [] });
          })))
    or_fail result
        λ _. write_s3_error 502 "InternalError" "Failed to delete website configuration on GCS."
    write_header 204
