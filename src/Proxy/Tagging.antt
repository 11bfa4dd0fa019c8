-- ===== src/Proxy/Tagging.antt =====
-- The object tagging handlers of main.go.
use s3proxy4gcs.Base.{[]}
use s3proxy4gcs.Http.{Request}
use s3proxy4gcs.Translate.Tagging.{
  translate_s3_to_gcs_contexts, translate_gcs_contexts_to_s3_tagging,
}
use s3proxy4gcs.Proxy.Monad.{
  tagging_xml, literal, M, ◌>>=◌, ◌>>◌, set_header, write_header, write, asks, updates, return_if,
}
use s3proxy4gcs.Proxy.Helpers.{
  write_s3_error, write_xml, time_gcs_call, or_fail, parse_object_from_path,
  decode_control_plane_xml, content_type, application_xml,
}
use s3proxy4gcs.Proxy.Client.{Env}

module _ {W : Type 0} (env : Env W) where
  unfoldable pub handle_put_object_tagging : Request → M W (Unit {0})
  unfolding write_s3_error write_xml time_gcs_call or_fail parse_object_from_path
      decode_control_plane_xml
  handle_put_object_tagging r = do
    s3_cfg ← decode_control_plane_xml env.unmarshal_tagging r
    (target_bucket, target_object) ← parse_object_from_path "Bucket and Object name required." r
    return_if env.settings.dry_run (write_header 200)
    result ←
        time_gcs_call "GetObjectAttrs_Tagging" (asks (env.object_attrs target_bucket target_object))
    attrs ← or_fail result λ _. write_s3_error 404 "NoSuchKey" "The specified key does not exist."
    let new_contexts = translate_s3_to_gcs_contexts s3_cfg attrs.contexts
    updated ←
        time_gcs_call "PutObjectTagging" (
          updates (env.object_update target_bucket target_object attrs.metageneration new_contexts))
    or_fail updated λ _. write_s3_error 500 "InternalError" "Failed to update object tagging."
    write_header 200

  unfoldable pub handle_get_object_tagging : Request → M W (Unit {0})
  unfolding write_s3_error write_xml time_gcs_call or_fail parse_object_from_path
  handle_get_object_tagging r = do
    (target_bucket, target_object) ← parse_object_from_path "Bucket and Object name required." r
    return_if env.settings.dry_run do
      set_header content_type application_xml
      write_header 200
      write (
          literal
            "<?xml version=\"1.0\" encoding=\"UTF-8\"?>\n<Tagging><TagSet></TagSet></Tagging>")
    result ←
        time_gcs_call "GetObjectAttrs_GetTagging"
          (asks (env.object_attrs target_bucket target_object))
    attrs ← or_fail result λ _. write_s3_error 404 "NoSuchKey" "The specified key does not exist."
    write_xml (tagging_xml (translate_gcs_contexts_to_s3_tagging attrs.contexts))

  unfoldable pub handle_delete_object_tagging : Request → M W (Unit {0})
  unfolding write_s3_error write_xml time_gcs_call or_fail parse_object_from_path
  handle_delete_object_tagging r = do
    (target_bucket, target_object) ← parse_object_from_path "Bucket and Object name required." r
    return_if env.settings.dry_run (write_header 204)
    result ←
        time_gcs_call "GetObjectAttrs_DeleteTagging"
          (asks (env.object_attrs target_bucket target_object))
    attrs ← or_fail result λ _. write_s3_error 404 "NoSuchKey" "The specified key does not exist."
    updated ← time_gcs_call "DeleteObjectTagging" (
        updates (
          env.object_update target_bucket target_object attrs.metageneration
            (record { custom = [] })))
    or_fail updated λ _. write_s3_error 500 "InternalError" "Failed to delete object tagging."
    write_header 204
