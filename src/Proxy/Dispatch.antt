-- ===== src/Proxy/Dispatch.antt =====
-- `handleS3Request` of main.go, one block of the source to a definition.
use Prim.Native.String.{String}
use s3proxy4gcs.Base.{
  Bool, false, ◌&&◌, ◌||◌, not, some, [], ◌∷◌, Text, Dict, codes, text_eq, contains, equal_fold,
  is_none, ◌==◌, if◌then◌else◌,
}
use s3proxy4gcs.Http.{Method, get, head, is_get, is_put, is_post, is_delete, Request, get_header}
use s3proxy4gcs.CredStore.{size}
use s3proxy4gcs.Proxy.Monad.{
  s3_error_about, Plane, read_plane, write_plane, M, pure, leave, ◌>>=◌, ◌>>◌, modify, return_if,
}
use s3proxy4gcs.Proxy.Helpers.{write_s3_error, write_error, ensure_feature_enabled}
use s3proxy4gcs.Proxy.Client.{Env}
use s3proxy4gcs.Proxy.Credentials.{validate_client_credential}
use s3proxy4gcs.Proxy.StorageClass.{translate_s3_storage_class}
use s3proxy4gcs.Proxy.Lifecycle.{
  handle_put_lifecycle, handle_get_lifecycle, handle_delete_lifecycle,
}
use s3proxy4gcs.Proxy.Cors.{handle_put_cors, handle_get_cors, handle_delete_cors}
use s3proxy4gcs.Proxy.Logging.{handle_put_logging, handle_get_logging, handle_delete_logging}
use s3proxy4gcs.Proxy.Website.{handle_put_website, handle_get_website, handle_delete_website}
use s3proxy4gcs.Proxy.Tagging.{
  handle_put_object_tagging, handle_get_object_tagging, handle_delete_object_tagging,
}
use s3proxy4gcs.Proxy.Restore.{handle_restore_object}

-- `hasQueryParam(key)`.
unfoldable pub has_query_param : Dict Text → Text → Bool
has_query_param [] key = false
has_query_param ((k, v) ∷ q) key = equal_fold k key || has_query_param q key

module _ {W : Type 0} (env : Env W) where
  unfoldable pub credential_gate : Request → M W Request
  credential_gate r =
      if size env.store_at_gate == 0 then pure r else validate_client_credential env r

  unfoldable pub storage_class_gate : Request → M W (Unit {0})
  unfolding write_error
  storage_class_gate r =
      let sc = get_header r.header (codes "x-amz-storage-class") in
      return_if (not (text_eq sc []) && is_none (translate_s3_storage_class sc)) (
        write_error 400 (
          s3_error_about "InvalidStorageClass"
            "The storage class %q is not recognised. Supported values: STANDARD, REDUCED_REDUNDANCY, STANDARD_IA, ONEZONE_IA, GLACIER_IR, GLACIER, DEEP_ARCHIVE, INTELLIGENT_TIERING."
            sc))

  unfoldable pub chunked_gate : Request → M W (Unit {0})
  unfolding write_s3_error
  chunked_gate r =
      return_if (contains (get_header r.header (codes "content-encoding")) (codes "aws-chunked")) (
        write_s3_error 400 "InvalidRequest"
          "This proxy does not support aws-chunked Transfer-Encoding (Flexible Checksums). Please set the environment variable AWS_REQUEST_CHECKSUM_CALCULATION=WHEN_REQUIRED or configure your SDK client to disable automatic checksum trailers.")

  -- A subresource with handlers for PUT, GET and DELETE; other methods fall through.
  unfoldable pub by_method :
      Request → M W (Unit {0}) → M W (Unit {0}) → M W (Unit {0}) → M W (Unit {0})
  by_method r on_put on_get on_delete = do
    return_if (is_put r.method) on_put
    return_if (is_get r.method) on_get
    return_if (is_delete r.method) on_delete

  -- `if hasQueryParam(key) { … }`.
  unfoldable pub when_param : Request → Text → M W (Unit {0}) → M W (Unit {0})
  when_param r key m = if has_query_param r.query key then m else pure tt

  unfoldable pub lifecycle_block : Request → M W (Unit {0})
  unfolding ensure_feature_enabled when_param by_method
  lifecycle_block r = when_param r (codes "lifecycle") do
    ensure_feature_enabled env.settings.features.lifecycle "lifecycle"
    by_method r (handle_put_lifecycle env r) (handle_get_lifecycle env r)
        (handle_delete_lifecycle env r)

  unfoldable pub cors_block : Request → M W (Unit {0})
  unfolding ensure_feature_enabled when_param by_method
  cors_block r = when_param r (codes "cors") do
    ensure_feature_enabled env.settings.features.cors "cors"
    by_method r (handle_put_cors env r) (handle_get_cors env r) (handle_delete_cors env r)

  unfoldable pub logging_block : Request → M W (Unit {0})
  unfolding ensure_feature_enabled when_param by_method
  logging_block r = when_param r (codes "logging") do
    ensure_feature_enabled env.settings.features.logging "logging"
    by_method r (handle_put_logging env r) (handle_get_logging env r) (handle_delete_logging env r)

  unfoldable pub website_block : Request → M W (Unit {0})
  unfolding ensure_feature_enabled when_param by_method
  website_block r = when_param r (codes "website") do
    ensure_feature_enabled env.settings.features.website "website"
    by_method r (handle_put_website env r) (handle_get_website env r) (handle_delete_website env r)

  unfoldable pub tagging_block : Request → M W (Unit {0})
  unfolding ensure_feature_enabled when_param by_method
  tagging_block r = when_param r (codes "tagging") do
    ensure_feature_enabled env.settings.features.tagging "tagging"
    by_method r (handle_put_object_tagging env r) (handle_get_object_tagging env r)
        (handle_delete_object_tagging env r)

  unfoldable pub restore_block : Request → M W (Unit {0})
  unfolding ensure_feature_enabled when_param write_s3_error
  restore_block r = when_param r (codes "restore") do
    ensure_feature_enabled env.settings.features.restore_object "restore_object"
    return_if (is_post r.method) (handle_restore_object env r)
    write_s3_error 501 "NotImplemented"
        "Only POST /<bucket>/<key>?restore is supported for the RestoreObject operation."
    leave

  -- `if cond { if !ensureFeatureEnabled(…) { return } }`.
  unfoldable pub feature_gate : Bool → Bool → String → M W (Unit {0})
  unfolding ensure_feature_enabled
  feature_gate applies enabled feature =
      if applies then ensure_feature_enabled enabled feature else pure tt

  unfoldable pub is_copy : Request → Bool
  is_copy r = is_put r.method && not (text_eq (get_header r.header (codes "x-amz-copy-source")) [])

  unfoldable pub is_multipart : Request → Bool
  is_multipart r =
      has_query_param r.query (codes "uploads")
      || has_query_param r.query (codes "uploadId")
      || has_query_param r.query (codes "partNumber")

  unfoldable pub data_plane_gates : Request → M W (Unit {0})
  unfolding feature_gate is_copy is_multipart
  data_plane_gates r = do
    feature_gate (is_copy r) env.settings.features.copy_object "copy_object"
    feature_gate (is_multipart r) env.settings.features.multipart_upload "multipart_upload"
    feature_gate (is_post r.method && has_query_param r.query (codes "delete"))
        env.settings.features.delete_objects "delete_objects"

unfoldable pub plane_of : Method → Plane
plane_of get = read_plane
plane_of head = read_plane
plane_of _ = write_plane

-- The request is handed to the reverse proxy of its method. `world` is what the proxy's own calls
-- of the storage service change; what the forwarded request does there is not in it: that request
-- is sent by `Proxy.Transport.exchange`, over a network of its own.
unfoldable pub forward : {W : Type 0} → Request → M W (Unit {0})
unfolding plane_of modify
forward r = modify λ s. record s { forwarded = some (plane_of r.method, r) }

module _ {W : Type 0} (env : Env W) where
  unfoldable pub control_plane : Request → M W (Unit {0})
  unfolding lifecycle_block cors_block logging_block website_block tagging_block restore_block
  control_plane r = do
    lifecycle_block env r
    cors_block env r
    logging_block env r
    website_block env r
    tagging_block env r
    restore_block env r

  -- What stands between the credential gate and the reverse proxy.
  unfoldable pub checks : Request → M W (Unit {0})
  unfolding storage_class_gate chunked_gate control_plane data_plane_gates
  checks r = do
    storage_class_gate env r
    chunked_gate env r
    control_plane r
    data_plane_gates env r

  unfoldable pub admitted : Request → M W (Unit {0})
  unfolding checks forward
  admitted r = do checks r; forward r

  unfoldable pub handle_s3_request : Request → M W (Unit {0})
  unfolding credential_gate admitted
  handle_s3_request request = do r ← credential_gate env request; admitted r
