-- ===== src/Proxy/Rules/Helpers.antt =====
-- The shared helpers of the handlers never touch the storage service.
use Prim.Native.String.{String}
use s3proxy4gcs.Base.{ℕ, Bool, true, false, Option, none, some, Text}
use s3proxy4gcs.Base.Result.{Result, ok, err}
use s3proxy4gcs.Http.{Request}
use s3proxy4gcs.Proxy.Client.{GcsError}
use s3proxy4gcs.Proxy.Monad.{BodyPart, M}
use s3proxy4gcs.Proxy.Helpers.{
  write_error, write_s3_error, write_xml, ensure_feature_enabled, time_gcs_call, or_fail,
  parse_bucket_from_path, parse_object_from_path, decode_control_plane_xml, first_part, path_parts,
  object_parts, read_capped, count_error, required, decode_body, BodyRead, whole, too_big, failed,
}
use s3proxy4gcs.Proxy.Rules.World.{Reads, reads_rules}

module _ {W : Type 0} where
  pub write_error-Reads : (code : ℕ) (part : BodyPart) → Reads {W = W} (write_error code part)
  unfolding write_error
  write_error-Reads code part = search reads_rules

  pub write_s3_error-Reads :
      (status_code : ℕ) (code message : String)
      → Reads {W = W} (write_s3_error status_code code message)
  unfolding write_s3_error
  write_s3_error-Reads status_code code message = search reads_rules

  pub write_xml-Reads : (part : BodyPart) → Reads {W = W} (write_xml part)
  unfolding write_xml
  write_xml-Reads part = search reads_rules

  pub ensure_feature_enabled-Reads :
      (enabled : Bool) (feature : String) → Reads {W = W} (ensure_feature_enabled enabled feature)
  unfolding ensure_feature_enabled
  ensure_feature_enabled-Reads true feature = search reads_rules
  ensure_feature_enabled-Reads false feature = search reads_rules

module _ {W A : Type 0} where
  count_error-Reads :
      (operation : String) (result : Result GcsError A)
      → Reads {W = W} (count_error operation result)
  unfolding count_error
  count_error-Reads operation (ok a) = search reads_rules
  count_error-Reads operation (err e) = search reads_rules

  pub time_gcs_call-Reads :
      (operation : String) (fn : M W (Result GcsError A))
      → Reads fn
      → Reads (time_gcs_call operation fn)
  unfolding time_gcs_call
  time_gcs_call-Reads operation fn kf = search (reads_rules, count_error-Reads)

  pub or_fail-Reads :
      (result : Result GcsError A) (on_error : GcsError → M W (Unit {0}))
      → ((e : GcsError) → Reads (on_error e))
      → Reads (or_fail result on_error)
  unfolding or_fail
  or_fail-Reads (ok a) on_error ko = search reads_rules
  or_fail-Reads (err e) on_error ko = search reads_rules

  required-Reads :
      (value : Option A) (code message : String) → Reads {W = W} (required value code message)
  unfolding required
  required-Reads (some a) code message = search reads_rules
  required-Reads none code message = search (reads_rules, write_s3_error-Reads)

  decode_body-Reads :
      (unmarshal : Text → Option A) (b : BodyRead) → Reads {W = W} (decode_body unmarshal b)
  unfolding decode_body
  decode_body-Reads unmarshal (whole body) = required-Reads (unmarshal body) _ _
  decode_body-Reads unmarshal too_big = search (reads_rules, write_s3_error-Reads)
  decode_body-Reads unmarshal failed = search (reads_rules, write_s3_error-Reads)

  pub decode_control_plane_xml-Reads :
      (unmarshal : Text → Option A) (r : Request)
      → Reads {W = W} (decode_control_plane_xml unmarshal r)
  unfolding decode_control_plane_xml
  decode_control_plane_xml-Reads unmarshal r = decode_body-Reads unmarshal (read_capped r.body)

module _ {W : Type 0} where
  pub parse_bucket_from_path-Reads : (r : Request) → Reads {W = W} (parse_bucket_from_path r)
  unfolding parse_bucket_from_path
  parse_bucket_from_path-Reads r = required-Reads (first_part (path_parts r.path)) _ _

  pub parse_object_from_path-Reads :
      (message : String) (r : Request) → Reads {W = W} (parse_object_from_path message r)
  unfolding parse_object_from_path
  parse_object_from_path-Reads message r = required-Reads (object_parts (path_parts r.path)) _ _

pub ruleset helpers_read = (
  reads_rules, write_error-Reads, write_s3_error-Reads, write_xml-Reads,
  ensure_feature_enabled-Reads, time_gcs_call-Reads, or_fail-Reads, parse_bucket_from_path-Reads,
  parse_object_from_path-Reads, decode_control_plane_xml-Reads,
)
