-- ===== src/Proxy/Answers/Helpers.antt =====
-- The shared helpers of the handlers: which of them answer, and which go on.
use Prim.Native.String.{String}
use s3proxy4gcs.Base.{ℕ, Bool, true, false, Option, none, some, Text}
use s3proxy4gcs.Base.Result.{Result, ok, err}
use s3proxy4gcs.Http.{Request}
use s3proxy4gcs.Proxy.Client.{GcsError}
use s3proxy4gcs.Proxy.Monad.{BodyPart, M}
use s3proxy4gcs.Proxy.Helpers.{
  write_error, write_s3_error, write_xml, ensure_feature_enabled, time_gcs_call, or_fail,
  parse_bucket_from_path, parse_object_from_path, decode_control_plane_xml, first_part, path_parts,
  object_parts, read_capped, count_error, required, decode_body, BodyRead, whole, too_big, failed,
}
use s3proxy4gcs.Proxy.Rules.Answers.{open_phase, answered, Leads, leads_rules}

module _ {W : Type 0} where
  pub write_error-Leads :
      (code : ℕ) (part : BodyPart) → Leads {W = W} open_phase answered (write_error code part)
  unfolding write_error
  write_error-Leads code part = search leads_rules

  pub write_s3_error-Leads :
      (status_code : ℕ) (code message : String)
      → Leads {W = W} open_phase answered (write_s3_error status_code code message)
  unfolding write_s3_error
  write_s3_error-Leads status_code code message = write_error-Leads status_code _

  pub write_xml-Leads : (part : BodyPart) → Leads {W = W} open_phase answered (write_xml part)
  unfolding write_xml
  write_xml-Leads part = search leads_rules

ruleset rules = (leads_rules, write_error-Leads, write_s3_error-Leads)

module _ {W : Type 0} where
  pub ensure_feature_enabled-Leads :
      (enabled : Bool) (feature : String)
      → Leads {W = W} open_phase open_phase (ensure_feature_enabled enabled feature)
  unfolding ensure_feature_enabled
  ensure_feature_enabled-Leads true feature = search rules
  ensure_feature_enabled-Leads false feature = search rules

module _ {W A : Type 0} where
  count_error-Leads :
      (operation : String) (result : Result GcsError A)
      → Leads {W = W} open_phase open_phase (count_error operation result)
  unfolding count_error
  count_error-Leads operation (ok a) = search rules
  count_error-Leads operation (err e) = search rules

  pub time_gcs_call-Leads :
      (operation : String) (fn : M W (Result GcsError A))
      → Leads open_phase open_phase fn
      → Leads open_phase open_phase (time_gcs_call operation fn)
  unfolding time_gcs_call
  time_gcs_call-Leads operation fn kf = search (rules, count_error-Leads) depth 8

  pub or_fail-Leads :
      (result : Result GcsError A) (on_error : GcsError → M W (Unit {0}))
      → ((e : GcsError) → Leads open_phase answered (on_error e))
      → Leads open_phase open_phase (or_fail result on_error)
  unfolding or_fail
  or_fail-Leads (ok a) on_error ko = search rules
  or_fail-Leads (err e) on_error ko = search rules

  required-Leads :
      (value : Option A) (code message : String)
      → Leads {W = W} open_phase open_phase (required value code message)
  unfolding required
  required-Leads (some a) code message = search rules
  required-Leads none code message = search rules

  decode_body-Leads :
      (unmarshal : Text → Option A) (b : BodyRead)
      → Leads {W = W} open_phase open_phase (decode_body unmarshal b)
  unfolding decode_body
  decode_body-Leads unmarshal (whole body) = required-Leads (unmarshal body) _ _
  decode_body-Leads unmarshal too_big = search rules
  decode_body-Leads unmarshal failed = search rules

  pub decode_control_plane_xml-Leads :
      (unmarshal : Text → Option A) (r : Request)
      → Leads {W = W} open_phase open_phase (decode_control_plane_xml unmarshal r)
  unfolding decode_control_plane_xml
  decode_control_plane_xml-Leads unmarshal r = decode_body-Leads unmarshal (read_capped r.body)

module _ {W : Type 0} where
  pub parse_bucket_from_path-Leads :
      (r : Request) → Leads {W = W} open_phase open_phase (parse_bucket_from_path r)
  unfolding parse_bucket_from_path
  parse_bucket_from_path-Leads r = required-Leads (first_part (path_parts r.path)) _ _

  pub parse_object_from_path-Leads :
      (message : String) (r : Request)
      → Leads {W = W} open_phase open_phase (parse_object_from_path message r)
  unfolding parse_object_from_path
  parse_object_from_path-Leads message r = required-Leads (object_parts (path_parts r.path)) _ _

pub ruleset helpers_lead = (
  write_error-Leads, write_s3_error-Leads, write_xml-Leads, ensure_feature_enabled-Leads,
  time_gcs_call-Leads, or_fail-Leads, parse_bucket_from_path-Leads, parse_object_from_path-Leads,
  decode_control_plane_xml-Leads, leads_rules,
)
