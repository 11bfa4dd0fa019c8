-- ===== src/Proxy/Helpers.antt =====
-- The helpers of main.go that the handlers share.
use Prim.Native.String.{String}
use s3proxy4gcs.Base.{
  ℕ, Bool, true, false, ◌||◌, Option, none, some, List, [], ◌∷◌, Text, codes, text_eq, trim, split,
  join, length, leb, ◌==◌, if◌then◌else◌,
}
use s3proxy4gcs.Base.Result.{Result, ok, err}
use s3proxy4gcs.Http.{RequestBody, Request}
use s3proxy4gcs.Metrics.{classify_gcs_error}
use s3proxy4gcs.Proxy.Client.{GcsError}
use s3proxy4gcs.Proxy.Monad.{
  BodyPart, s3_error, s3_error_named, feature_disabled_rejection, gcs_api_duration, gcs_error, M,
  pure, leave, ◌>>=◌, ◌>>◌, set_header, write_header, write, observe,
}

abbrev pub max_control_plane_body_size : ℕ
max_control_plane_body_size = 65536

abbrev pub content_type : Text
content_type = codes "content-type"

abbrev pub application_xml : Text
application_xml = codes "application/xml"

module _ {W : Type 0} where
  -- `writeS3Error`, for a body of either form.
  unfoldable pub write_error : ℕ → BodyPart → M W (Unit {0})
  write_error status_code part = do
    set_header content_type application_xml
    write_header status_code
    write part

  unfoldable pub write_s3_error : ℕ → String → String → M W (Unit {0})
  unfolding write_error
  write_s3_error status_code code message = write_error status_code (s3_error code message)

  -- `Content-Type`, status 200 and the XML of a document.
  unfoldable pub write_xml : BodyPart → M W (Unit {0})
  write_xml part = do set_header content_type application_xml; write_header 200; write part

  -- `false` of the source is the end of the handler here and below: every caller returns on it.
  unfoldable pub ensure_feature_enabled : Bool → String → M W (Unit {0})
  unfolding write_error
  ensure_feature_enabled true feature = pure tt
  ensure_feature_enabled false feature = do
    observe (feature_disabled_rejection feature)
    write_error 501
        (s3_error_named "NotImplemented" "The %q operation is disabled on this proxy." feature)
    leave

-- The `switch` of `classifyGCSSDKError`.
abbrev other_class : GcsError → String
other_class e =
    if e.is_canceled then "cancelled" else if e.is_deadline_exceeded then "timeout" else "network"

abbrev or_other : Option String → String → String
or_other none d = d
or_other (some c) d = c

abbrev api_class : Option ℕ → Option String
api_class none = none
api_class (some code) = classify_gcs_error code

unfoldable pub classify_gcs_sdk_error : GcsError → String
unfolding classify_gcs_error
classify_gcs_sdk_error e = or_other (api_class e.api_code) (other_class e)

-- `if err != nil { GCSErrors… }`.
unfoldable pub count_error : {W A : Type 0} → String → Result GcsError A → M W (Unit {0})
unfolding classify_gcs_sdk_error
count_error operation (ok a) = pure tt
count_error operation (err e) = observe (gcs_error operation (classify_gcs_sdk_error e))

module _ {W A : Type 0} where
  unfoldable pub time_gcs_call : String → M W (Result GcsError A) → M W (Result GcsError A)
  unfolding count_error
  time_gcs_call operation fn = do
    result ← fn
    observe (gcs_api_duration operation)
    count_error operation result
    pure result

  -- The answer, or the end of the handler after an error response.
  unfoldable pub or_fail : Result GcsError A → (GcsError → M W (Unit {0})) → M W A
  or_fail (ok a) on_error = pure a
  or_fail (err e) on_error = do on_error e; leave

-- `strings.Split(strings.Trim(r.URL.Path, "/"), "/")`.
unfoldable pub path_parts : Text → List Text
path_parts path = split (trim (λ c. c == b'/') path) b'/'

-- The first part, if there is one and it is not empty.
abbrev pub first_part : List Text → Option Text
first_part [] = none
first_part (p ∷ ps) = if text_eq p [] then none else some p

-- The bucket and the object of a path whose first two parts are not empty.
abbrev pub object_parts : List Text → Option (Text × Text)
object_parts [] = none
object_parts (p ∷ []) = none
object_parts (p ∷ q ∷ ps) =
    if text_eq p [] || text_eq q [] then none else some (p, join (q ∷ ps) (codes "/"))

-- What reading a body through `http.MaxBytesReader` comes to.
pub data BodyRead : Type 0 where
  whole : Text → BodyRead
  too_big failed : BodyRead

unfoldable pub read_capped : RequestBody → BodyRead
read_capped b =
    if leb (length b.sent) max_control_plane_body_size
    then if b.broken then failed else whole b.sent
    else too_big

module _ {W : Type 0} where
  -- The value, or the end of the handler after a 400.
  unfoldable pub required : {A : Type 0} → Option A → String → String → M W A
  unfolding write_s3_error
  required (some a) code message = pure a
  required none code message = do write_s3_error 400 code message; leave

  unfoldable pub parse_bucket_from_path : Request → M W Text
  unfolding required path_parts
  parse_bucket_from_path r =
      required (first_part (path_parts r.path)) "InvalidArgument" "Bucket name required."

  unfoldable pub parse_object_from_path : String → Request → M W (Text × Text)
  unfolding required path_parts
  parse_object_from_path message r =
      required (object_parts (path_parts r.path)) "InvalidArgument" message

  -- What `decodeControlPlaneXML` does with the body that it has read.
  unfoldable pub decode_body : {A : Type 0} → (Text → Option A) → BodyRead → M W A
  unfolding required
  decode_body unmarshal too_big = do
    write_s3_error 400 "MaxMessageLengthExceeded"
        "Your request was too big. Max configuration size is 65536 bytes."
    leave
  decode_body unmarshal failed = do
    write_s3_error 500 "InternalError" "Failed to read request body."
    leave
  decode_body unmarshal (whole body) =
      required (unmarshal body) "MalformedXML"
        "The XML you provided was not well-formed or did not validate against our published schema."

  unfoldable pub decode_control_plane_xml : {A : Type 0} → (Text → Option A) → Request → M W A
  unfolding decode_body read_capped
  decode_control_plane_xml unmarshal r = decode_body unmarshal (read_capped r.body)
