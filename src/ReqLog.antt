-- ===== src/ReqLog.antt =====
-- pkg/reqlog/reqlog.go: the line of a request in the request log.
pub mod Operation
pub mod Cleanup
pub mod Line
pub mod Key
pub mod Entry
use s3proxy4gcs.Base.{
  ℕ, ◌+◌, ◌||◌, ◌&&◌, not, Bool, true, false, Option, none, some, List, [], ◌∷◌, Text, codes, ℤ,
  pos, negsuc, decimal, join, cut, cut_prefix, split, trim_left, trim_space, is_nil, ◌==◌,
  if◌then◌else◌,
}
use s3proxy4gcs.Http.{Request, get_header, get_query}

pub record Record : Type 0 where
  pub timestamp_ms : ℤ
  pub request_id : Text
  pub source_ip : Text
  pub http_method : Text
  pub api_method : Text
  pub bucket : Text
  pub access_key : Text
  pub g_uploader_upload_id : Text
  pub status_code : ℤ
  pub duration_ms : ℤ

-- `strconv.FormatInt(n, 10)`.
unfoldable pub format_int : ℤ → Text
format_int (pos n) = decimal n
format_int (negsuc n) = b'-' ∷ decimal (n + 1)

abbrev pub csv_fields : Record → List Text
csv_fields rec =
    format_int rec.timestamp_ms
    ∷ rec.request_id
    ∷ rec.source_ip
    ∷ rec.http_method
    ∷ rec.api_method
    ∷ rec.bucket
    ∷ rec.access_key
    ∷ rec.g_uploader_upload_id
    ∷ format_int rec.status_code
    ∷ format_int rec.duration_ms
    ∷ []

-- U+0001.
abbrev pub separator : ℕ
separator = 1

unfoldable pub to_csv_line : Record → Text
unfolding format_int
to_csv_line rec = join (csv_fields rec) (separator ∷ [])

unfoldable pub extract_g_uploader_upload_id : List (Text × Text) → Text
unfolding get_header
extract_g_uploader_upload_id h = get_header h (codes "x-guploader-uploadid")

-- What stands before the first comma.
abbrev first_address : Text → Text
first_address xff = elim (cut b',' xff) [ none ↦ xff | some (first, rest) ↦ first ]

-- `net.SplitHostPort` is the parameter: the host, or `none` for its error.
unfoldable pub extract_source_ip : (Text → Option Text) → Request → Text
extract_source_ip split_host_port r =
    let xff = get_header r.header (codes "x-forwarded-for") in
    let xri = get_header r.header (codes "x-real-ip") in
    if not (is_nil xff)
    then trim_space (first_address xff)
    else if not (is_nil xri)
    then trim_space xri
    else elim (split_host_port r.remote_addr) [ none ↦ r.remote_addr | some host ↦ host ]

-- `strings.TrimPrefix(path, "/")`.
abbrev pub without_slash : Text → Text
without_slash path = elim (cut_prefix (codes "/") path) [ none ↦ path | some rest ↦ rest ]

unfoldable pub extract_bucket : Request → Text
extract_bucket r =
    let trimmed = without_slash r.path in
    elim (cut b'/' trimmed) [ none ↦ trimmed | some (bucket, key) ↦ bucket ]

-- The class `\s` of a regular expression.
abbrev pub is_re_space : ℕ → Bool
is_re_space c = c == 9 || c == 10 || c == 12 || c == 13 || c == 32

-- The class `[^/,\s]`.
abbrev pub is_key_byte : ℕ → Bool
is_key_byte c = not (c == b'/' || c == b',' || is_re_space c)

-- The longest beginning of key bytes, and what is left.
unfoldable pub span_key : Text → Text × Text
span_key [] = ([], [])
span_key (c ∷ s) =
    let (key, rest) = span_key s in if is_key_byte c then (c ∷ key, rest) else ([], c ∷ s)

abbrev starts_with_slash : Text → Bool
starts_with_slash [] = false
starts_with_slash (c ∷ s) = c == b'/'

-- `\s*([^/,\s]+)/` at the beginning of a text: the group, if there is a match.
unfoldable pub match_key : Text → Option Text
unfolding span_key
match_key s =
    let (key, rest) = span_key (trim_left is_re_space s) in
    if not (is_nil key) && starts_with_slash rest then some key else none

-- `credentialRe.FindStringSubmatch`: the group of the leftmost match.
unfoldable pub find_credential : Text → Option Text
unfolding match_key
find_credential [] = none
find_credential (c ∷ s) = elim (cut_prefix (codes "Credential=") (c ∷ s)) [
  | none ↦ find_credential s
  | some rest ↦ elim (match_key rest) [ none ↦ find_credential s | some key ↦ some key ]
]

-- "AWS AKID:signature".
unfoldable pub signature_v2_key : Text → Option Text
signature_v2_key auth = elim (cut_prefix (codes "AWS ") auth) [
  | none ↦ none
  | some rest ↦ elim (cut b':' rest) [
    | none ↦ none
    | some (key, signature) ↦ if is_nil key then none else some (trim_space key)
  ]
]

unfoldable pub header_key : Text → Option Text
unfolding find_credential signature_v2_key
header_key auth =
    if is_nil auth
    then none
    else elim (find_credential auth) [ some key ↦ some key | none ↦ signature_v2_key auth ]

-- The key of a presigned URL, of version 4 or 2, or the empty text.
unfoldable pub presigned_key : List (Text × Text) → Text
presigned_key q = elim (cut b'/' (get_query q (codes "X-Amz-Credential"))) [
  | none ↦ get_query q (codes "AWSAccessKeyId")
  | some (key, scope) ↦ if is_nil key then get_query q (codes "AWSAccessKeyId") else key
]

unfoldable pub extract_access_key : Request → Text
unfolding header_key presigned_key
extract_access_key r = elim (header_key (get_header r.header (codes "authorization"))) [
  | some key ↦ key
  | none ↦ presigned_key r.query
]
