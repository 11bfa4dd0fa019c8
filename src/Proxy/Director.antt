-- ===== src/Proxy/Director.antt =====
-- The director of main.go, which both reverse proxies apply to the request that they send to the
-- storage service, a block of the source to a definition; and `modifyResponse`.
pub mod Blocks
pub mod Hash
pub mod StorageClass
pub mod Redirected
pub mod Prepared
pub mod VirtualHost
use s3proxy4gcs.Base.{
  Bool, true, false, ◌&&◌, ◌||◌, not, Option, none, some, List, [], ◌∷◌, ◌++◌, Text, Dict, codes,
  text_eq, is_nil, is_some, ℤ, pos, atoi, length, cut, cut_suffix, contains, reverse, lookup,
  insert, delete, if◌then◌else◌,
}
use s3proxy4gcs.Config.{Settings}
use s3proxy4gcs.Http.{is_post, RequestBody, Credentials, Request, get_header, get_query}
use s3proxy4gcs.Proxy.StorageClass.{translate_s3_storage_class}

-- What is sent as the body: what the client sends, if the reverse proxy has kept it; a copy; or a
-- body of the client that was closed after a failed read.
pub data OutgoingBody : Type 0 where
  no_body closed : OutgoingBody
  streamed : RequestBody → OutgoingBody
  buffered : Text → OutgoingBody

-- The request that is sent: that of the client, with the scheme and the host of its URL, its length
-- and its body. Its query is kept in both forms, raw and parsed.
pub record Outgoing : Type 0 where
  pub request : Request
  pub url_scheme : Text
  pub url_host : Text
  pub content_length : ℤ
  pub body : OutgoingBody

-- `gcsURL`.
pub record Url : Type 0 where
  pub scheme : Text
  pub host : Text

abbrev pub on_request : (Request → Request) → Outgoing → Outgoing
on_request f o = record o { request = f o.request }

abbrev pub on_header : (Dict Text → Dict Text) → Outgoing → Outgoing
on_header f = on_request λ r. record r { header = f r.header }

-- `host[:strings.LastIndex(host, ":")]`, and the whole host without a colon.
unfoldable pub without_port : Text → Text
without_port host = elim (cut b':' (reverse host)) [
  | none ↦ host
  | some (port, before) ↦ reverse before
]

abbrev prefixed : Text → Text → Text
prefixed bucket path = b'/' ∷ (bucket ++ path)

-- The path that names the bucket.
unfoldable pub to_path_style : Text → Request → Request
to_path_style bucket r = record r {
  path = prefixed bucket r.path;
  raw_path = if is_nil r.raw_path then [] else prefixed bucket r.raw_path;
}

-- The conversion from the virtual-hosted style, where a base domain is set.
unfoldable pub rewrite_host : Text → Request → Request
unfolding without_port
rewrite_host base_domain r =
    if is_nil base_domain then r else elim (cut_suffix (b'.' ∷ base_domain) (without_port r.host)) [
      | none ↦ r
      | some bucket ↦ if is_nil bucket then r else to_path_style bucket r
    ]

unfoldable pub set_target : Url → Outgoing → Outgoing
set_target url o = record o {
  url_host = url.host;
  url_scheme = url.scheme;
  request = record o.request { host = url.host };
}

-- The length that the header announces, if it is a number.
abbrev announced : Text → ℤ → ℤ
announced text old = if is_nil text then old else elim (atoi text) [ none ↦ old | some n ↦ n ]

unfoldable pub set_content_length : Outgoing → Outgoing
set_content_length o = record o {
  content_length =
      announced (get_header o.request.header (codes "content-length")) o.content_length;
}

abbrev pub storage_class : Text
storage_class = codes "x-amz-storage-class"

unfoldable pub translate_storage_class : Dict Text → Dict Text
translate_storage_class h =
    let sc = get_header h storage_class in
    if not (is_nil sc) && not (text_eq sc (codes "STANDARD"))
    then elim (translate_s3_storage_class sc) [
      | none ↦ h
      | some gcs_class ↦ insert storage_class gcs_class h
    ]
    else h

-- `Values.Encode` is the parameter; what it prints is parsed as the same query.
unfoldable pub strip_x_id : (Dict Text → Text) → Request → Request
strip_x_id encode r =
    let absent = is_nil (get_query r.query (codes "x-id")) in
    let q = delete (codes "x-id") r.query in
    record r {
      query = if absent then r.query else q;
      raw_query = if absent then r.raw_query else encode q;
    }

unfoldable pub strip_identity : Bool → Dict Text → Dict Text
strip_identity disable_header_strip h =
    if not disable_header_strip
      && text_eq (get_header h (codes "accept-encoding")) (codes "identity")
    then delete (codes "accept-encoding") h
    else h

-- `credentialsFromContext`, or the pair of the settings; `none` skips the signature.
unfoldable pub signing_credentials : Settings → Request → Option Credentials
signing_credentials settings r = elim r.resolved_creds [
  | some creds ↦ some creds
  | none ↦
      if is_nil settings.proxy_access_key || is_nil settings.proxy_secret_key
      then none
      else some (record {
        access_key_id = settings.proxy_access_key;
        secret_access_key = settings.proxy_secret_key;
      })
]

abbrev pub unsigned_payload : Text
unsigned_payload = codes "UNSIGNED-PAYLOAD"

-- The headers that are never part of what is signed.
abbrev pub stripped : List Text
stripped =
    codes "user-agent"
    ∷ codes "expect"
    ∷ codes "accept-encoding"
    ∷ codes "amz-sdk-invocation-id"
    ∷ codes "amz-sdk-request"
    ∷ []

unfoldable pub delete_all : List Text → Dict Text → Dict Text
delete_all [] h = h
delete_all (k ∷ ks) h = delete_all ks (delete k h)

unfoldable pub strip_chunked : Dict Text → Dict Text
strip_chunked h =
    if contains (get_header h (codes "content-encoding")) (codes "aws-chunked")
    then delete (codes "content-encoding") h
    else h

unfoldable pub strip_headers : Bool → Dict Text → Dict Text
strip_headers disable_header_strip h =
    let left = delete_all stripped (insert (codes "x-amz-content-sha256") unsigned_payload h) in
    if disable_header_strip
    then left
    else strip_chunked
        (delete (codes "x-amz-trailer") (delete (codes "x-amz-decoded-content-length") left))

abbrev pub content_md5 : Text
content_md5 = codes "content-md5"

abbrev pub is_delete_objects : Request → Bool
is_delete_objects r = is_post r.method && is_some (lookup (codes "delete") r.query)

abbrev pub hashed : (Text → Text) → Text → Outgoing → Outgoing
hashed md5_base64 text o = record (on_header (insert content_md5 (md5_base64 text)) o) {
  body = buffered text;
  content_length = pos (length text);
}

-- Base64 of the MD5 hash is the parameter. A body that cannot be read to its end is closed all the
-- same, and there is no hash.
unfoldable pub hash_body : (Text → Text) → OutgoingBody → Outgoing → Outgoing
hash_body md5_base64 no_body o = on_header (delete content_md5) o
hash_body md5_base64 closed o = o
hash_body md5_base64 (buffered text) o = hashed md5_base64 text o
hash_body md5_base64 (streamed b) o =
    if b.broken then record o { body = closed } else hashed md5_base64 b.sent o

unfoldable pub set_md5 : (Text → Text) → Outgoing → Outgoing
set_md5 md5_base64 o =
    if is_delete_objects o.request
    then hash_body md5_base64 o.body o
    else on_header (delete content_md5) o

-- `SignHTTP` of the AWS SDK, for the service s3 of us-east-1 and the time of the call: the request
-- that it leaves, signed or, after an error, as it is; the request is sent in either case.
abbrev pub Signer : Type 0
Signer = Credentials → Text → Outgoing → Outgoing

-- What is signed.
unfoldable pub prepare : Settings → (Text → Text) → Outgoing → Outgoing
prepare settings md5_base64 o =
    set_md5 md5_base64 (on_header (strip_headers settings.disable_header_strip) o)

module _ (settings : Settings) (url : Url) (encode : Dict Text → Text) where
  -- What is done to every request, signed or not. `shouldResign` is true from the beginning.
  unfoldable pub redirect : Outgoing → Outgoing
  redirect o =
      let rewritten = on_request (rewrite_host settings.proxy_base_domain) o in
      let sized = set_content_length (set_target url rewritten) in
      let translated = on_header translate_storage_class sized in
      let plain = on_request (strip_x_id encode) translated in
      on_header (strip_identity settings.disable_header_strip) plain

  unfoldable pub director : (Text → Text) → Signer → Outgoing → Outgoing
  director md5_base64 sign_http o =
      let out = redirect o in
      elim (signing_credentials settings out.request) [
        | none ↦ out
        | some creds ↦ sign_http creds unsigned_payload (prepare settings md5_base64 out)
      ]

-- `modifyResponse`, on the header of the response; the rest of it only logs.
unfoldable pub modify_response : Dict Text → Dict Text
modify_response h =
    let gen = get_header h (codes "x-goog-generation") in
    if is_nil gen then h else insert (codes "x-amz-version-id") gen h
