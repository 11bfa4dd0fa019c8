-- ===== src/Proxy/Director/Hash.antt =====
-- What the hash of a body leaves as it is.
use s3proxy4gcs.Base.{
  ◌≡◌, refl, true, false, Text, text_eq, lookup, delete, lookup-insert, lookup-delete, arith,
  Bool-cases, inl, inr,
}
use s3proxy4gcs.Http.{RequestBody}
use s3proxy4gcs.Proxy.Director.{
  OutgoingBody, no_body, closed, streamed, buffered, Outgoing, on_header, content_md5,
  is_delete_objects, hashed, hash_body, set_md5,
}

-- What the hash leaves as it is.
pub record IsHashOf (o out : Outgoing) : Type 0 where
  pub host_kept : out.request.host ≡ o.request.host
  pub url_host_kept : out.url_host ≡ o.url_host
  pub url_scheme_kept : out.url_scheme ≡ o.url_scheme
  pub method_kept : out.request.method ≡ o.request.method
  pub creds_kept : out.request.resolved_creds ≡ o.request.resolved_creds
  pub query_kept : out.request.query ≡ o.request.query
  pub raw_query_kept : out.request.raw_query ≡ o.request.raw_query
  pub path_kept : out.request.path ≡ o.request.path
  pub raw_path_kept : out.request.raw_path ≡ o.request.raw_path
  pub header_kept :
      (k : Text)
      → text_eq content_md5 k ≡ false
      → lookup k out.request.header ≡ lookup k o.request.header

IsHashOf-hashed :
    (md5_base64 : Text → Text) (text : Text) (o : Outgoing) → IsHashOf o (hashed md5_base64 text o)
IsHashOf-hashed md5_base64 text o = record {
  host_kept = refl;
  url_host_kept = refl;
  url_scheme_kept = refl;
  method_kept = refl;
  creds_kept = refl;
  query_kept = refl;
  raw_query_kept = refl;
  path_kept = refl;
  raw_path_kept = refl;
  header_kept =
      λ k other. ground (arith, lookup-insert content_md5 k (md5_base64 text) o.request.header);
}

IsHashOf-deleted : (o : Outgoing) → IsHashOf o (on_header (delete content_md5) o)
IsHashOf-deleted o = record {
  host_kept = refl;
  url_host_kept = refl;
  url_scheme_kept = refl;
  method_kept = refl;
  creds_kept = refl;
  query_kept = refl;
  raw_query_kept = refl;
  path_kept = refl;
  raw_path_kept = refl;
  header_kept = λ k other. ground (arith, lookup-delete content_md5 k o.request.header);
}

IsHashOf-closed : (body : OutgoingBody) (o : Outgoing) → IsHashOf o (record o { body = body })
IsHashOf-closed body o = record {
  host_kept = refl;
  url_host_kept = refl;
  url_scheme_kept = refl;
  method_kept = refl;
  creds_kept = refl;
  query_kept = refl;
  raw_query_kept = refl;
  path_kept = refl;
  raw_path_kept = refl;
  header_kept = λ k other. refl;
}

hash_body-IsHashOf :
    (md5_base64 : Text → Text) (body : OutgoingBody) (o : Outgoing)
    → IsHashOf o (hash_body md5_base64 body o)
unfolding hash_body
hash_body-IsHashOf md5_base64 no_body o = IsHashOf-deleted o
hash_body-IsHashOf md5_base64 closed o = IsHashOf-closed o.body o
hash_body-IsHashOf md5_base64 (buffered text) o = IsHashOf-hashed md5_base64 text o
hash_body-IsHashOf md5_base64 (streamed b) o = elim (Bool-cases b.broken) [
  | inl e ↦ rw e (IsHashOf-closed closed o)
  | inr e ↦ rw e (IsHashOf-hashed md5_base64 b.sent o)
]

pub set_md5-IsHashOf : (md5_base64 : Text → Text) (o : Outgoing) → IsHashOf o (set_md5 md5_base64 o)
unfolding set_md5
set_md5-IsHashOf md5_base64 o = elim (Bool-cases (is_delete_objects o.request)) [
  | inl e ↦ rw e (hash_body-IsHashOf md5_base64 o.body o)
  | inr e ↦ rw e (IsHashOf-deleted o)
]

-- The body of a POST ?delete that is read to its end is hashed and kept.
pub set_md5-hashed :
    (md5_base64 : Text → Text) (o : Outgoing) (b : RequestBody)
    → is_delete_objects o.request ≡ true
    → o.body ≡ streamed b
    → b.broken ≡ false
    → set_md5 md5_base64 o ≡ hashed md5_base64 b.sent o
unfolding set_md5 hash_body
set_md5-hashed md5_base64 o b deletes streams whole = rw (deletes, streams, whole) refl

pub set_md5-deleted :
    (md5_base64 : Text → Text) (o : Outgoing)
    → is_delete_objects o.request ≡ false
    → set_md5 md5_base64 o ≡ on_header (delete content_md5) o
unfolding set_md5
set_md5-deleted md5_base64 o other = rw other refl
