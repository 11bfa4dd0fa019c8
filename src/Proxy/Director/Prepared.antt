-- ===== src/Proxy/Director/Prepared.antt =====
-- The request that the director signs.
use s3proxy4gcs.Base.{
  ◌≡◌, refl, sym, ap, ◌∙◌, true, false, Option, none, some, List, [], ◌∷◌, Text, Dict, codes,
  text_eq, text_eq_iff, pos, length, All, lookup, insert, delete, lookup-insert, lookup-delete,
  arith, Option-cases, inl, inr, if◌then◌else◌,
}
use mathlib.Core.Path.{subst}
use s3proxy4gcs.Config.{Settings}
use s3proxy4gcs.Http.{RequestBody, Credentials, get_query}
use s3proxy4gcs.Proxy.Director.{
  streamed, buffered, Outgoing, Url, on_header, storage_class, signing_credentials,
  unsigned_payload, stripped, content_md5, is_delete_objects, strip_headers, Signer, redirect,
  prepare, director,
}
use s3proxy4gcs.Proxy.Director.Hash.{set_md5-IsHashOf, set_md5-hashed, set_md5-deleted}
use s3proxy4gcs.Proxy.Director.Blocks.{is_among, loose, lookup-strip_headers}
use s3proxy4gcs.Proxy.Director.Redirected.{
  IsSent, IsSent-same, IsRedirected, redirect-IsRedirected, is_delete_objects-IsRedirected,
  signing_credentials-IsRedirected,
}

-- The headers that the director may set, translate or remove.
abbrev pub touched : List Text
touched =
    storage_class
    ∷ codes "x-amz-content-sha256"
    ∷ content_md5
    ∷ codes "content-encoding"
    ∷ codes "x-amz-trailer"
    ∷ codes "x-amz-decoded-content-length"
    ∷ stripped

-- What is signed, `p`, of the client's request `o`: it goes to the storage service, with the path,
-- the query and the storage class that `IsSent` describes; it carries the hash that stands for an
-- unsigned payload and none of the headers that change on the way; any header that is not `touched`
-- is the client's; and it has the hash of its body exactly if it deletes objects.
pub record IsPrepared (settings : Settings) (url : Url) (encode : Dict Text → Text)
    (md5_base64 : Text → Text) (o p : Outgoing) : Type 0 where
  pub to_host : p.request.host ≡ url.host
  pub to_url_host : p.url_host ≡ url.host
  pub to_url_scheme : p.url_scheme ≡ url.scheme
  pub method_kept : p.request.method ≡ o.request.method
  pub sent : IsSent settings encode o p
  pub no_x_id : get_query p.request.query (codes "x-id") ≡ []
  pub payload : lookup (codes "x-amz-content-sha256") p.request.header ≡ some unsigned_payload
  pub none_stripped : All (λ k. lookup k p.request.header ≡ none) stripped
  pub header_kept :
      (k : Text)
      → is_among k touched ≡ false
      → lookup k p.request.header ≡ lookup k o.request.header
  pub hash :
      (b : RequestBody)
      → is_delete_objects o.request ≡ true
      → o.body ≡ streamed b
      → b.broken ≡ false
      → (lookup content_md5 p.request.header ≡ some (md5_base64 b.sent))
        × (p.body ≡ buffered b.sent)
        × (p.content_length ≡ pos (length b.sent))
  pub no_hash :
      is_delete_objects o.request ≡ false
      → (lookup content_md5 p.request.header ≡ none) × (p.body ≡ o.body)

untouched-translated :
    (k : Text)
    → is_among k touched ≡ false
    → is_among k (storage_class ∷ codes "accept-encoding" ∷ []) ≡ false
untouched-translated k other = ground arith

lookup-inserted : (k v : Text) (h : Dict Text) → lookup k (insert k v h) ≡ some v
lookup-inserted k v h = ground (arith, lookup-insert k k v h, text_eq_iff k k)

lookup-deleted : (k : Text) (h : Dict Text) → lookup k (delete k h) ≡ none
lookup-deleted k h = ground (arith, lookup-delete k k h, text_eq_iff k k)

module _ (settings : Settings) (md5_base64 : Text → Text) where
  -- A header that is signed, other than the hash of the body.
  lookup-prepare :
      (k : Text) (out : Outgoing)
      → is_among k (content_md5 ∷ loose) ≡ false
      → lookup k (prepare settings md5_base64 out).request.header ≡ (
          if is_among k stripped
          then none
          else if text_eq (codes "x-amz-content-sha256") k
          then some unsigned_payload
          else lookup k out.request.header)
  unfolding prepare
  lookup-prepare k out other =
      let signed = on_header (strip_headers settings.disable_header_strip) out in
      (set_md5-IsHashOf md5_base64 signed).header_kept k (ground arith)
      ∙ lookup-strip_headers k settings.disable_header_strip out.request.header (ground arith)

  lookup-prepare-stripped :
      (k : Text) (out : Outgoing)
      → is_among k (content_md5 ∷ loose) ≡ false
      → is_among k stripped ≡ true
      → lookup k (prepare settings md5_base64 out).request.header ≡ none
  lookup-prepare-stripped k out other among = ground (arith, lookup-prepare k out other)

  lookup-prepare-kept :
      (k : Text) (out : Outgoing)
      → is_among k touched ≡ false
      → lookup k (prepare settings md5_base64 out).request.header ≡ lookup k out.request.header
  lookup-prepare-kept k out other = ground (arith, lookup-prepare k out)

  prepare-hashed :
      (out : Outgoing) (b : RequestBody)
      → is_delete_objects out.request ≡ true
      → out.body ≡ streamed b
      → b.broken ≡ false
      → (lookup content_md5 (prepare settings md5_base64 out).request.header
          ≡ some (md5_base64 b.sent))
        × ((prepare settings md5_base64 out).body ≡ buffered b.sent)
        × ((prepare settings md5_base64 out).content_length ≡ pos (length b.sent))
  unfolding prepare
  prepare-hashed out b deletes streams whole =
      let signed = on_header (strip_headers settings.disable_header_strip) out in
      let same = set_md5-hashed md5_base64 signed b deletes streams whole in
      (
        ap (λ p. lookup content_md5 p.request.header) same
            ∙ lookup-inserted content_md5 (md5_base64 b.sent) signed.request.header,
        ap (λ p. p.body) same,
        ap (λ p. p.content_length) same,
      )

  prepare-deleted :
      (out : Outgoing)
      → is_delete_objects out.request ≡ false
      → (lookup content_md5 (prepare settings md5_base64 out).request.header ≡ none)
        × ((prepare settings md5_base64 out).body ≡ out.body)
  unfolding prepare
  prepare-deleted out other =
      let signed = on_header (strip_headers settings.disable_header_strip) out in
      let same = set_md5-deleted md5_base64 signed other in
      (
        ap (λ p. lookup content_md5 p.request.header) same
            ∙ lookup-deleted content_md5 signed.request.header,
        ap (λ p. p.body) same,
      )

  prepare-IsPrepared :
      (url : Url) (encode : Dict Text → Text) (o out : Outgoing)
      → IsRedirected settings url encode o out
      → IsPrepared settings url encode md5_base64 o (prepare settings md5_base64 out)
  unfolding text_eq
  prepare-IsPrepared url encode o out r =
      let signed = on_header (strip_headers settings.disable_header_strip) out in
      let h = set_md5-IsHashOf md5_base64 signed in
      record {
        to_host = unfold prepare in h.host_kept ∙ r.to_host;
        to_url_host = unfold prepare in h.url_host_kept ∙ r.to_url_host;
        to_url_scheme = unfold prepare in h.url_scheme_kept ∙ r.to_url_scheme;
        method_kept = unfold prepare in h.method_kept ∙ r.method_kept;
        sent =
            IsSent-same (prepare settings md5_base64 out) r.sent (unfold prepare in h.path_kept)
              (unfold prepare in h.raw_path_kept) (unfold prepare in h.query_kept)
              (unfold prepare in h.raw_query_kept) (lookup-prepare storage_class out refl);
        no_x_id = unfold prepare in ap (λ q. get_query q (codes "x-id")) h.query_kept ∙ r.no_x_id;
        payload = lookup-prepare (codes "x-amz-content-sha256") out refl;
        none_stripped = (
          lookup-prepare-stripped (codes "user-agent") out refl refl,
          (
            lookup-prepare-stripped (codes "expect") out refl refl,
            (
              lookup-prepare-stripped (codes "accept-encoding") out refl refl,
              (
                lookup-prepare-stripped (codes "amz-sdk-invocation-id") out refl refl,
                (lookup-prepare-stripped (codes "amz-sdk-request") out refl refl, tt),
              ),
            ),
          ),
        );
        header_kept = λ k other.
            lookup-prepare-kept k out other ∙ r.header_kept k (untouched-translated k other);
        hash = λ b deletes streams whole.
            prepare-hashed out b (is_delete_objects-IsRedirected r ∙ deletes)
              (r.body_kept ∙ streams) whole;
        no_hash = λ other.
            let (gone, same) = prepare-deleted out (is_delete_objects-IsRedirected r ∙ other) in
            (gone, same ∙ r.body_kept);
      }

-- What is sent, `sent`, of the request `o` with the given credentials.
abbrev pub IsSigned :
    Settings
    → Url
    → (Dict Text → Text)
    → (Text → Text)
    → Signer
    → Option Credentials
    → Outgoing
    → Outgoing
    → Type 0
IsSigned settings url encode md5_base64 sign_http none o sent =
    IsRedirected settings url encode o sent
IsSigned settings url encode md5_base64 sign_http (some creds) o sent =
    (p : Outgoing) × IsPrepared settings url encode md5_base64 o p
    × (sent ≡ sign_http creds unsigned_payload p)

module _ (settings : Settings) (url : Url) (encode : Dict Text → Text) (md5_base64 : Text → Text)
    (sign_http : Signer) where
  director-none :
      (o : Outgoing)
      → signing_credentials settings (redirect settings url encode o).request ≡ none
      → director settings url encode md5_base64 sign_http o ≡ redirect settings url encode o
  unfolding director
  director-none o e = ground (arith, e)

  director-some :
      (o : Outgoing) (creds : Credentials)
      → signing_credentials settings (redirect settings url encode o).request ≡ some creds
      → director settings url encode md5_base64 sign_http o
        ≡ sign_http creds unsigned_payload
            (prepare settings md5_base64 (redirect settings url encode o))
  unfolding director
  director-some o creds e = ground (arith, e)

  pub director-IsSigned :
      (o : Outgoing)
      → IsSigned settings url encode md5_base64 sign_http
          (signing_credentials settings o.request)
          o
          (director settings url encode md5_base64 sign_http o)
  director-IsSigned o =
      let out = redirect settings url encode o in
      let r = redirect-IsRedirected settings url encode o in
      let chosen = signing_credentials-IsRedirected settings r in
      elim (Option-cases (signing_credentials settings o.request)) [
        | inl e ↦
            rw e (subst (IsRedirected settings url encode o) (sym (director-none o (chosen ∙ e))) r)
        | inr (creds, e) ↦ rw e (
          prepare settings md5_base64 out,
          prepare-IsPrepared settings md5_base64 url encode o out r,
          director-some o creds (chosen ∙ e),
        )
      ]
