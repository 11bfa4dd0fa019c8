-- ===== src/Proxy/Director/Redirected.antt =====
-- What the director does to every request, signed or not.
use s3proxy4gcs.Base.{
  ◌≡◌, ◌≢◌, ◌⊎◌, inl, inr, refl, sym, ap, ◌∙◌, false, Option, none, some, [], ◌∷◌, ◌++◌, Text, Dict,
  codes, text_eq, is_nil, cut_suffix, lookup, arith, if◌then◌else◌,
}
use s3proxy4gcs.Config.{Settings}
use s3proxy4gcs.Http.{Request, get_query}
use s3proxy4gcs.Proxy.StorageClass.{translate_s3_storage_class}
use s3proxy4gcs.Proxy.Director.StorageClass.{
  lookup-translate_storage_class, storage_class-translated, storage_class-unknown,
}
use s3proxy4gcs.Proxy.Director.VirtualHost.{port_suffix, IsAuthority, rewrite_host-virtual}
use s3proxy4gcs.Proxy.Director.{
  Outgoing, Url, without_port, rewrite_host, set_target, set_content_length, storage_class,
  translate_storage_class, strip_x_id, signing_credentials, is_delete_objects, redirect,
}
use s3proxy4gcs.Proxy.Director.Blocks.{
  is_among, lookup-strip_identity, rewrite_host-OnlyPath, lookup-strip_x_id, strip_x_id-nil,
  strip_x_id-raw_query,
}

-- What is sent of the path, the query and the storage class of the client's request `o`, `out`: the
-- path behind the bucket of a virtual-hosted request, and the client's own otherwise; the query but
-- for x-id, as the client wrote it if it has none; and the class under the name that it has in the
-- storage service, if it has one.
pub record IsSent (settings : Settings) (encode : Dict Text → Text) (o out : Outgoing)
    : Type 0 where
  pub path_virtual :
      (bucket : Text) (port : Option Text)
      → settings.proxy_base_domain ≢ []
      → bucket ≢ []
      → IsAuthority (bucket ++ b'.' ∷ settings.proxy_base_domain) port
      → o.request.host ≡ (bucket ++ b'.' ∷ settings.proxy_base_domain) ++ port_suffix port
      → (out.request.path ≡ b'/' ∷ (bucket ++ o.request.path))
        × (out.request.raw_path
            ≡ (if is_nil o.request.raw_path then [] else b'/' ∷ (bucket ++ o.request.raw_path)))
  pub path_kept :
      (settings.proxy_base_domain ≡ [])
        ⊎ (cut_suffix (b'.' ∷ settings.proxy_base_domain) (without_port o.request.host) ≡ none)
      → (out.request.path ≡ o.request.path) × (out.request.raw_path ≡ o.request.raw_path)
  pub query_kept :
      (k : Text)
      → text_eq (codes "x-id") k ≡ false
      → lookup k out.request.query ≡ lookup k o.request.query
  pub raw_query_sent : out.request.raw_query ≡ (
      if is_nil (get_query o.request.query (codes "x-id"))
      then o.request.raw_query
      else encode out.request.query)
  pub class_translated :
      (sc gcs_class : Text)
      → lookup storage_class o.request.header ≡ some sc
      → translate_s3_storage_class sc ≡ some gcs_class
      → lookup storage_class out.request.header ≡ some gcs_class
  pub class_kept :
      ((sc : Text)
        → lookup storage_class o.request.header ≡ some sc
        → translate_s3_storage_class sc ≡ none)
      → lookup storage_class out.request.header ≡ lookup storage_class o.request.header

-- A later request with the same path, query and storage class.
pub IsSent-same :
    {settings : Settings} {encode : Dict Text → Text} {o out : Outgoing} (p : Outgoing)
    → IsSent settings encode o out
    → p.request.path ≡ out.request.path
    → p.request.raw_path ≡ out.request.raw_path
    → p.request.query ≡ out.request.query
    → p.request.raw_query ≡ out.request.raw_query
    → lookup storage_class p.request.header ≡ lookup storage_class out.request.header
    → IsSent settings encode o p
IsSent-same {encode = encode} p h path raw_path query raw_query class = record {
  path_virtual = λ bucket port set filled named same.
      let (x, y) = h.path_virtual bucket port set filled named same in (path ∙ x, raw_path ∙ y);
  path_kept = λ other. let (x, y) = h.path_kept other in (path ∙ x, raw_path ∙ y);
  query_kept = λ k other. ap (lookup k) query ∙ h.query_kept k other;
  raw_query_sent = rw query (raw_query ∙ h.raw_query_sent);
  class_translated = λ sc gcs_class e known. class ∙ h.class_translated sc gcs_class e known;
  class_kept = λ unknown. class ∙ h.class_kept unknown;
}

unless_x_id :
    {q q' : Dict Text} {raw raw' : Text} (encoded : Text)
    → q ≡ q'
    → raw ≡ raw'
    → (if is_nil (get_query q (codes "x-id")) then raw else encoded)
      ≡ (if is_nil (get_query q' (codes "x-id")) then raw' else encoded)
unless_x_id encoded same same_raw = rw (same, same_raw) refl

rewrite_host_other :
    (base_domain : Text) (r : Request)
    → (base_domain ≡ []) ⊎ (cut_suffix (b'.' ∷ base_domain) (without_port r.host) ≡ none)
    → rewrite_host base_domain r ≡ r
unfolding rewrite_host
rewrite_host_other base_domain r (inl e) = rw e refl
rewrite_host_other [] r (inr e) = refl
rewrite_host_other (c ∷ d) r (inr e) = rw e refl

-- What is sent of the client's request `o`, up to the headers that are set for the signature.
pub record IsRedirected (settings : Settings) (url : Url) (encode : Dict Text → Text)
    (o out : Outgoing) : Type 0 where
  pub to_host : out.request.host ≡ url.host
  pub to_url_host : out.url_host ≡ url.host
  pub to_url_scheme : out.url_scheme ≡ url.scheme
  pub method_kept : out.request.method ≡ o.request.method
  pub creds_kept : out.request.resolved_creds ≡ o.request.resolved_creds
  pub body_kept : out.body ≡ o.body
  pub no_x_id : get_query out.request.query (codes "x-id") ≡ []
  pub sent : IsSent settings encode o out
  pub header_kept :
      (k : Text)
      → is_among k (storage_class ∷ codes "accept-encoding" ∷ []) ≡ false
      → lookup k out.request.header ≡ lookup k o.request.header

module _ (settings : Settings) (url : Url) (encode : Dict Text → Text) where
  pub redirect-IsRedirected :
      (o : Outgoing) → IsRedirected settings url encode o (redirect settings url encode o)
  unfolding redirect set_content_length set_target
  redirect-IsRedirected o =
      let rewritten = rewrite_host settings.proxy_base_domain o.request in
      let only = rewrite_host-OnlyPath settings.proxy_base_domain o.request in
      let targeted = record rewritten {
        host = url.host;
        header = translate_storage_class rewritten.header;
      } in
      record {
        to_host = unfold strip_x_id in refl;
        to_url_host = refl;
        to_url_scheme = refl;
        method_kept = unfold strip_x_id in only.same_method;
        creds_kept = unfold strip_x_id in only.same_creds;
        body_kept = refl;
        no_x_id = strip_x_id-nil encode targeted;
        sent = record {
          path_virtual = λ bucket port set filled named same.
              unfold strip_x_id in
              let e =
                rewrite_host-virtual settings.proxy_base_domain bucket port o.request set filled
                  named same in
              (ap (λ r. r.path) e, ap (λ r. r.raw_path) e);
          path_kept = λ other.
              unfold strip_x_id in
              let e = rewrite_host_other settings.proxy_base_domain o.request other in
              (ap (λ r. r.path) e, ap (λ r. r.raw_path) e);
          query_kept =
              λ k other. lookup-strip_x_id encode k targeted other ∙ ap (lookup k) only.same_query;
          raw_query_sent =
              strip_x_id-raw_query encode targeted
              ∙ unless_x_id _ only.same_query only.same_raw_query;
          class_translated = λ sc gcs_class e known.
              unfold strip_x_id in
              (lookup-strip_identity storage_class settings.disable_header_strip _
                  (unfold text_eq in refl)
                ∙ storage_class-translated rewritten.header sc gcs_class
                    (ap (lookup storage_class) only.same_header ∙ e) known);
          class_kept = λ unknown.
              unfold strip_x_id in
              (lookup-strip_identity storage_class settings.disable_header_strip _
                  (unfold text_eq in refl)
                ∙ (storage_class-unknown rewritten.header
                      (λ sc e. unknown sc (sym (ap (lookup storage_class) only.same_header) ∙ e))
                    ∙ ap (lookup storage_class) only.same_header));
        };
        header_kept = λ k other.
            unfold strip_x_id in
            (lookup-strip_identity k settings.disable_header_strip _ (ground arith)
              ∙ (lookup-translate_storage_class k rewritten.header (ground arith)
                  ∙ ap (lookup k) only.same_header));
      }

pub is_delete_objects-IsRedirected :
    {settings : Settings} {url : Url} {encode : Dict Text → Text} {o out : Outgoing}
    → IsRedirected settings url encode o out
    → is_delete_objects out.request ≡ is_delete_objects o.request
is_delete_objects-IsRedirected r =
    rw (r.method_kept, r.sent.query_kept (codes "delete") (unfold text_eq in refl)) refl

pub signing_credentials-IsRedirected :
    (settings : Settings) {url : Url} {encode : Dict Text → Text} {o out : Outgoing}
    → IsRedirected settings url encode o out
    → signing_credentials settings out.request ≡ signing_credentials settings o.request
unfolding signing_credentials
signing_credentials-IsRedirected settings r = rw r.creds_kept refl
