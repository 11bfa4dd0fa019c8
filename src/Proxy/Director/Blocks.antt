-- ===== src/Proxy/Director/Blocks.antt =====
-- What each block of the director does to the headers, the query and the path of a request.
use s3proxy4gcs.Base.{
  ◌≡◌, refl, Bool, true, false, none, some, List, [], ◌∷◌, Text, Dict, codes, text_eq, text_eq_iff,
  is_nil, any, cut_suffix, lookup, insert, delete, lookup-insert, lookup-delete, arith, Bool-cases,
  Option-cases, inl, inr, if◌then◌else◌,
}
use s3proxy4gcs.Http.{Request, get_query}
use s3proxy4gcs.Proxy.Director.{
  without_port, rewrite_host, to_path_style, strip_x_id, strip_identity, unsigned_payload, stripped,
  delete_all, strip_chunked, strip_headers,
}

-- The headers that a switch of the settings makes the director remove.
abbrev pub loose : List Text
loose = codes "content-encoding" ∷ codes "x-amz-trailer" ∷ codes "x-amz-decoded-content-length" ∷ []

abbrev pub is_among : Text → List Text → Bool
is_among k ks = any (λ j. text_eq j k) ks

pub lookup-delete_all :
    (k : Text) (ks : List Text) (h : Dict Text)
    → lookup k (delete_all ks h) ≡ (if is_among k ks then none else lookup k h)
unfolding delete_all
lookup-delete_all k [] h = refl
lookup-delete_all k (j ∷ ks) h =
    ground (arith, lookup-delete_all k ks (delete j h), lookup-delete j k h)

lookup-strip_chunked :
    (k : Text) (h : Dict Text)
    → text_eq (codes "content-encoding") k ≡ false
    → lookup k (strip_chunked h) ≡ lookup k h
unfolding strip_chunked
lookup-strip_chunked k h other = ground (arith, lookup-delete (codes "content-encoding") k h, other)

pub lookup-strip_headers :
    (k : Text) (disable : Bool) (h : Dict Text)
    → is_among k loose ≡ false
    → lookup k (strip_headers disable h) ≡ (
        if is_among k stripped
        then none
        else if text_eq (codes "x-amz-content-sha256") k
        then some unsigned_payload
        else lookup k h)
unfolding strip_headers
lookup-strip_headers k disable h other =
    let signed = insert (codes "x-amz-content-sha256") unsigned_payload h in
    let left = delete_all stripped signed in
    ground (
      arith,
      lookup-strip_chunked k
          (delete (codes "x-amz-trailer") (delete (codes "x-amz-decoded-content-length") left)),
      lookup-delete (codes "x-amz-trailer") k (delete (codes "x-amz-decoded-content-length") left),
      lookup-delete (codes "x-amz-decoded-content-length") k left,
      lookup-delete_all k stripped signed,
      lookup-insert (codes "x-amz-content-sha256") k unsigned_payload h,
      other,
    )

pub lookup-strip_identity :
    (k : Text) (disable : Bool) (h : Dict Text)
    → text_eq (codes "accept-encoding") k ≡ false
    → lookup k (strip_identity disable h) ≡ lookup k h
unfolding strip_identity
lookup-strip_identity k disable h other =
    ground (arith, lookup-delete (codes "accept-encoding") k h, other)

is_nil-nil : (t : Text) → is_nil t ≡ true → t ≡ []
is_nil-nil [] e = refl
is_nil-nil (c ∷ t) e = absurd (ground arith)

-- The conversion touches the path alone.
pub record OnlyPath (r r' : Request) : Type 0 where
  pub same_method : r'.method ≡ r.method
  pub same_header : r'.header ≡ r.header
  pub same_query : r'.query ≡ r.query
  pub same_raw_query : r'.raw_query ≡ r.raw_query
  pub same_creds : r'.resolved_creds ≡ r.resolved_creds

OnlyPath-refl : (r : Request) → OnlyPath r r
OnlyPath-refl r = record {
  same_method = refl;
  same_header = refl;
  same_query = refl;
  same_raw_query = refl;
  same_creds = refl;
}

to_path_style-OnlyPath : (bucket : Text) (r : Request) → OnlyPath r (to_path_style bucket r)
unfolding to_path_style
to_path_style-OnlyPath bucket r = record {
  same_method = refl;
  same_header = refl;
  same_query = refl;
  same_raw_query = refl;
  same_creds = refl;
}

pub rewrite_host-OnlyPath :
    (base_domain : Text) (r : Request) → OnlyPath r (rewrite_host base_domain r)
unfolding rewrite_host
rewrite_host-OnlyPath [] r = OnlyPath-refl r
rewrite_host-OnlyPath (c ∷ d) r =
    elim (Option-cases (cut_suffix (b'.' ∷ c ∷ d) (without_port r.host))) [
      | inl e ↦ rw e (OnlyPath-refl r)
      | inr ([], e) ↦ rw e (OnlyPath-refl r)
      | inr (b ∷ bucket, e) ↦ rw e (to_path_style-OnlyPath (b ∷ bucket) r)
    ]

pub lookup-strip_x_id :
    (encode : Dict Text → Text) (k : Text) (r : Request)
    → text_eq (codes "x-id") k ≡ false
    → lookup k (strip_x_id encode r).query ≡ lookup k r.query
unfolding strip_x_id
lookup-strip_x_id encode k r other = ground (arith, lookup-delete (codes "x-id") k r.query, other)

get_query-delete : (k : Text) (q : Dict Text) → get_query (delete k q) k ≡ []
unfolding get_query
get_query-delete k q = ground (arith, lookup-delete k k q, text_eq_iff k k)

pub strip_x_id-nil :
    (encode : Dict Text → Text) (r : Request)
    → get_query (strip_x_id encode r).query (codes "x-id") ≡ []
unfolding strip_x_id
strip_x_id-nil encode r = elim (Bool-cases (is_nil (get_query r.query (codes "x-id")))) [
  | inl e ↦ rw e (is_nil-nil _ e)
  | inr e ↦ rw e (get_query-delete (codes "x-id") r.query)
]

pub strip_x_id-raw_query :
    (encode : Dict Text → Text) (r : Request)
    → (strip_x_id encode r).raw_query ≡ (
        if is_nil (get_query r.query (codes "x-id"))
        then r.raw_query
        else encode (strip_x_id encode r).query)
unfolding strip_x_id
strip_x_id-raw_query encode r = ground arith
