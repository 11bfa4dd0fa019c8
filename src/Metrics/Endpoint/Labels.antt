-- ===== src/Metrics/Endpoint/Labels.antt =====
-- The labels of the requests: how many there are, and which query gives which.
use Prim.Native.String.{String}
use s3proxy4gcs.Base.{
  ◌≡◌, ◌≢◌, refl, ◌∙◌, Bool, true, false, Option, none, some, List, [], ◌∷◌, Text, any, All, Lacks,
  cut-append, sym, ◌++◌, ◌&&◌, codes, text_eq, text_eq_iff, cut, split, arith, go_on, first_verdict,
  scan-first_verdict, is_nil, trim, ◌==◌, if◌then◌else◌,
}
use mathlib.Core.Option.{some-ne-none}
use s3proxy4gcs.Http.{Method, get, head, put, post, delete, other_method}
use s3proxy4gcs.Metrics.Endpoint.{
  control_plane_query_keys, segment_name, read_name, has_query_key, first_key, is_reserved,
  split_uri, classify_query, classify_method, classify_endpoint, or_label,
}

-- Whether a segment between the ampersands has the name `key`.
abbrev pub names : Text → Text → Bool
names key seg = text_eq (segment_name seg) key

read_name-nil : (key : Text) → key ≢ [] → read_name key [] ≡ go_on
unfolding read_name cut
read_name-nil key ne = ground (arith, text_eq_iff [] key)

first_verdict-any :
    (key : Text) (segs : List Text)
    → first_verdict false (read_name key) segs ≡ any (names key) segs
unfolding first_verdict read_name
first_verdict-any key [] = refl
first_verdict-any key (seg ∷ segs) = ground (arith, first_verdict-any key segs)

pub has_query_key_lem :
    (query key : Text) → key ≢ [] → has_query_key query key ≡ any (names key) (split query b'&')
unfolding has_query_key
has_query_key_lem query key ne =
    scan-first_verdict false (read_name key) (read_name-nil key ne) _ query (omega arith)
    ∙ first_verdict-any key (split query b'&')

-- The values that the label `endpoint` may take.
pub data IsLabel : String → Type 0 where
  lifecycle : IsLabel "lifecycle"
  cors : IsLabel "cors"
  logging : IsLabel "logging"
  website : IsLabel "website"
  tagging : IsLabel "tagging"
  delete_objects : IsLabel "delete_objects"
  restore_object : IsLabel "restore_object"
  put_object : IsLabel "put_object"
  get_object : IsLabel "get_object"
  list_objects : IsLabel "list_objects"
  list : IsLabel "list"
  delete_object : IsLabel "delete_object"
  head_object : IsLabel "head_object"
  other : IsLabel "other"

-- No label, or one of them.
data MayLabel : Option String → Type 0 where
  nothing : MayLabel none
  label : {l : String} → IsLabel l → MayLabel (some l)

module _ {A : Type 0} (P : A → Type 0) where
  if-elim : (b : Bool) (x y : A) → P x → P y → P (if b then x else y)
  if-elim true x y hx hy = hx
  if-elim false x y hx hy = hy

or_label-IsLabel :
    (o : Option String) (d : String) → MayLabel o → IsLabel d → IsLabel (or_label o d)
or_label-IsLabel none d h hd = hd
or_label-IsLabel (some l) d (label h) hd = h

first_key-MayLabel :
    (query : Text) (keys : List String) → All IsLabel keys → MayLabel (first_key query keys)
unfolding first_key
first_key-MayLabel query [] h = nothing
first_key-MayLabel query (key ∷ keys) (h, hs) =
    if-elim MayLabel (has_query_key query (codes key)) _ _ (label h)
      (first_key-MayLabel query keys hs)

keys-IsLabel : All IsLabel control_plane_query_keys
keys-IsLabel = (lifecycle, (cors, (logging, (website, (tagging, tt)))))

or_else-MayLabel :
    (o : Option String) (d : Option String)
    → MayLabel o
    → MayLabel d
    → MayLabel (elim o [ some key ↦ some key | none ↦ d ])
or_else-MayLabel none d h hd = hd
or_else-MayLabel (some l) d h hd = h

classify_query-MayLabel : (m : Method) (query : Text) → MayLabel (classify_query m query)
unfolding classify_query
classify_query-MayLabel m query = if-elim MayLabel (is_nil query) _ _ nothing (
    or_else-MayLabel (first_key query control_plane_query_keys) _
      (first_key-MayLabel query control_plane_query_keys keys-IsLabel)
      (if-elim MayLabel _ _ _ (label delete_objects)
        (if-elim MayLabel _ _ _ (label restore_object) nothing)))

classify_method-IsLabel : (m : Method) (b k : Bool) → IsLabel (classify_method m b k)
unfolding classify_method
classify_method-IsLabel put b k = if-elim IsLabel (b && k) _ _ put_object other
classify_method-IsLabel get b k =
    if-elim IsLabel k _ _ get_object (if-elim IsLabel b _ _ list_objects list)
classify_method-IsLabel delete b k = delete_object
classify_method-IsLabel head b k = head_object
classify_method-IsLabel post b k = other
classify_method-IsLabel (other_method m) b k = other

-- Every request gets one of fourteen labels, whatever its method, its path and its query are.
pub classify_endpoint-IsLabel :
    (method : Method) (raw_path : Text) → IsLabel (classify_endpoint method raw_path)
unfolding classify_endpoint
classify_endpoint-IsLabel method raw_path =
    let (path, query) = split_uri raw_path in
    if-elim IsLabel (is_reserved (trim (λ c. c == b'/') path)) _ _ other (
      or_label-IsLabel (classify_query method query) _ (classify_query-MayLabel method query)
        (classify_method-IsLabel method _ _))

-- The first of the keys that is the name of a segment.
abbrev pub first_named : List String → List Text → Option String
first_named [] segs = none
first_named (key ∷ keys) segs =
    if any (names (codes key)) segs then some key else first_named keys segs

-- A key in which something stands.
abbrev AreNamed : List String → Type 0
AreNamed = All (λ key. codes key ≢ [])

first_key-first_named :
    (query : Text) (keys : List String)
    → AreNamed keys
    → first_key query keys ≡ first_named keys (split query b'&')
unfolding first_key
first_key-first_named query [] h = refl
first_key-first_named query (key ∷ keys) (h, hs) =
    ground (arith, has_query_key_lem query (codes key) h, first_key-first_named query keys hs)

keys-AreNamed : AreNamed control_plane_query_keys
keys-AreNamed = (ground arith, (ground arith, (ground arith, (ground arith, (ground arith, tt)))))

first_named-nil : first_named control_plane_query_keys (split [] b'&') ≡ none
unfolding split text_eq cut segment_name
first_named-nil = refl

split_uri-append :
    (path query : Text) → Lacks b'?' path → split_uri (path ++ b'?' ∷ query) ≡ (path, query)
unfolding split_uri
split_uri-append path query lacks = rw (cut-append b'?' path query lacks, split_uri)

classify_query-first_named :
    (method : Method) (query : Text) (key : String)
    → first_named control_plane_query_keys (split query b'&') ≡ some key
    → classify_query method query ≡ some key
unfolding classify_query
classify_query-first_named method [] key named =
    absurd (some-ne-none key (sym named ∙ first_named-nil))
classify_query-first_named method (c ∷ query) key named =
    rw (first_key-first_named (c ∷ query) control_plane_query_keys keys-AreNamed, named)

-- A request whose path is not reserved, and whose query names a subresource of the control plane,
-- gets the first such subresource for its label, whatever its method is.
pub classify_endpoint-first_named :
    (method : Method) (path query : Text) (key : String)
    → Lacks b'?' path
    → is_reserved (trim (λ c. c == b'/') path) ≡ false
    → first_named control_plane_query_keys (split query b'&') ≡ some key
    → classify_endpoint method (path ++ b'?' ∷ query) ≡ key
unfolding classify_endpoint
classify_endpoint-first_named method path query key lacks open_path named = rw (
  split_uri-append path query lacks,
  open_path,
  classify_query-first_named method query key named,
)
