-- ===== src/Metrics/Endpoint.antt =====
-- `classifyEndpoint` and `hasQueryKey` of pkg/metrics/metrics.go: the label of a request.
pub mod Labels
use Prim.Native.String.{String}
use s3proxy4gcs.Base.{
  Bool, true, false, ◌&&◌, ◌||◌, Option, none, some, List, [], ◌∷◌, Text, codes, text_eq, cut, trim,
  contains, length, suc, is_nil, Verdict, go_on, give, scan, ◌==◌, if◌then◌else◌,
}
use s3proxy4gcs.Http.{Method, get, head, put, post, delete, other_method, is_post}

abbrev pub control_plane_query_keys : List String
control_plane_query_keys = "lifecycle" ∷ "cors" ∷ "logging" ∷ "website" ∷ "tagging" ∷ []

-- The name of a segment of the query, before the `=` if there is one.
unfoldable pub segment_name : Text → Text
segment_name seg = elim (cut b'=' seg) [ none ↦ seg | some (name, value) ↦ name ]

unfoldable pub read_name : Text → Text → Verdict Bool
unfolding segment_name
read_name key seg = if text_eq (segment_name seg) key then give true else go_on

unfoldable pub has_query_key : Text → Text → Bool
unfolding read_name
has_query_key raw_query key = scan false (read_name key) (suc (length raw_query)) raw_query

-- The loop over the keys that `query` is searched for.
unfoldable pub first_key : Text → List String → Option String
unfolding has_query_key
first_key query [] = none
first_key query (key ∷ keys) =
    if has_query_key query (codes key) then some key else first_key query keys

unfoldable pub is_reserved : Text → Bool
is_reserved trimmed =
    text_eq trimmed (codes "health")
    || text_eq trimmed (codes "readyz")
    || text_eq trimmed (codes "metrics")

-- The path and the query of a request URI.
unfoldable pub split_uri : Text → Text × Text
split_uri raw_path = elim (cut b'?' raw_path) [
  | none ↦ (raw_path, [])
  | some (path, query) ↦ (path, query)
]

-- The `if query != ""` block; `none` goes on behind it.
unfoldable pub classify_query : Method → Text → Option String
unfolding first_key
classify_query method query =
    if is_nil query then none else elim (first_key query control_plane_query_keys) [
      | some key ↦ some key
      | none ↦
          if has_query_key query (codes "delete") && is_post method
          then some "delete_objects"
          else if has_query_key query (codes "restore") && is_post method
          then some "restore_object"
          else none
    ]

-- The `switch` over the method.
unfoldable pub classify_method : Method → Bool → Bool → String
classify_method put has_bucket has_key = if has_bucket && has_key then "put_object" else "other"
classify_method get has_bucket has_key =
    if has_key then "get_object" else if has_bucket then "list_objects" else "list"
classify_method delete has_bucket has_key = "delete_object"
classify_method head has_bucket has_key = "head_object"
classify_method post has_bucket has_key = "other"
classify_method (other_method m) has_bucket has_key = "other"

abbrev or_label : Option String → String → String
or_label none d = d
or_label (some l) d = l

unfoldable pub classify_endpoint : Method → Text → String
classify_endpoint method raw_path =
    let (path, query) = split_uri raw_path in
    let trimmed = trim (λ c. c == b'/') path in
    let has_bucket = if is_nil trimmed then false else true in
    let has_key = has_bucket && contains trimmed (codes "/") in
    if is_reserved trimmed
    then "other"
    else or_label (classify_query method query) (classify_method method has_bucket has_key)
