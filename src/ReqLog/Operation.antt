-- ===== src/ReqLog/Operation.antt =====
-- `InferAPIMethod` of pkg/reqlog/reqlog.go: the S3 operation of a request.
use Prim.Native.String.{String}
use s3proxy4gcs.Base.{
  Bool, true, false, not, Option, none, some, Text, Dict, codes, text_eq, lookup, is_some, is_nil,
  cut, if◌then◌else◌,
}
use s3proxy4gcs.Http.{Method, get, head, put, post, delete, other_method, Request, is_get}
use s3proxy4gcs.ReqLog.{without_slash}

-- `hasQuery(key)`: the name as it is, letter case included.
unfoldable pub has_query : Dict Text → Text → Bool
has_query q key = is_some (lookup key q)

-- A `switch` over GET, PUT and DELETE that other methods leave.
abbrev pub by_verb : Method → String → String → String → Option String
by_verb get on_get on_put on_delete = some on_get
by_verb put on_get on_put on_delete = some on_put
by_verb delete on_get on_put on_delete = some on_delete
by_verb head on_get on_put on_delete = none
by_verb post on_get on_put on_delete = none
by_verb (other_method m) on_get on_put on_delete = none

-- The same without DELETE.
abbrev pub by_get_put : Method → String → String → Option String
by_get_put get on_get on_put = some on_get
by_get_put put on_get on_put = some on_put
by_get_put head on_get on_put = none
by_get_put post on_get on_put = none
by_get_put delete on_get on_put = none
by_get_put (other_method m) on_get on_put = none

-- The first block that returns.
abbrev pub or_else : Option String → Option String → Option String
or_else (some op) next = some op
or_else none next = next

abbrev pub when_query : Dict Text → String → Option String → Option String
when_query q key op = if has_query q (codes key) then op else none

-- The blocks over the query.
unfoldable pub subresource_operation : Method → Dict Text → Option String
unfolding has_query
subresource_operation m q =
    or_else
      (when_query q "lifecycle"
        (by_verb m "GetBucketLifecycle" "PutBucketLifecycle" "DeleteBucketLifecycle"))
      (or_else (when_query q "cors" (by_verb m "GetBucketCors" "PutBucketCors" "DeleteBucketCors"))
        (or_else (when_query q "acl" (by_get_put m "GetObjectAcl" "PutObjectAcl")) (
          or_else
            (when_query q "versioning" (by_get_put m "GetBucketVersioning" "PutBucketVersioning"))
            (or_else (when_query q "tagging" (by_verb m "GetTagging" "PutTagging" "DeleteTagging"))
              (when_query q "delete" (some "DeleteObjects"))))))

-- The bucket and the key of the path; `strings.SplitN(trimmed, "/", 2)`.
unfoldable pub path_target : Text → Bool × Bool
path_target path = elim (cut b'/' (without_slash path)) [
  | none ↦ (not (is_nil (without_slash path)), false)
  | some (bucket, key) ↦ (not (is_nil bucket), not (is_nil key))
]

unfoldable pub bucket_operation : Method → String
bucket_operation get = "ListObjects"
bucket_operation head = "HeadBucket"
bucket_operation put = "CreateBucket"
bucket_operation delete = "DeleteBucket"
bucket_operation post = "Unknown"
bucket_operation (other_method m) = "Unknown"

unfoldable pub object_operation : Method → String
object_operation get = "GetObject"
object_operation put = "PutObject"
object_operation delete = "DeleteObject"
object_operation head = "HeadObject"
object_operation post = "Unknown"
object_operation (other_method m) = "Unknown"

unfoldable pub path_operation : Method → Bool × Bool → String
unfolding bucket_operation object_operation
path_operation m (true, false) = bucket_operation m
path_operation m (true, true) = object_operation m
path_operation m (false, has_key) = "Unknown"

unfoldable pub infer_api_method : Request → String
infer_api_method r =
    if text_eq r.path (codes "/")
    then if is_get r.method then "ListBuckets" else "Unknown"
    else elim (subresource_operation r.method r.query) [
      | some op ↦ op
      | none ↦ path_operation r.method (path_target r.path)
    ]
