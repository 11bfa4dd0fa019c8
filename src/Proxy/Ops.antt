-- ===== src/Proxy/Ops.antt =====
-- main.go: the operational endpoints, /health and /readyz, and the label of a request in the
-- metrics of `observabilityMiddleware`.
pub mod Ready
use Prim.Native.String.{String}
use s3proxy4gcs.Base.{
  ℕ, Bool, true, false, ◌&&◌, not, none, some, List, [], ◌∷◌, Text, Dict, codes, lookup, is_nil,
  is_some, if◌then◌else◌,
}
use s3proxy4gcs.Base.Result.{Result, ok, err}
use s3proxy4gcs.Http.{is_post, Request}
use s3proxy4gcs.Proxy.Monad.{
  disabled_endpoint, literal, feature_disabled_rejection, M, pure, leave, ◌>>=◌, ◌>>◌, set_header,
  write_header, write, observe, asks, return_if,
}
use s3proxy4gcs.Proxy.Client.{GcsError, BucketAttrs, Env}
use s3proxy4gcs.Proxy.Helpers.{content_type}

abbrev is_ok : Result GcsError BucketAttrs → Bool
is_ok (ok a) = true
is_ok (err e) = false

-- The first of the keys that the query has, or the label otherwise.
abbrev first_label : List String → Dict Text → String → String
first_label [] q otherwise = otherwise
first_label (key ∷ keys) q otherwise =
    if is_some (lookup (codes key) q) then key else first_label keys q otherwise

unfoldable pub handler_label : Request → String
handler_label r =
    first_label ("lifecycle" ∷ "cors" ∷ "logging" ∷ "website" ∷ "tagging" ∷ []) r.query (
      if is_some (lookup (codes "restore") r.query) && is_post r.method then "restore" else "proxy")

module _ {W : Type 0} where
  unfoldable pub feature_disabled_404 : String → M W (Unit {0})
  feature_disabled_404 feature = do
    observe (feature_disabled_rejection feature)
    set_header content_type (codes "text/plain; charset=utf-8")
    write_header 404
    write (disabled_endpoint feature)

  -- A status and a body.
  unfoldable pub answer : ℕ → String → M W (Unit {0})
  answer code text = do write_header code; write (literal text)

  unfoldable pub health : Env W → M W (Unit {0})
  unfolding feature_disabled_404 answer
  health env =
      if env.settings.features.health_endpoint
      then answer 200 "OK"
      else feature_disabled_404 "health_endpoint"

  -- The handler of /readyz; the attributes of the bucket are asked for with a timeout.
  unfoldable pub readyz_handler : Env W → M W (Unit {0})
  unfolding answer
  readyz_handler env = do
    return_if env.settings.dry_run (answer 200 "{\"status\":\"ready\",\"mode\":\"dry_run\"}")
    return_if (not env.has_client)
        (answer 503 "{\"status\":\"not_ready\",\"reason\":\"gcs_client_nil\"}")
    return_if (is_nil env.settings.target_bucket)
        (answer 200 "{\"status\":\"ready\",\"mode\":\"live\",\"probe\":\"client_only\"}")
    attrs ← asks (env.bucket_attrs env.settings.target_bucket)
    return_if (not (is_ok attrs))
        (answer 503 "{\"status\":\"not_ready\",\"reason\":\"gcs_connectivity_failed\"}")
    answer 200 "{\"status\":\"ready\",\"mode\":\"live\",\"probe\":\"target_bucket\"}"

  unfoldable pub readyz : Env W → M W (Unit {0})
  unfolding feature_disabled_404 readyz_handler
  readyz env =
      if env.settings.features.readyz_endpoint
      then readyz_handler env
      else feature_disabled_404 "readyz_endpoint"
