-- ===== src/Proxy/Server.antt =====
-- main.go: the routes, and the way of a request from `http.ServeMux` through the chi router to its
-- handler. How chi picks a route is a parameter.
pub mod Routed
pub mod Probe
pub mod Live
use s3proxy4gcs.Base.{
  ℕ, Bool, true, false, ◌&&◌, ◌||◌, ◌==◌, Option, none, some, List, [], ◌∷◌, Text, codes, text_eq,
  is_positive, if◌then◌else◌,
}
use s3proxy4gcs.Http.{Method, get, head, put, post, delete, Request}
use s3proxy4gcs.Proxy.Monad.{M, set_header, write_header, ◌>>=◌, ◌>>◌}
use s3proxy4gcs.Proxy.Client.{Env}
use s3proxy4gcs.Proxy.Dispatch.{handle_s3_request}
use s3proxy4gcs.Proxy.Ops.{health, readyz, feature_disabled_404}

-- A registration with chi: `r.Get(pattern, handler)` and its likes.
pub record Route (W : Type 0) : Type 0 where
  pub method : Method
  pub pattern : Text
  pub handler : Request → M W (Unit {0})

abbrev pub catch_all : Text
catch_all = codes "/*"

module _ {W : Type 0} (env : Env W) where
  unfoldable pub routes : List (Route W)
  routes =
      record { method = get; pattern = codes "/health"; handler = λ r. health env }
      ∷ record { method = get; pattern = codes "/readyz"; handler = λ r. readyz env }
      ∷ record { method = get; pattern = catch_all; handler = handle_s3_request env }
      ∷ record { method = put; pattern = catch_all; handler = handle_s3_request env }
      ∷ record { method = post; pattern = catch_all; handler = handle_s3_request env }
      ∷ record { method = delete; pattern = catch_all; handler = handle_s3_request env }
      ∷ record { method = head; pattern = catch_all; handler = handle_s3_request env }
      ∷ []

-- The route that chi picks among those registered, and the status that it answers itself with where
-- there is none: 404, or 405 where the pattern of a route matches and its method does not. Its
-- throttle answers a request with the status `busy`, unless there is a place for it.
pub record Router (W : Type 0) : Type 0 where
  pub choose : List (Route W) → Request → Option (Route W)
  pub refusal : List (Route W) → Request → ℕ
  pub busy : Request → Option ℕ

module _ {W : Type 0} (chi : Router W) where
  unfoldable pub serve_route : List (Route W) → Request → M W (Unit {0})
  serve_route rs r = elim (chi.choose rs r) [
    | some route ↦ route.handler r
    | none ↦ write_header (chi.refusal rs r)
  ]

  -- `middleware.Throttle`, which is there for a positive limit only.
  unfoldable pub throttle : Env W → Request → Option ℕ
  throttle env r = if is_positive env.settings.max_concurrent_requests then chi.busy r else none

  -- `r.ServeHTTP`, behind the middlewares that only record.
  unfoldable pub serve_chi : Env W → Request → M W (Unit {0})
  unfolding serve_route throttle
  serve_chi env r = elim (throttle env r) [
    | some code ↦ write_header code
    | none ↦ serve_route (routes env) r
  ]

  -- `rootMux`, for a path that is clean: the pattern "/metrics" is its own path alone, and "/" all
  -- the others. What Prometheus' handler writes is a parameter.
  unfoldable pub serve : Env W → M W (Unit {0}) → Request → M W (Unit {0})
  unfolding serve_chi
  serve env scrape r =
      if text_eq r.path (codes "/metrics")
      then if env.settings.features.metrics_endpoint
        then scrape
        else feature_disabled_404 "metrics_endpoint"
      else serve_chi env r
