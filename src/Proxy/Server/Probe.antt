-- ===== src/Proxy/Server/Probe.antt =====
-- The operational endpoints behind the router.
use s3proxy4gcs.Base.{
  ◌≡◌, refl, sym, ap, ◌∙◌, Bool, true, false, not, any, ◌==◌, ◌||◌, none, some, List, [], Text,
  codes, text_eq, text_eq_iff, All,
}
use mathlib.Core.List.{Memᴰ}
use mathlib.Core.Bool.{true≢false}
use s3proxy4gcs.Http.{get, Request}
use s3proxy4gcs.Proxy.Monad.{M, write_header}
use s3proxy4gcs.Proxy.Client.{Env}
use s3proxy4gcs.Proxy.Dispatch.{handle_s3_request}
use s3proxy4gcs.Proxy.Ops.{health, readyz}
use s3proxy4gcs.Proxy.Server.{
  Route, routes, catch_all, Router, serve_route, throttle, serve_chi, serve,
}
use s3proxy4gcs.Proxy.Server.Routed.{IsRouter, All-Memᴰ}

-- A pattern that stands for one path alone: without a wildcard and without a named part.
abbrev pub is_literal : Text → Bool
is_literal pattern = not (any (λ c. c == b'*' || c == b'{') pattern)

-- A router that prefers the path itself: where the path has no encoding of its own (chi looks at
-- `URL.RawPath` first, which is empty then) and a literal pattern of a route of the method is that
-- path, it picks a route of that pattern.
pub record PrefersExact {W : Type 0} (chi : Router W) : Type 0 where
  pub exact :
      (rs : List (Route W)) (r : Request) (route : Route W)
      → Memᴰ route rs
      → route.method ≡ r.method
      → r.raw_path ≡ []
      → is_literal route.pattern ≡ true
      → route.pattern ≡ r.path
      → (other : Route W) × (chi.choose rs r ≡ some other) × (other.pattern ≡ r.path)

module _ {W : Type 0} (chi : Router W) (law : IsRouter chi) (prefers : PrefersExact chi)
    (env : Env W) (scrape : M W (Unit {0})) (r : Request) where
  serve_route-chosen :
      (rs : List (Route W)) (k : Route W)
      → chi.choose rs r ≡ some k
      → serve_route chi rs r ≡ k.handler r
  unfolding serve_route
  serve_route-chosen rs k e =
      ap
        (λ o. elim o as (λ _. M W (Unit {0})) [
          | some route ↦ route.handler r
          | none ↦ write_header (chi.refusal rs r)
        ])
        e

  serve_chi-admitted :
      throttle chi env r ≡ none → serve_chi chi env r ≡ serve_route chi (routes env) r
  unfolding serve_chi
  serve_chi-admitted e =
      ap
        (λ o. elim o as (λ _. M W (Unit {0})) [
          | some code ↦ write_header code
          | none ↦ serve_route chi (routes env) r
        ])
        e

  -- A path other than that of the metrics, for which a route of the method is registered with a
  -- literal pattern.
  serve-exact :
      (m : M W (Unit {0})) (route : Route W)
      → throttle chi env r ≡ none
      → text_eq r.path (codes "/metrics") ≡ false
      → Memᴰ route (routes env)
      → route.method ≡ r.method
      → r.raw_path ≡ []
      → is_literal route.pattern ≡ true
      → route.pattern ≡ r.path
      → All (λ (k : Route W). k.pattern ≡ r.path → k.handler r ≡ m) (routes env)
      → serve chi env scrape r ≡ m
  unfolding serve
  serve-exact m route free other mem same_method plain literal same_path alike =
      let (k, chosen, exact) =
        prefers.exact (routes env) r route mem same_method plain literal same_path in
      rw other (
        serve_chi-admitted free
        ∙ (serve_route-chosen (routes env) k chosen
            ∙ All-Memᴰ (λ (h : Route W). h.pattern ≡ r.path → h.handler r ≡ m) (routes env) k alike
                (law.registered (routes env) r k chosen).0 exact))

  unlike : {A : Type 0} (a b : Text) → text_eq a b ≡ false → a ≡ b → A
  unlike a b f e = absurd (true≢false (sym ((text_eq_iff a b).1 e) ∙ f))

  -- If the router picks only routes that are registered for the method, and prefers a route whose
  -- literal pattern is the path itself where the path has no encoding of its own (`RawPath` is
  -- empty), a GET of /health or /readyz without such an encoding that the throttle lets through is
  -- answered by the endpoint of that name, switched off or not, and never taken for a request to S3.
  pub serve-probe :
      throttle chi env r ≡ none
      → r.method ≡ get
      → r.raw_path ≡ []
      → (r.path ≡ codes "/health" → serve chi env scrape r ≡ health env)
        × (r.path ≡ codes "/readyz" → serve chi env scrape r ≡ readyz env)
  unfolding routes text_eq
  serve-probe free is_get plain = (
    λ p.
        let other : catch_all ≡ r.path → handle_s3_request env r ≡ health env =
          λ e. unlike catch_all (codes "/health") refl (e ∙ p) in
        serve-exact (health env) _ free (rw p refl) (Memᴰ.head refl) (sym is_get) plain refl (sym p)
          (
            λ e. refl,
            (
              λ e. unlike (codes "/readyz") (codes "/health") refl (e ∙ p),
              (other, (other, (other, (other, (other, tt))))),
            ),
          ),
    λ p.
        let other : catch_all ≡ r.path → handle_s3_request env r ≡ readyz env =
          λ e. unlike catch_all (codes "/readyz") refl (e ∙ p) in
        serve-exact (readyz env) _ free (rw p refl) (Memᴰ.tail (Memᴰ.head refl)) (sym is_get) plain
          refl (sym p)
          (
            λ e. unlike (codes "/health") (codes "/readyz") refl (e ∙ p),
            (λ e. refl, (other, (other, (other, (other, (other, tt)))))),
          ),
  )
