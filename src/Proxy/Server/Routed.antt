-- ===== src/Proxy/Server/Routed.antt =====
-- Where the server leads a request: what every handler of its routes does, and the way to the
-- reverse proxies.
use Prim.Native.String.{String}
use s3proxy4gcs.Base.{
  ℕ, not, ◌≡◌, refl, sym, ap, ◌∙◌, inl, inr, Option, none, some, is_some, List, [], ◌∷◌, codes,
  text_eq, All, Bool-cases,
}
use mathlib.Core.List.{Memᴰ}
use mathlib.Core.List.Memᴰ
use mathlib.Core.Path.{subst}
use mathlib.Core.Option.{some-ne-none}
use s3proxy4gcs.Http.{Request}
use s3proxy4gcs.Proxy.Monad.{State, Flow, stop, M, Plane, next, write_header}
use s3proxy4gcs.Proxy.Client.{Env}
use s3proxy4gcs.Proxy.Dispatch.{handle_s3_request}
use s3proxy4gcs.Proxy.Ops.{health, readyz, readyz_handler, answer, feature_disabled_404}
use s3proxy4gcs.Proxy.Rules.Answers.{
  IsIn, open_phase, answered, Leads, Outcome, leads_rules, write_header-Leads,
}
use s3proxy4gcs.Proxy.Answers.Settled.{IsSettled}
use s3proxy4gcs.Proxy.Server.{Route, routes, Router, serve_route, throttle, serve_chi, serve}

-- What the code relies on of chi: it picks a route that is registered, and of the method of the
-- request.
pub record IsRouter {W : Type 0} (chi : Router W) : Type 0 where
  pub registered :
      (rs : List (Route W)) (r : Request) (route : Route W)
      → chi.choose rs r ≡ some route
      → Memᴰ route rs × (route.method ≡ r.method)

pub All-Memᴰ : {A : Type 0} (P : A → Type 0) (xs : List A) (x : A) → All P xs → Memᴰ x xs → P x
All-Memᴰ P [] x ps m = absurd (Memᴰ.not-nil m)
All-Memᴰ P (y ∷ ys) x (p, ps) (Memᴰ.head e) = subst P (sym e) p
All-Memᴰ P (y ∷ ys) x (p, ps) (Memᴰ.tail m) = All-Memᴰ P ys x ps m

module _ {W : Type 0} where
  feature_disabled_404-Leads :
      (feature : String) → Leads {W = W} open_phase answered (feature_disabled_404 feature)
  unfolding feature_disabled_404
  feature_disabled_404-Leads feature = search leads_rules depth 12

  answer-Leads : (code : ℕ) (text : String) → Leads {W = W} open_phase answered (answer code text)
  unfolding answer
  answer-Leads code text = search leads_rules depth 12

  health-Leads : (env : Env W) → Leads open_phase answered (health env)
  unfolding health
  health-Leads env = search (leads_rules, feature_disabled_404-Leads, answer-Leads) depth 12

  readyz_handler-Leads : (env : Env W) → Leads open_phase answered (readyz_handler env)
  unfolding readyz_handler
  readyz_handler-Leads env = search (leads_rules, answer-Leads) depth 20

  readyz-Leads : (env : Env W) → Leads open_phase answered (readyz env)
  unfolding readyz
  readyz-Leads env = search (leads_rules, feature_disabled_404-Leads, readyz_handler-Leads) depth 12

  Outcome-IsIn : (flow : Flow (Unit {0})) (s : State W) → Outcome answered flow s → IsIn answered s
  Outcome-IsIn (next a) s h = h
  Outcome-IsIn stop s h = h

  answers :
      (m : M W (Unit {0})) (s : State W)
      → Leads open_phase answered m
      → IsIn open_phase s
      → IsIn answered (m s).1
  answers m s leads h = let (flow, s') = m s in Outcome-IsIn flow s' (leads.at s h)

  answered-IsSettled : (s : State W) → IsIn answered s → IsSettled s
  answered-IsSettled s h = h.status_out ∙ sym (ap (λ o. not (is_some o)) h.not_forwarded)

module _ {W : Type 0} (chi : Router W) (law : IsRouter chi) (env : Env W) (scrape : M W (Unit {0}))
    (r : Request) where
  -- The handlers of the server, and the answers that it and chi give themselves.
  pub record Holds (P : M W (Unit {0}) → Type 0) : Type 0 where
    pub of_scrape : P scrape
    pub of_disabled : (feature : String) → P (feature_disabled_404 feature)
    pub of_health : P (health env)
    pub of_readyz : P (readyz env)
    pub of_s3 : P (handle_s3_request env r)
    pub of_refusal : (code : ℕ) → P (write_header code)

  routes-Holds :
      (P : M W (Unit {0}) → Type 0)
      → Holds P
      → All (λ (route : Route W). P (route.handler r)) (routes env)
  unfolding routes
  routes-Holds P h =
      (h.of_health, (h.of_readyz, (h.of_s3, (h.of_s3, (h.of_s3, (h.of_s3, (h.of_s3, tt)))))))

  chosen-Holds :
      (P : M W (Unit {0}) → Type 0) (o : Option (Route W))
      → Holds P
      → ((route : Route W) → o ≡ some route → Memᴰ route (routes env))
      → P (elim o as (λ _. M W (Unit {0})) [
        | some route ↦ route.handler r
        | none ↦ write_header (chi.refusal (routes env) r)
      ])
  chosen-Holds P none h registered = h.of_refusal (chi.refusal (routes env) r)
  chosen-Holds P (some route) h registered =
      All-Memᴰ (λ (k : Route W). P (k.handler r)) (routes env) route (routes-Holds P h)
        (registered route refl)

  throttled-Holds :
      (P : M W (Unit {0}) → Type 0) (o : Option ℕ)
      → Holds P
      → P (serve_route chi (routes env) r)
      → P (elim o as (λ _. M W (Unit {0})) [
        | some code ↦ write_header code
        | none ↦ serve_route chi (routes env) r
      ])
  throttled-Holds P none h routed = routed
  throttled-Holds P (some code) h routed = h.of_refusal code

  serve_route-Holds : (P : M W (Unit {0}) → Type 0) → Holds P → P (serve_route chi (routes env) r)
  unfolding serve_route
  serve_route-Holds P h =
      chosen-Holds P (chi.choose (routes env) r) h
        (λ route e. (law.registered (routes env) r route e).0)

  -- What holds of every handler holds of the server.
  pub serve-Holds : (P : M W (Unit {0}) → Type 0) → Holds P → P (serve chi env scrape r)
  unfolding serve serve_chi
  serve-Holds P h = elim (Bool-cases (text_eq r.path (codes "/metrics"))) [
    | inr other ↦ rw other (throttled-Holds P (throttle chi env r) h (serve_route-Holds P h))
    | inl metrics ↦ elim (Bool-cases env.settings.features.metrics_endpoint) [
      | inl on ↦ rw (metrics, on) h.of_scrape
      | inr off ↦ rw (metrics, off) (h.of_disabled "metrics_endpoint")
    ]
  ]

  module _ (s : State W) (open_s : IsIn open_phase s)
      (scraped : Leads open_phase answered scrape) where
    pub serve-IsSettled :
        IsSettled (handle_s3_request env r s).1 → IsSettled (serve chi env scrape r s).1
    serve-IsSettled settled =
        let done : (m : M W (Unit {0})) → Leads open_phase answered m → IsSettled (m s).1 =
          λ m leads. answered-IsSettled (m s).1 (answers m s leads open_s) in
        serve-Holds (λ m. IsSettled (m s).1)
          (record {
            of_scrape = done scrape scraped;
            of_disabled =
                λ feature. done (feature_disabled_404 feature) (feature_disabled_404-Leads feature);
            of_health = done (health env) (health-Leads env);
            of_readyz = done (readyz env) (readyz-Leads env);
            of_s3 = settled;
            of_refusal = λ code. done (write_header code) (write_header-Leads code);
          })

    -- There is no way to the reverse proxies but through `handle_s3_request`: what the server
    -- forwards is what that handler forwards, if the page of /metrics forwards nothing.
    pub serve-forwarded :
        (p : Plane) (r' : Request)
        → (serve chi env scrape r s).1.forwarded ≡ some (p, r')
        → (handle_s3_request env r s).1.forwarded ≡ some (p, r')
    serve-forwarded p r' =
        let never : (m : M W (Unit {0}))
            → Leads open_phase answered m
            → (m s).1.forwarded ≡ some (p, r')
            → (handle_s3_request env r s).1.forwarded ≡ some (p, r') =
          λ m leads e.
            absurd (some-ne-none (p, r') (sym e ∙ (answers m s leads open_s).not_forwarded)) in
        serve-Holds
          (λ m.
            (m s).1.forwarded ≡ some (p, r')
            → (handle_s3_request env r s).1.forwarded ≡ some (p, r'))
          (record {
            of_scrape = never scrape scraped;
            of_disabled = λ feature.
                never (feature_disabled_404 feature) (feature_disabled_404-Leads feature);
            of_health = never (health env) (health-Leads env);
            of_readyz = never (readyz env) (readyz-Leads env);
            of_s3 = λ e. e;
            of_refusal = λ code. never (write_header code) (write_header-Leads code);
          })
