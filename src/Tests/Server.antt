-- ===== src/Tests/Server.antt =====
-- The whole server, with a router that picks the route of the exact path, or the one for the rest.
use s3proxy4gcs.Base.{
  ◌≡◌, ◌⊎◌, refl, sym, ap, ◌∙◌, Bool, true, false, ◌&&◌, Option, none, some, List, [], ◌∷◌, Text,
  codes, text_eq, text_eq_iff, is_some, arith, inl, inr, Bool-cases, if◌then◌else◌, ℕ, suc,
}
use mathlib.Core.List.{Memᴰ}
use mathlib.Core.List.Memᴰ
use mathlib.Core.Path.{subst}
use mathlib.Core.Bool.{true≢false, false≢true}
use mathlib.Core.Option.{some-ne-none, some-injective}
use s3proxy4gcs.Http.{Method, get, head, put, post, delete, other_method, Request}
use s3proxy4gcs.Translate.Gcs.{Lifecycle}
use s3proxy4gcs.Http.{Credentials}
use s3proxy4gcs.CredStore as Store
use s3proxy4gcs.Proxy.Credentials.{request_key}
use s3proxy4gcs.Proxy.Director.{Outgoing, director}
use s3proxy4gcs.Proxy.Director.Prepared.{IsSigned}
use s3proxy4gcs.Proxy.Ops.{health, readyz}
use s3proxy4gcs.Proxy.Answers.Settled.{IsSettled}
use s3proxy4gcs.Proxy.Rules.Answers.{write_header-Leads}
use s3proxy4gcs.Proxy.Rules.World.{write_header-Reads}
use s3proxy4gcs.Proxy.Monad.{M, write_header, Plane, read_plane}
use s3proxy4gcs.Proxy.Server.Live.{serve-reloaded, director-serve}
use s3proxy4gcs.Proxy.Transport.{Transport, Response, exchange}
use s3proxy4gcs.Proxy.Transport.Isolated.{serve-dry_run}
use s3proxy4gcs.Tests.Sample.{
  one_client, nobody, env_of, monthly, fresh, signed, request, object_of_bucket,
  lifecycle_of_bucket,
}
use s3proxy4gcs.Tests.Requests.{fresh-IsIn, admitted_request, goes_through}
use s3proxy4gcs.Tests.Startup.{
  file_environment, one_pair, one_file, file_settings, failed_reload, good_reload, file_loaded,
  reloaded, reloaded', file_is_live, storage, encode, md5_base64, name_signer, outgoing,
}
use s3proxy4gcs.Proxy.Server.{Route, Router, catch_all, routes, throttle, serve_chi, serve}
use s3proxy4gcs.Proxy.Server.Routed.{IsRouter}
use s3proxy4gcs.Proxy.Server.Probe.{PrefersExact, serve-probe}

-- Two methods, compared.
abbrev same_method : (a b : Method) → Option (a ≡ b)
same_method get get = some refl
same_method head head = some refl
same_method put put = some refl
same_method post post = some refl
same_method delete delete = some refl
same_method (other_method a) (other_method b) = elim (Bool-cases (text_eq a b)) [
  | inl same ↦ some (ap other_method ((text_eq_iff a b).0 same))
  | inr _ ↦ none
]
same_method _ _ = none

given : {P : Type 0} (o : Option P) → is_some o ≡ true → P
given none e = absurd (false≢true e)
given (some p) e = p

same_method_refl : (m : Method) → is_some (same_method m m) ≡ true
same_method_refl get = refl
same_method_refl head = refl
same_method_refl put = refl
same_method_refl post = refl
same_method_refl delete = refl
same_method_refl (other_method a) = go (Bool-cases (text_eq a a))
  where
    go :
        (o : (text_eq a a ≡ true) ⊎ (text_eq a a ≡ false))
        → is_some (elim o as (λ _. Option (other_method a ≡ other_method a)) [
          | inl same ↦ some (ap other_method ((text_eq_iff a a).0 same))
          | inr _ ↦ none
        ])
          ≡ true
    go (inl same) = refl
    go (inr other) = absurd (true≢false (sym ((text_eq_iff a a).1 refl) ∙ other))

module _ {A : Type 0} (p : A → Bool) where
  find : List A → Option A
  find [] = none
  find (x ∷ xs) = let rest = find xs in if p x then some x else rest

  find_sound : (xs : List A) (x : A) → find xs ≡ some x → Memᴰ x xs × (p x ≡ true)
  unfolding find
  find_sound [] x e = absurd (some-ne-none x (sym e))
  find_sound (y ∷ ys) x e = elim (Bool-cases (p y)) [
    | inl holds_here ↦
        let same = some-injective y x (ground (arith, e, holds_here)) in
        (Memᴰ.head (sym same), subst (λ z. p z ≡ true) same holds_here)
    | inr fails ↦
        let (m, holds) = find_sound ys x (ground (arith, e, fails)) in (Memᴰ.tail m, holds)
  ]

  find_complete : (xs : List A) (x : A) → Memᴰ x xs → p x ≡ true → is_some (find xs) ≡ true
  unfolding find
  find_complete [] x m holds = absurd (Memᴰ.not-nil m)
  find_complete (y ∷ ys) x m holds = elim (Bool-cases (p y)) [
    | inl here ↦ ground (arith, here)
    | inr fails ↦ elim (Memᴰ.cases_cons m) [
      | inl e ↦ absurd (true≢false (sym holds ∙ (ap p e ∙ fails)))
      | inr later ↦ ground (arith, fails, find_complete ys x later holds)
    ]
  ]

abbrev is_for : {W : Type 0} → Text → Request → Route W → Bool
is_for path r route = is_some (same_method route.method r.method) && text_eq route.pattern path

abbrev or_else : {A : Type 0} → Option A → Option A → Option A
or_else (some a) o = some a
or_else none o = o

abbrev chi : {W : Type 0} → Router W
chi = record {
  choose = λ rs r. or_else (find (is_for r.path r) rs) (find (is_for catch_all r) rs);
  refusal = λ rs r. 405;
  busy = λ r. if text_eq r.path (codes "/busy") then some 503 else none;
}

&&-true : (a b : Bool) → (a && b) ≡ true → (a ≡ true) × (b ≡ true)
&&-true true true e = (refl, refl)
&&-true true false e = absurd (false≢true e)
&&-true false b e = absurd (false≢true e)

module _ {W : Type 0} (rs : List (Route W)) (r : Request) where
  find-registered :
      (path : Text) (route : Route W)
      → find (is_for path r) rs ≡ some route
      → Memᴰ route rs × (route.method ≡ r.method)
  find-registered path route e =
      let (m, holds) = find_sound (is_for path r) rs route e in
      (
        m,
        given (same_method route.method r.method)
            (&&-true (is_some (same_method route.method r.method)) (text_eq route.pattern path)
              holds).0,
      )

  registered :
      (first second : Option (Route W)) (route : Route W)
      → ((k : Route W) → first ≡ some k → Memᴰ k rs × (k.method ≡ r.method))
      → ((k : Route W) → second ≡ some k → Memᴰ k rs × (k.method ≡ r.method))
      → or_else first second ≡ some route
      → Memᴰ route rs × (route.method ≡ r.method)
  registered none second route h k e = k route e
  registered (some x) second route h k e = h route e

  exact :
      (first second : Option (Route W))
      → is_some first ≡ true
      → ((k : Route W) → first ≡ some k → k.pattern ≡ r.path)
      → (other : Route W) × (or_else first second ≡ some other) × (other.pattern ≡ r.path)
  exact none second e h = absurd (false≢true e)
  exact (some k) second e h = (k, refl, h k refl)

  find-exact : (k : Route W) → find (is_for r.path r) rs ≡ some k → k.pattern ≡ r.path
  find-exact k e =
      let (m, holds) = find_sound (is_for r.path r) rs k e in
      (text_eq_iff k.pattern r.path).0
        (&&-true (is_some (same_method k.method r.method)) (text_eq k.pattern r.path) holds).1

  is_for-own :
      (route : Route W)
      → route.method ≡ r.method
      → route.pattern ≡ r.path
      → is_for r.path r route ≡ true
  is_for-own route m p =
      let one =
        subst (λ k. is_some (same_method route.method k) ≡ true) m
          (same_method_refl route.method) in
      let two = (text_eq_iff route.pattern r.path).1 p in rw (one, two) refl

chi-IsRouter : {W : Type 0} → IsRouter (chi {W = W})
chi-IsRouter = record {
  registered = λ rs r route.
      registered rs r (find (is_for r.path r) rs) (find (is_for catch_all r) rs) route
        (find-registered rs r r.path) (find-registered rs r catch_all);
}

chi-PrefersExact : {W : Type 0} → PrefersExact (chi {W = W})
chi-PrefersExact = record {
  exact = λ rs r route m same_m plain literal same_p.
      exact rs r (find (is_for r.path r) rs) (find (is_for catch_all r) rs)
        (find_complete (is_for r.path r) rs route m (is_for-own rs r route same_m same_p))
        (find-exact rs r);
}

scrape : M Lifecycle (Unit {0})
scrape = write_header 200

serves_through :
    (serve chi
      (env_of false one_client none)
      scrape
      (object_of_bucket get signed)
      fresh).1.forwarded
    ≡ some (read_plane, admitted_request)
unfolding serve serve_chi throttle routes find text_eq
serves_through = goes_through

serve-reloaded_example :
    IsSettled
      (serve chi (env_of false one_client none) scrape (object_of_bucket get signed) fresh).1
unfolding scrape write_header
serve-reloaded_example =
    serve-reloaded one_pair one_file file_environment file_settings true true chi chi-IsRouter
      (env_of false one_client none) scrape (object_of_bucket get signed) fresh fresh-IsIn
      (write_header-Leads 200) file_loaded failed_reload good_reload reloaded reloaded'

director-serve_example :
    (creds : Credentials) × (request_key (object_of_bucket get signed) ≡ some creds.access_key_id)
    × (Store.find one_client creds.access_key_id ≡ some creds.secret_access_key)
    × IsSigned file_settings storage encode md5_base64 name_signer
        (some creds)
        (outgoing admitted_request)
        (director file_settings storage encode md5_base64 name_signer (outgoing admitted_request))
unfolding scrape write_header
director-serve_example =
    director-serve one_pair one_file file_environment file_settings true true chi chi-IsRouter
      (env_of false one_client none) scrape (object_of_bucket get signed) fresh fresh-IsIn
      (write_header-Leads 200) file_loaded file_is_live failed_reload reloaded read_plane
      admitted_request serves_through storage encode md5_base64 name_signer
      (outgoing admitted_request) refl

abbrev health_request : Request
health_request = request get (codes "/health") [] []

free : throttle chi (env_of false one_client none) health_request ≡ none
unfolding throttle text_eq
free = refl

serve-probe_example :
    (health_request.path ≡ codes "/health"
      → serve chi (env_of false one_client none) scrape health_request
        ≡ health (env_of false one_client none))
    × (health_request.path ≡ codes "/readyz"
        → serve chi (env_of false one_client none) scrape health_request
          ≡ readyz (env_of false one_client none))
serve-probe_example =
    serve-probe chi chi-IsRouter chi-PrefersExact (env_of false one_client none) scrape
      health_request free refl refl

-- A network that counts what is sent.
abbrev counting : Transport → Outgoing → ℕ → Option Response × ℕ
counting t o n = (none, suc n)

serve-dry_run_example :
    ((serve chi
        (env_of true nobody (some (record { rules = [] })))
        scrape
        (lifecycle_of_bucket put [])
        fresh).1.world
      ≡ monthly)
    × ((plane : Plane) (o : Outgoing) (n : ℕ)
        → exchange counting (env_of true nobody (some (record { rules = [] }))).settings plane o n
          ≡ (
            some (record {
              status_code = 200;
              header = [];
              body = codes "Successfully proxied to GCS (DryRun - no real hits).";
              request = o;
            }),
            n,
          ))
unfolding scrape write_header
serve-dry_run_example =
    serve-dry_run counting chi chi-IsRouter (env_of true nobody (some (record { rules = [] }))) refl
      scrape (write_header-Reads 200) (lifecycle_of_bucket put []) fresh
