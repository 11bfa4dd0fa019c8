-- ===== src/Metrics/Middleware/InFlight.antt =====
-- The gauge of the requests in flight.
use s3proxy4gcs.Base.{
  ℕ, suc, ◌+◌, Bool, false, Option, none, some, List, [], ◌∷◌, ◌++◌, ◌≡◌, refl, Text, text_eq,
  arith, if◌then◌else◌,
}
use Prim.Native.String.{String}
use s3proxy4gcs.Metrics.Writer.{Counting, observed_status}
use s3proxy4gcs.Metrics.{classify_gcs_error}
use s3proxy4gcs.Metrics.Middleware.{
  Observation, in_flight_inc, in_flight_dec, requests_total, error_class, arrived, open_request,
  Open, begin, finish, Server, Step, arrive, depart, Reachable, here, next,
}

-- How many of the recordings a test holds of.
abbrev pub tally : (Observation → Bool) → List Observation → ℕ
tally p [] = 0
tally p (o ∷ os) = if p o then suc (tally p os) else tally p os

abbrev pub is_inc : Text → Observation → Bool
is_inc e (in_flight_inc j) = text_eq j e
is_inc e _ = false

abbrev pub is_dec : Text → Observation → Bool
is_dec e (in_flight_dec j) = text_eq j e
is_dec e _ = false

abbrev pub is_total : Text → Observation → Bool
is_total e (requests_total m j status) = text_eq j e
is_total e _ = false

-- The requests with the given label.
abbrev pub open_at : Text → List Open → ℕ
open_at e [] = 0
open_at e (r ∷ rs) = if text_eq r.endpoint e then suc (open_at e rs) else open_at e rs

abbrev one_if : Bool → ℕ
one_if b = if b then 1 else 0

tally-append :
    (p : Observation → Bool) (os os' : List Observation)
    → tally p (os ++ os') ≡ tally p os + tally p os'
tally-append p [] os' = omega arith
tally-append p (o ∷ os) os' = ground (arith, tally-append p os os')

open_at-insert :
    (e : Text) (before after : List Open) (r : Open)
    → open_at e (before ++ r ∷ after) ≡ open_at e (before ++ after) + one_if (text_eq r.endpoint e)
open_at-insert e [] after r = ground arith
open_at-insert e (q ∷ before) after r = ground (arith, open_at-insert e before after r)

-- For every label: what was added to the gauge is what was taken off and what is being handled,
-- and what was taken off is what was counted as done.
pub record IsBalanced (s : Server) : Type 0 where
  pub in_flight :
      (e : Text)
      → tally (is_inc e) s.observations
        ≡ tally (is_dec e) s.observations + open_at e s.open_requests
  pub done : (e : Text) → tally (is_total e) s.observations ≡ tally (is_dec e) s.observations

inc-error_class : (e label : Text) (o : Option String) → tally (is_inc e) (error_class label o) ≡ 0
inc-error_class e label none = refl
inc-error_class e label (some class) = refl

dec-error_class : (e label : Text) (o : Option String) → tally (is_dec e) (error_class label o) ≡ 0
dec-error_class e label none = refl
dec-error_class e label (some class) = refl

total-error_class :
    (e label : Text) (o : Option String) → tally (is_total e) (error_class label o) ≡ 0
total-error_class e label none = refl
total-error_class e label (some class) = refl

module _ {S : Type 0} (r : Open) (req_bytes : ℕ) (panicked : Bool) (w : Counting S) (e : Text) where
  inc-finish : tally (is_inc e) (finish r req_bytes panicked w) ≡ 0
  unfolding finish
  inc-finish = inc-error_class e r.endpoint (classify_gcs_error (observed_status panicked w))

  dec-finish : tally (is_dec e) (finish r req_bytes panicked w) ≡ one_if (text_eq r.endpoint e)
  unfolding finish
  dec-finish =
      ground (arith, dec-error_class e r.endpoint (classify_gcs_error (observed_status panicked w)))

  total-finish : tally (is_total e) (finish r req_bytes panicked w) ≡ one_if (text_eq r.endpoint e)
  unfolding finish
  total-finish =
      ground
        (arith, total-error_class e r.endpoint (classify_gcs_error (observed_status panicked w)))

arrived-IsBalanced : (r : Open) (s : Server) → IsBalanced s → IsBalanced (arrived r s)
unfolding begin
arrived-IsBalanced r s h = record {
  in_flight = λ e. ground (
    arith,
    tally-append (is_inc e) s.observations (begin r),
    tally-append (is_dec e) s.observations (begin r),
    h.in_flight e,
  );
  done = λ e. ground (
    arith,
    tally-append (is_total e) s.observations (begin r),
    tally-append (is_dec e) s.observations (begin r),
    h.done e,
  );
}

Step-IsBalanced : {S : Type 0} {s t : Server} → Step S s t → IsBalanced s → IsBalanced t
Step-IsBalanced (arrive s method uri) h = arrived-IsBalanced (open_request method uri) s h
Step-IsBalanced (depart before after r obs req_bytes panicked w) h = record {
  in_flight = λ e. omega (
    arith,
    tally-append (is_inc e) obs (finish r req_bytes panicked w),
    tally-append (is_dec e) obs (finish r req_bytes panicked w),
    inc-finish r req_bytes panicked w e,
    dec-finish r req_bytes panicked w e,
    open_at-insert e before after r,
    h.in_flight e,
  );
  done = λ e. omega (
    arith,
    tally-append (is_total e) obs (finish r req_bytes panicked w),
    tally-append (is_dec e) obs (finish r req_bytes panicked w),
    total-finish r req_bytes panicked w e,
    dec-finish r req_bytes panicked w e,
    h.done e,
  );
}

-- However the requests of a server overlap, and whether their handlers return or panic: for every
-- label, what the gauge of the requests in flight went up by is what it went down by and the
-- requests that are being handled, and it went down by the number of requests that were counted.
pub Reachable-IsBalanced : {S : Type 0} {s : Server} → Reachable S s → IsBalanced s
Reachable-IsBalanced here = record { in_flight = λ e. refl; done = λ e. refl }
Reachable-IsBalanced (next run step) = Step-IsBalanced step (Reachable-IsBalanced run)
