-- ===== src/Proxy/Rules/Answers.antt =====
-- Actions that answer a request, one rule for each way to build an action.
use s3proxy4gcs.Base.{
  ℕ, ◌≡◌, refl, Bool, true, false, Option, none, some, is_some, Text, if◌then◌else◌,
}
use s3proxy4gcs.Proxy.Monad.{
  BodyPart, Metric, Flow, next, stop, State, M, pure, leave, ◌>>=◌, set_header, write_header, write,
  observe, asks, updates, return_if, unless, continue, first_status,
}

-- Whether the status of the response is out.
pub data Phase : Type 0 where
  open_phase answered : Phase

abbrev pub is_answered : Phase → Bool
is_answered open_phase = false
is_answered answered = true

-- Nothing is forwarded, and the status is out or not.
pub record IsIn {W : Type 0} (p : Phase) (s : State W) : Type 0 where
  pub status_out : is_some s.status ≡ is_answered p
  pub not_forwarded : s.forwarded ≡ none

-- The handler goes on in phase `q`, or it ends with its answer.
abbrev pub Outcome : {W A : Type 0} → Phase → Flow A → State W → Type 0
Outcome q (next a) s = IsIn q s
Outcome q stop s = IsIn answered s

pub record Leads {W A : Type 0} (p q : Phase) (m : M W A) : Type 0 where
  pub at : (s : State W) → IsIn p s → Outcome q (m s).0 (m s).1

module _ {W A : Type 0} where
  pub leave-Leads : (q : Phase) → Leads {W = W} answered q (leave {A = A})
  unfolding leave
  leave-Leads q = record { at = λ s h. h }

module _ {W A : Type 0} {p : Phase} where
  pub pure-Leads : (a : A) → Leads {W = W} p p (pure a)
  unfolding pure
  pure-Leads a = record { at = λ s h. h }

  pub asks-Leads : (f : W → A) → Leads p p (asks f)
  unfolding asks
  asks-Leads f = record { at = λ s h. h }

  pub updates-Leads : (f : W → A × W) → Leads p p (updates f)
  unfolding updates
  updates-Leads f = record {
    at = λ s h. record { status_out = h.status_out; not_forwarded = h.not_forwarded };
  }

  pub if-Leads :
      {q : Phase} (b : Bool) (m n : M W A)
      → Leads p q m
      → Leads p q n
      → Leads p q (if b then m else n)
  if-Leads true m n km kn = km
  if-Leads false m n km kn = kn

first_status-is_some : (old : Option ℕ) (code : ℕ) → is_some (first_status old code) ≡ true
first_status-is_some none code = refl
first_status-is_some (some c) code = refl

module _ {W : Type 0} {p : Phase} where
  pub set_header-Leads : (k v : Text) → Leads {W = W} p p (set_header k v)
  unfolding set_header
  set_header-Leads k v = record {
    at = λ s h. record { status_out = h.status_out; not_forwarded = h.not_forwarded };
  }

  pub write-Leads : (part : BodyPart) → Leads {W = W} p p (write part)
  unfolding write
  write-Leads part = record {
    at = λ s h. record { status_out = h.status_out; not_forwarded = h.not_forwarded };
  }

  pub observe-Leads : (m : Metric) → Leads {W = W} p p (observe m)
  unfolding observe
  observe-Leads m = record {
    at = λ s h. record { status_out = h.status_out; not_forwarded = h.not_forwarded };
  }

  pub write_header-Leads : (code : ℕ) → Leads {W = W} p answered (write_header code)
  unfolding write_header
  write_header-Leads code = record {
    at = λ s h. record {
      status_out = first_status-is_some s.status code;
      not_forwarded = h.not_forwarded;
    };
  }

module _ {W A B : Type 0} {q : Phase} where
  continue-Leads :
      (r : Phase) (flow : Flow A) (f : A → M W B) (s : State W)
      → Outcome r flow s
      → ((a : A) → Leads r q (f a))
      → Outcome q (continue flow f s).0 (continue flow f s).1
  continue-Leads r (next a) f s h kf = (kf a).at s h
  continue-Leads r stop f s h kf = h

  pub bind-Leads :
      {p : Phase} (r : Phase) (m : M W A) (f : A → M W B)
      → Leads p r m
      → ((a : A) → Leads r q (f a))
      → Leads p q (m >>= f)
  unfolding ◌>>=◌
  bind-Leads r m f km kf = record {
    at = λ s h. let (flow, s') = m s in continue-Leads r flow f s' (km.at s h) kf;
  }

  -- The two instances, which a search can apply.
  pub before_answer :
      {p : Phase} (m : M W A) (f : A → M W B)
      → Leads p open_phase m
      → ((a : A) → Leads open_phase q (f a))
      → Leads p q (m >>= f)
  before_answer = bind-Leads open_phase

  pub after_answer :
      {p : Phase} (m : M W A) (f : A → M W B)
      → Leads p answered m
      → ((a : A) → Leads answered q (f a))
      → Leads p q (m >>= f)
  after_answer = bind-Leads answered

module _ {W : Type 0} {p : Phase} where
  pub return_if-Leads :
      (b : Bool) (m : M W (Unit {0})) → Leads p answered m → Leads p p (return_if b m)
  unfolding return_if
  return_if-Leads true m km = after_answer m _ km λ _. leave-Leads p
  return_if-Leads false m km = pure-Leads tt

  pub unless-Leads : (b : Bool) (m : M W (Unit {0})) → Leads p p m → Leads p p (unless b m)
  unfolding unless
  unless-Leads true m km = pure-Leads tt
  unless-Leads false m km = km

pub ruleset leads_rules = (
  pure-Leads, leave-Leads, asks-Leads, updates-Leads, if-Leads, set_header-Leads,
  write_header-Leads, write-Leads, observe-Leads, return_if-Leads, unless-Leads, after_answer,
  before_answer,
)
