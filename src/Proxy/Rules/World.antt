-- ===== src/Proxy/Rules/World.antt =====
-- Actions that leave the storage service as it is, one rule for each way to build an action.
use s3proxy4gcs.Base.{ℕ, ◌≡◌, refl, ◌∙◌, Bool, true, false, Text, if◌then◌else◌}
use mathlib.Core.Bool.{false≢true, true≢false}
use s3proxy4gcs.Proxy.Monad.{
  BodyPart, Metric, Flow, next, stop, State, M, pure, leave, ◌>>=◌, set_header, write_header, write,
  observe, asks, return_if, unless, continue,
}

-- The storage service after `m` is the one before it.
pub record Reads {W A : Type 0} (m : M W A) : Type 0 where
  pub at : (s : State W) → (m s).1.world ≡ s.world

module _ {W A : Type 0} where
  pub pure-Reads : (a : A) → Reads {W = W} (pure a)
  unfolding pure
  pure-Reads a = record { at = λ s. refl }

  pub leave-Reads : Reads {W = W} (leave {A = A})
  unfolding leave
  leave-Reads = record { at = λ s. refl }

  pub asks-Reads : (f : W → A) → Reads (asks f)
  unfolding asks
  asks-Reads f = record { at = λ s. refl }

  pub if-Reads : (b : Bool) (m n : M W A) → Reads m → Reads n → Reads (if b then m else n)
  if-Reads true m n km kn = km
  if-Reads false m n km kn = kn

module _ {W : Type 0} where
  pub set_header-Reads : (k v : Text) → Reads {W = W} (set_header k v)
  unfolding set_header
  set_header-Reads k v = record { at = λ s. refl }

  pub write_header-Reads : (code : ℕ) → Reads {W = W} (write_header code)
  unfolding write_header
  write_header-Reads code = record { at = λ s. refl }

  pub write-Reads : (part : BodyPart) → Reads {W = W} (write part)
  unfolding write
  write-Reads part = record { at = λ s. refl }

  pub observe-Reads : (m : Metric) → Reads {W = W} (observe m)
  unfolding observe
  observe-Reads m = record { at = λ s. refl }

module _ {W A B : Type 0} where
  continue-Reads :
      (flow : Flow A) (f : A → M W B) (s : State W)
      → ((a : A) → Reads (f a))
      → (continue flow f s).1.world ≡ s.world
  continue-Reads (next a) f s kf = (kf a).at s
  continue-Reads stop f s kf = refl

  pub bind-Reads : (m : M W A) (f : A → M W B) → Reads m → ((a : A) → Reads (f a)) → Reads (m >>= f)
  unfolding ◌>>=◌
  bind-Reads m f km kf = record {
    at = λ s. let (flow, s') = m s in continue-Reads flow f s' kf ∙ km.at s;
  }

module _ {W : Type 0} where
  stopped_flow :
      {B : Type 0} (flow : Flow (Unit {0})) (s : State W) (k : Unit {0} → M W B)
      → (let (flow', s') = continue flow (λ _. leave {A = Unit {0}}) s in
          continue flow' k s').1.world
        ≡ s.world
  unfolding leave
  stopped_flow (next a) s k = refl
  stopped_flow stop s k = refl

  pub return_if-Reads : (b : Bool) (m : M W (Unit {0})) → Reads m → Reads (return_if b m)
  unfolding return_if
  return_if-Reads true m km = bind-Reads m _ km λ _. leave-Reads
  return_if-Reads false m km = pure-Reads tt

  pub unless-Reads : (b : Bool) (m : M W (Unit {0})) → Reads m → Reads (unless b m)
  unfolding unless
  unless-Reads true m km = pure-Reads tt
  unless-Reads false m km = km

  pub skipped-Reads : (b : Bool) (m : M W (Unit {0})) → b ≡ false → Reads (return_if b m)
  unfolding return_if
  skipped-Reads true m h = absurd (true≢false h)
  skipped-Reads false m h = pure-Reads tt

  -- What stands behind a `return` is not run.
  pub stopped-Reads :
      {B : Type 0} (b : Bool) (m : M W (Unit {0})) (k : Unit {0} → M W B)
      → b ≡ true
      → Reads m
      → Reads (return_if b m >>= k)
  unfolding return_if
  stopped-Reads true m k h km = record {
    at = λ s. let (flow, s') = m s in stopped_flow flow s' k ∙ km.at s;
  }
  stopped-Reads false m k h km = absurd (false≢true h)

pub ruleset reads_rules = (
  pure-Reads, leave-Reads, asks-Reads, if-Reads, set_header-Reads, write_header-Reads, write-Reads,
  observe-Reads, bind-Reads, return_if-Reads, unless-Reads,
)
