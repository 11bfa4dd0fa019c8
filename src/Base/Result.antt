-- ===== src/Base/Result.antt =====
-- Go's `(value, error)` results.
use mathlib.Core.Path.{◌≡◌, refl}
use mathlib.Core.Logic.{◌↔◌}
use mathlib.Core.Option.{Option, none, some}
use native.Mathlib.Omega.{arith}

pub data Result (E : Type 0) (A : Type 0) : Type 0 where
  ok : A → Result E A
  err : E → Result E A

infixl 5 ◌>>=◌ ◌>>◌
abbrev pub ◌>>=◌ : {E A B : Type 0} → Result E A → (A → Result E B) → Result E B
ok a >>= f = f a
err e >>= f = err e

abbrev pub ◌>>◌ : {E B : Type 0} → Result E (Unit {0}) → Result E B → Result E B
m >> k = m >>= λ _. k

-- `none` is the error.
abbrev pub ok_or : {E A : Type 0} → Option A → E → Result E A
ok_or none e = err e
ok_or (some a) e = ok a

-- The call returned no error.
abbrev pub IsOk : {E A : Type 0} → Result E A → Type 0
IsOk (ok a) = Unit
IsOk (err e) = ⊥

pub IsOk-ok : {E A : Type 0} (r : Result E A) → IsOk r → (a : A) × (r ≡ ok a)
IsOk-ok (ok a) h = (a, refl)
IsOk-ok (err e) h = absurd h

-- What came out of the first step when both succeed.
pub >>=-eq-ok :
    {E A B : Type 0} (r : Result E A) (k : A → Result E B) {out : B}
    → (r >>= k) ≡ ok out
    → (mid : A) × (r ≡ ok mid) × (k mid ≡ ok out)
>>=-eq-ok (ok mid) k both = (mid, refl, both)
>>=-eq-ok (err e) k both = ground arith

-- A step that cannot fail behind one that can.
pub IsOk-map : {E A B : Type 0} (m : Result E A) (g : A → B) → IsOk (m >>= λ a. ok (g a)) ↔ IsOk m
IsOk-map (ok a) g = (λ h. h, λ h. h)
IsOk-map (err e) g = (λ h. h, λ h. h)

-- Two steps, both of which run.
pub IsOk-seq :
    {E A B C : Type 0} (m : Result E A) (n : Result E B) (g : A → B → C)
    → IsOk (m >>= λ a. n >>= λ b. ok (g a b)) ↔ (IsOk m × IsOk n)
IsOk-seq (ok a) (ok b) g = (λ h. (tt, tt), λ h. tt)
IsOk-seq (ok a) (err e) g = (λ h. absurd h, λ h. h.1)
IsOk-seq (err e) n g = (λ h. absurd h, λ h. h.0)

pub ok_or-IsOk : {E A : Type 0} (o : Option A) (e : E) → IsOk (ok_or o e) ↔ ((a : A) × (o ≡ some a))
ok_or-IsOk none e = (λ h. absurd h, λ h. ground (arith, h.1))
ok_or-IsOk (some a) e = (λ h. (a, refl), λ h. tt)

pub IsOk-then :
    {E B : Type 0} (m : Result E (Unit {0})) (n : Result E B) → IsOk (m >> n) ↔ (IsOk m × IsOk n)
IsOk-then (ok a) n = (λ h. (tt, h), λ h. h.1)
IsOk-then (err e) n = (λ h. absurd h, λ h. h.0)
