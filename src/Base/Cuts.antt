-- ===== src/Base/Cuts.antt =====
-- What `cut`, `cut_prefix`, `after_first` and `split` find.
use Prim.Native.Nat.{ℕ}
use mathlib.Core.Path.{◌≡◌, refl, ap, subst}
use mathlib.Core.Logic.{◌≢◌, inl, inr}
use mathlib.Core.Option.{Option, none, some}
use mathlib.Core.List.{[], ◌∷◌, ◌++◌}
use native.Mathlib.Omega.{arith}
use s3proxy4gcs.Base.Tests.{◌==◌, ==_iff, Bool-cases, Option-cases}
use s3proxy4gcs.Base.Lists.{All}
use s3proxy4gcs.Base.Strings.{Text, extend, cut, cut_prefix, after_first, split}

abbrev pub Lacks : ℕ → Text → Type 0
Lacks b = All (λ c. c ≢ b)

pub cut-append : (b : ℕ) (x y : Text) → Lacks b x → cut b (x ++ b ∷ y) ≡ some (x, y)
unfolding cut
cut-append b [] y h = ground arith
cut-append b (c ∷ x) y (p, h) = ground (arith, cut-append b x y h)

-- What a result of `cut` says of the text.
abbrev pub CutOf : ℕ → Text → Option (Text × Text) → Type 0
CutOf b s none = Lacks b s
CutOf b s (some (x, y)) = (s ≡ x ++ b ∷ y) × Lacks b x

CutOf-extend :
    (b c : ℕ) (s : Text) (o : Option (Text × Text))
    → c ≢ b
    → CutOf b s o
    → CutOf b (c ∷ s) (extend c o)
CutOf-extend b c s none ne h = (ne, h)
CutOf-extend b c s (some (x, y)) ne (e, h) = (ap (λ t. c ∷ t) e, (ne, h))

pub cut_sound : (b : ℕ) (s : Text) → CutOf b s (cut b s)
unfolding cut
cut_sound b [] = tt
cut_sound b (c ∷ s) = elim (Bool-cases (c == b)) [
  | inl e ↦ rw e (ap (λ t. t ∷ s) ((==_iff c b).0 e), tt)
  | inr e ↦ rw e (CutOf-extend b c s (cut b s) (ground arith) (cut_sound b s))
]

pub cut-eq-some : (b : ℕ) (s x y : Text) → cut b s ≡ some (x, y) → (s ≡ x ++ b ∷ y) × Lacks b x
cut-eq-some b s x y e = subst (CutOf b s) e (cut_sound b s)

pub cut-eq-none : (b : ℕ) (s : Text) → cut b s ≡ none → Lacks b s
cut-eq-none b s e = subst (CutOf b s) e (cut_sound b s)

pub cut_prefix-eq-some : (p s rest : Text) → cut_prefix p s ≡ some rest → s ≡ p ++ rest
unfolding cut_prefix
cut_prefix-eq-some [] s rest e = ground (arith, e)
cut_prefix-eq-some (c ∷ p) [] rest e = absurd (ground (arith, e))
cut_prefix-eq-some (c ∷ p) (d ∷ s) rest e = ground (arith, e, cut_prefix-eq-some p s rest)

pub cut_prefix-append : (p s : Text) → cut_prefix p (p ++ s) ≡ some s
unfolding cut_prefix
cut_prefix-append [] s = refl
cut_prefix-append (d ∷ p) s = ground (arith, cut_prefix-append p s)

pub after_first-eq-some :
    (p s r : Text) → after_first p s ≡ some r → (before : Text) × (s ≡ before ++ (p ++ r))
unfolding after_first
after_first-eq-some p [] r e = ([], cut_prefix-eq-some p [] r e)
after_first-eq-some p (c ∷ s) r e = elim (Option-cases (cut_prefix p (c ∷ s))) [
  | inl missed ↦
      let (before, same) = after_first-eq-some p s r (ground (arith, missed)) in
      (c ∷ before, ap (λ t. c ∷ t) same)
  | inr (r', found) ↦
      let here : c ∷ s ≡ p ++ r' = cut_prefix-eq-some p (c ∷ s) r' found in
      let same : r' ≡ r = ground (arith, found) in ([], rw (← same) here)
]

pub split-Lacks : (b : ℕ) (s : Text) → Lacks b s → split s b ≡ s ∷ []
unfolding split
split-Lacks b [] h = refl
split-Lacks b (c ∷ s) (p, h) = ground (arith, split-Lacks b s h)

pub split-append : (b : ℕ) (x y : Text) → Lacks b x → split (x ++ b ∷ y) b ≡ x ∷ split y b
unfolding split
split-append b [] y h = ground arith
split-append b (c ∷ x) y (p, h) = ground (arith, split-append b x y h)
