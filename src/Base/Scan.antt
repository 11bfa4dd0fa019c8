-- ===== src/Base/Scan.antt =====
-- The loop over the segments of a raw query, `for len(query) > 0`, which cuts one segment off at
-- each `&` and goes on or returns.
use Prim.Native.Nat.{ℕ, zero, suc, ◌<◌}
use mathlib.Core.Path.{◌≡◌, refl, sym, ap, ◌∙◌}
use mathlib.Core.Logic.{inl, inr}
use mathlib.Core.Option.{none, some}
use mathlib.Core.List.{List, [], ◌∷◌}
use native.Mathlib.Omega.{arith}
use s3proxy4gcs.Base.Tests.{if◌then◌else◌, Option-cases}
use s3proxy4gcs.Base.Lists.{length, length-append, is_nil}
use s3proxy4gcs.Base.Strings.{Text, cut, split}
use s3proxy4gcs.Base.Cuts.{cut-eq-some, cut-eq-none, split-Lacks, split-append}

-- What the loop does with a segment: goes on, or returns.
pub data Verdict (A : Type 0) : Type 0 where
  go_on : Verdict A
  give : A → Verdict A

-- The segment before the first '&', and what is left of the query.
unfoldable pub next_segment : Text → Text × Text
next_segment query = elim (cut b'&' query) [ none ↦ (query, []) | some (seg, rest) ↦ (seg, rest) ]

module _ {A : Type 0} (otherwise : A) (body : Text → Verdict A) where
  -- The loop, which the fuel bounds, and what stands behind it.
  unfoldable pub scan : ℕ → Text → A
  unfolding next_segment
  scan zero query = otherwise
  scan (suc fuel) query =
      let (seg, rest) = next_segment query in
      let later = scan fuel rest in
      if is_nil query then otherwise else elim (body seg) [ go_on ↦ later | give a ↦ a ]

  -- The first segment of a list that decides.
  unfoldable pub first_verdict : List Text → A
  first_verdict [] = otherwise
  first_verdict (seg ∷ segs) = elim (body seg) [ go_on ↦ first_verdict segs | give a ↦ a ]

  scan-nil : (fuel : ℕ) → scan fuel [] ≡ otherwise
  unfolding scan
  scan-nil zero = refl
  scan-nil (suc fuel) = refl

  module _ (skips_nil : body [] ≡ go_on) where
    -- One round of the loop, by what stands before the first ampersand.
    scan_last :
        (fuel : ℕ) (query : Text)
        → cut b'&' query ≡ none
        → scan (suc fuel) query ≡ elim (body query) [ go_on ↦ otherwise | give a ↦ a ]
    unfolding scan
    scan_last fuel [] missed = ground (arith, skips_nil)
    scan_last fuel (c ∷ query) missed = ground (arith, missed, scan-nil fuel)

    scan_more :
        (fuel : ℕ) (query seg rest : Text)
        → cut b'&' query ≡ some (seg, rest)
        → scan (suc fuel) query ≡ elim (body seg) [ go_on ↦ scan fuel rest | give a ↦ a ]
    unfolding scan
    scan_more fuel [] seg rest found = unfold cut in ground arith
    scan_more fuel (c ∷ query) seg rest found = ground (arith, found)

    -- With more fuel than bytes the loop sees every segment between the ampersands.
    pub scan-first_verdict :
        (fuel : ℕ) (query : Text)
        → length query < fuel
        → scan fuel query ≡ first_verdict (split query b'&')
    unfolding first_verdict
    scan-first_verdict zero query h = absurd (omega arith)
    scan-first_verdict (suc fuel) query h = elim (Option-cases (cut b'&' query)) [
      | inl missed ↦
          scan_last fuel query missed
          ∙ ap first_verdict (sym (split-Lacks b'&' query (cut-eq-none b'&' query missed)))
      | inr ((seg, rest), found) ↦
          let (same, lacks) = cut-eq-some b'&' query seg rest found in
          let shorter : length rest < fuel =
            omega (arith, ap length same, length-append seg (b'&' ∷ rest)) in
          let later = scan-first_verdict fuel rest shorter in
          scan_more fuel query seg rest found
          ∙ (ground (arith, later)
              ∙ ap first_verdict
                  (sym (ap (λ t. split t b'&') same ∙ split-append b'&' seg rest lacks)))
    ]
