-- ===== src/Measure/Prometheus/Deltas.antt =====
-- The difference of two maps of counters.
use s3proxy4gcs.Base.{
  ◌≡◌, refl, ap, ◌||◌, inl, inr, Bool-cases, none, some, is_some, [], ◌∷◌, Text, Dict, lookup,
  insert, lookup-insert, text_eq, text_eq_iff, arith, if◌then◌else◌,
}
use s3proxy4gcs.Measure.Number.{Float, le, IsOrdered}
use s3proxy4gcs.Measure.Prometheus.Samples.{clamped, fill, diff_maps, value_at, float_zero}

module _ (fl : Float) where
  lookup-fill :
      (f : Text → fl.F) (k : Text) (m out : Dict fl.F)
      → lookup k (fill fl f m out) ≡ (if is_some (lookup k m) then some (f k) else lookup k out)
  unfolding fill lookup
  lookup-fill f k [] out = refl
  lookup-fill f k ((j, v) ∷ m) out =
      let later = lookup-fill f k m (insert j (f j) out) in
      let here = lookup-insert j k (f j) out in
      elim (Bool-cases (text_eq j k)) [
        | inl e ↦ let same = ap f ((text_eq_iff j k).0 e) in ground (arith, e, later, here, same)
        | inr e ↦ ground (arith, e, later, here)
      ]

  clamped-le :
      IsOrdered fl
      → (start end : Dict fl.F) (k : Text) → le fl (float_zero fl) (clamped fl start end k)
  unfolding clamped
  clamped-le law start end k = elim (Bool-cases (fl.lt d (float_zero fl))) [
    | inl reset ↦ rw reset (law.refl_le (float_zero fl))
    | inr grown ↦ rw grown grown
  ]
    where
      d : fl.F
      d = fl.sub (value_at fl k end) (value_at fl k start)

  -- The difference of two maps of counters has exactly the keys of both, its value at a key is the
  -- later value less the earlier one, where a missing key counts as zero and a counter that was
  -- reset gives zero; no value is negative, if the numbers of float64 are ordered.
  pub lookup-diff_maps :
      IsOrdered fl
      → (start end : Dict fl.F) (k : Text)
      → (lookup k (diff_maps fl start end) ≡ (
          if is_some (lookup k start) || is_some (lookup k end)
          then some (
              if fl.lt (fl.sub (value_at fl k end) (value_at fl k start)) (float_zero fl)
              then float_zero fl
              else fl.sub (value_at fl k end) (value_at fl k start))
          else none))
        × le fl (float_zero fl) (
            if fl.lt (fl.sub (value_at fl k end) (value_at fl k start)) (float_zero fl)
            then float_zero fl
            else fl.sub (value_at fl k end) (value_at fl k start))
  unfolding diff_maps lookup clamped
  lookup-diff_maps law start end k = (
    ground (
      arith,
      lookup-fill (clamped fl start end) k end (fill fl (clamped fl start end) start []),
      lookup-fill (clamped fl start end) k start [],
    ),
    clamped-le law start end k,
  )
