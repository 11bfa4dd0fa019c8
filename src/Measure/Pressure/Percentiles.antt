-- ===== src/Measure/Pressure/Percentiles.antt =====
-- The percentiles of the report: they never read outside of the slice, and they are in order.
use s3proxy4gcs.Base.{
  ℕ, zero, suc, ◌-◌, ◌/◌, ◌≤◌, ◌<◌, ◌≡◌, refl, ap, inl, inr, Bool-cases, leb, some, List, [], ◌∷◌,
  length, All, arith,
}
use s3proxy4gcs.Measure.Number.{Float, le, IsOrdered}
use s3proxy4gcs.Measure.Pressure.{
  Shared, insert, sort, get_elem?, to_ms, to_ms_of, percentile_index, percentile_ms, max_ms, report,
}

IsSorted : List ℕ → Type 0
IsSorted [] = Unit
IsSorted (d ∷ ds) = All (λ e. d ≤ e) ds × IsSorted ds

All-insert : (P : ℕ → Type 0) (d : ℕ) (ds : List ℕ) → P d → All P ds → All P (insert d ds)
unfolding insert
All-insert P d [] p h = (p, tt)
All-insert P d (e ∷ es) p (q, h) = elim (Bool-cases (leb d e)) [
  | inl b ↦ rw b (p, (q, h))
  | inr b ↦ rw b (q, All-insert P d es p h)
]

All-≤ : (d e : ℕ) (ds : List ℕ) → d ≤ e → All (λ x. e ≤ x) ds → All (λ x. d ≤ x) ds
All-≤ d e [] l h = tt
All-≤ d e (x ∷ xs) l (q, h) = (omega (arith, l, q), All-≤ d e xs l h)

insert-IsSorted : (d : ℕ) (ds : List ℕ) → IsSorted ds → IsSorted (insert d ds)
unfolding IsSorted insert
insert-IsSorted d [] h = (tt, tt)
insert-IsSorted d (e ∷ es) (q, h) = elim (Bool-cases (leb d e)) [
  | inl b ↦ let l : d ≤ e = ground (arith, b) in rw b ((l, All-≤ d e es l q), (q, h))
  | inr b ↦
      let l : e ≤ d = ground (arith, b) in
      rw b (All-insert (λ x. e ≤ x) d es l q, insert-IsSorted d es h)
]

sort-IsSorted : (ds : List ℕ) → IsSorted (sort ds)
unfolding IsSorted sort
sort-IsSorted [] = tt
sort-IsSorted (d ∷ ds) = insert-IsSorted d (sort ds) (sort-IsSorted ds)

nth : List ℕ → ℕ → ℕ
nth [] i = 0
nth (d ∷ ds) zero = d
nth (d ∷ ds) (suc i) = nth ds i

get_elem?-nth : (ds : List ℕ) (i : ℕ) → i < length ds → get_elem? ds i ≡ some (nth ds i)
unfolding nth
get_elem?-nth [] i h = absurd (ground (arith, h))
get_elem?-nth (d ∷ ds) zero h = refl
get_elem?-nth (d ∷ ds) (suc i) h = get_elem?-nth ds i (omega (arith, h))

All-nth : (P : ℕ → Type 0) (ds : List ℕ) (i : ℕ) → All P ds → i < length ds → P (nth ds i)
unfolding nth
All-nth P [] i h l = absurd (ground (arith, l))
All-nth P (d ∷ ds) zero (p, h) l = p
All-nth P (d ∷ ds) (suc i) (p, h) l = All-nth P ds i h (omega (arith, l))

nth-≤ : (ds : List ℕ) (i j : ℕ) → IsSorted ds → i ≤ j → j < length ds → nth ds i ≤ nth ds j
unfolding nth IsSorted
nth-≤ [] i j h l k = absurd (ground (arith, k))
nth-≤ (d ∷ ds) zero zero h l k = omega arith
nth-≤ (d ∷ ds) zero (suc j) (q, h) l k = All-nth (λ x. d ≤ x) ds j q (omega (arith, k))
nth-≤ (d ∷ ds) (suc i) zero h l k = absurd (ground (arith, l))
nth-≤ (d ∷ ds) (suc i) (suc j) (q, h) l k = nth-≤ ds i j h (omega (arith, l)) (omega (arith, k))

module _ (fl : Float) (law : IsOrdered fl) where
  percentile_index-< :
      (d : ℕ) (ds : List ℕ) (p : ℕ) → percentile_index fl (d ∷ ds) p < length (d ∷ ds)
  unfolding percentile_index
  percentile_index-< d ds p = ground arith

  percentile_index-≤ :
      (ds : List ℕ) (p q : ℕ) → p ≤ q → percentile_index fl ds p ≤ percentile_index fl ds q
  unfolding percentile_index
  percentile_index-≤ ds p q l = let mono = law.trunc_mono (length ds) p q l in ground (arith, mono)

  to_ms_mono : (d e : ℕ) → d ≤ e → le fl (to_ms fl d) (to_ms fl e)
  unfolding to_ms
  to_ms_mono d e l =
      law.div_mono (fl.of_nat (d / 1000)) (fl.of_nat (e / 1000)) 1000 (omega arith)
        (law.of_nat_mono (d / 1000) (e / 1000) (omega (arith, l)))

  percentile_ms-nth :
      (d : ℕ) (ds : List ℕ) (p : ℕ)
      → percentile_ms fl (d ∷ ds) p
        ≡ some (to_ms fl (nth (d ∷ ds) (percentile_index fl (d ∷ ds) p)))
  unfolding percentile_ms
  percentile_ms-nth d ds p =
      ap (to_ms_of fl)
        (get_elem?-nth (d ∷ ds) (percentile_index fl (d ∷ ds) p) (percentile_index-< d ds p))

  max_ms-nth :
      (d : ℕ) (ds : List ℕ)
      → max_ms fl (d ∷ ds) ≡ some (to_ms fl (nth (d ∷ ds) (length (d ∷ ds) - 1)))
  unfolding max_ms
  max_ms-nth d ds = ap (to_ms_of fl) (get_elem?-nth (d ∷ ds) (length (d ∷ ds) - 1) (omega arith))

  -- The four are there, in ascending order.
  abbrev Ascends : List ℕ → Type 0
  Ascends ds =
      (a : fl.F) × (b : fl.F) × (c : fl.F) × (d : fl.F) × (percentile_ms fl ds 50 ≡ some a)
      × (percentile_ms fl ds 95 ≡ some b)
      × (percentile_ms fl ds 99 ≡ some c)
      × (max_ms fl ds ≡ some d)
      × le fl a b
      × le fl b c
      × le fl c d

  sorted-Ascends : (ds : List ℕ) → IsSorted ds → Ascends ds
  unfolding percentile_ms max_ms
  sorted-Ascends [] h =
      let z = fl.of_nat 0 in
      (z, z, z, z, refl, refl, refl, refl, law.refl_le z, law.refl_le z, law.refl_le z)
  sorted-Ascends (d ∷ ds) h =
      let i = percentile_index fl (d ∷ ds) in
      let at : ℕ → ℕ = nth (d ∷ ds) in
      let rises : (m n : ℕ)
          → m ≤ n
          → n < length (d ∷ ds)
          → le fl (to_ms fl (at m)) (to_ms fl (at n)) =
        λ m n l k. to_ms_mono (at m) (at n) (nth-≤ (d ∷ ds) m n h l k) in
      (
        to_ms fl (at (i 50)),
        to_ms fl (at (i 95)),
        to_ms fl (at (i 99)),
        to_ms fl (at (length (d ∷ ds) - 1)),
        percentile_ms-nth d ds 50,
        percentile_ms-nth d ds 95,
        percentile_ms-nth d ds 99,
        max_ms-nth d ds,
        rises (i 50) (i 95) (percentile_index-≤ (d ∷ ds) 50 95 (omega arith))
            (percentile_index-< d ds 95),
        rises (i 95) (i 99) (percentile_index-≤ (d ∷ ds) 95 99 (omega arith))
            (percentile_index-< d ds 99),
        rises (i 99) (length (d ∷ ds) - 1) (omega (arith, percentile_index-< d ds 99))
            (omega arith),
      )

  -- The percentiles of the report never read outside of the slice of latencies, even an empty one,
  -- and p50, p95, p99 and the maximum are in ascending order, if the numbers of float64 are ordered
  -- and conversion, product, quotient and rounding keep that order.
  pub report-percentiles :
      (s : Shared) (wall : fl.F)
      → let l = (report fl s wall).latency in
        (a : fl.F) × (b : fl.F) × (c : fl.F) × (d : fl.F) × (l.p50 ≡ some a)
        × (l.p95 ≡ some b)
        × (l.p99 ≡ some c)
        × (l.max ≡ some d)
        × le fl a b
        × le fl b c
        × le fl c d
  unfolding report
  report-percentiles s wall = sorted-Ascends (sort s.latencies) (sort-IsSorted s.latencies)
