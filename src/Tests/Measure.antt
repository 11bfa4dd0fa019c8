-- ===== src/Tests/Measure.antt =====
-- The measuring programs, with natural numbers for those of float64.
use s3proxy4gcs.Base.{
  ℕ, ◌+◌, ◌-◌, ◌≡◌, refl, true, false, ◌||◌, none, some, is_some, List, [], ◌∷◌, Dict, codes,
  lookup, ltb, arith, length, if◌then◌else◌,
}
use s3proxy4gcs.Measure.Number.{Float, le, IsOrdered}
use s3proxy4gcs.Measure.Pressure.{
  failed, took, clock, outcome, goes_on, Input, Shared, run, start, all_finished, report,
}
use s3proxy4gcs.Measure.Pressure.Counts.{report-run}
use s3proxy4gcs.Measure.Pressure.Percentiles.{report-percentiles}
use s3proxy4gcs.Measure.Prometheus.{Client, MatrixEntry, text, other, new_prometheus_collector}
use s3proxy4gcs.Measure.Prometheus.Samples.{diff_maps, value_at, float_zero, no_metrics}
use s3proxy4gcs.Measure.Prometheus.Queries.{collect}
use s3proxy4gcs.Measure.Prometheus.Deltas.{lookup-diff_maps}
use s3proxy4gcs.Measure.Prometheus.Unreachable.{collect-unreachable}
use s3proxy4gcs.Measure.Scrape.Rendered.{Line, sample, foreign}

-- A quotient is not taken, and a product is with 0 or with anything else as with 1.
abbrev product : ℕ → ℕ → ℕ
product a b = if ltb 0 b then a else 0

abbrev naturals : Float
naturals = record {
  F = ℕ;
  of_nat = λ n. n;
  hundredths = λ p. if ltb 90 p then 1 else 0;
  add = λ a b. a + b;
  sub = λ a b. a - b;
  mul = product;
  div = λ a b. a;
  lt = ltb;
  is_nan = λ a. false;
  max = λ a b. if ltb a b then b else a;
  round = λ a. a;
  trunc = λ a. a;
  parse = λ s. some (length s);
}

naturals-IsOrdered : IsOrdered naturals
naturals-IsOrdered = record {
  asym = λ a b l. ground (arith, l);
  refl_le = λ a. ground arith;
  trans = λ a b c n l k. ground (arith, l, k);
  of_nat_mono = λ m n l. ground (arith, l);
  mul_mono = λ a b n l. ground (arith, l);
  div_mono = λ a b n p l. l;
  round_mono = λ a b l. l;
  trunc_mono = λ n p q l. ground (arith, l);
}

-- Two workers: one request succeeds and one fails, and they overlap.
abbrev schedule : List (ℕ × Input)
schedule =
    (0, clock true)
    ∷ (1, clock true)
    ∷ (1, outcome (took 7000))
    ∷ (0, outcome failed)
    ∷ (0, goes_on)
    ∷ (1, goes_on)
    ∷ (1, clock false)
    ∷ (0, clock false)
    ∷ []

ended : all_finished (run (start 2) schedule).workers ≡ true
unfolding run start
ended = refl

report-run_example :
    let rep = report naturals (run (start 2) schedule).shared 1 in
    rep.total_requests ≡ rep.success + rep.error
report-run_example = report-run naturals 1 2 schedule ended

abbrev measured : Shared
measured = record { total = 3; errs = 0; latencies = 9000 ∷ 4000 ∷ 7000 ∷ [] }

report-percentiles_example :
    let l = (report naturals measured 1).latency in
    (a : ℕ) × (b : ℕ) × (c : ℕ) × (d : ℕ) × (l.p50 ≡ some a)
    × (l.p95 ≡ some b)
    × (l.p99 ≡ some c)
    × (l.max ≡ some d)
    × le naturals a b
    × le naturals b c
    × le naturals c d
report-percentiles_example = report-percentiles naturals naturals-IsOrdered measured 1

abbrev series : List MatrixEntry
series =
    record {
      metric = [];
      values = (other, text (codes "abc")) ∷ (other, other) ∷ (other, text (codes "a")) ∷ [];
    }
    ∷ []

abbrev earlier : Dict ℕ
earlier = (codes "200", 5) ∷ (codes "500", 1) ∷ []

abbrev later : Dict ℕ
later = (codes "200", 9) ∷ (codes "403", 2) ∷ []

lookup-diff_maps_example :
    (lookup (codes "403") (diff_maps naturals earlier later) ≡ (
      if is_some (lookup (codes "403") earlier) || is_some (lookup (codes "403") later)
      then some (
          if ltb
            (value_at naturals (codes "403") later - value_at naturals (codes "403") earlier)
            (float_zero naturals)
          then float_zero naturals
          else value_at naturals (codes "403") later - value_at naturals (codes "403") earlier)
      else none))
    × le naturals (float_zero naturals) (
        if ltb
          (value_at naturals (codes "403") later - value_at naturals (codes "403") earlier)
          (float_zero naturals)
        then float_zero naturals
        else value_at naturals (codes "403") later - value_at naturals (codes "403") earlier)
lookup-diff_maps_example = lookup-diff_maps naturals naturals-IsOrdered earlier later (codes "403")

-- A Prometheus that is down, and counts the attempts.
abbrev down : Client ℕ
down = record {
  do_get = λ url n. (none, n + 1);
  encode = λ q. [];
  decode_response = λ body. none;
  decode_matrix = λ result. none;
  decode_vector = λ result. none;
}

collect-unreachable_example :
    (collect naturals down (new_prometheus_collector []) 100 200 0).0 ≡ no_metrics naturals
collect-unreachable_example =
    collect-unreachable naturals down (new_prometheus_collector []) (λ url n. refl) 100 200 0

abbrev exposition : List Line
exposition =
    foreign (codes "# TYPE up gauge")
    ∷ sample (codes "code=\"200\"") (codes "12")
    ∷ foreign (codes "up_other{a=\"b\"} 4")
    ∷ sample (codes "code=\"404\"") (codes "1e3")
    ∷ []
