-- ===== src/Measure/Prometheus/Unreachable.antt =====
-- A Prometheus that cannot be reached never fails a measurement.
use s3proxy4gcs.Base.{
  ℕ, ◌≡◌, refl, ap, Bool, true, false, not, inl, inr, Bool-cases, none, [], Text, Dict,
  if◌then◌else◌,
}
use s3proxy4gcs.Base.Result.{Result, ok, err, ◌>>=◌}
use s3proxy4gcs.Measure.Number.{Float}
use s3proxy4gcs.Measure.Prometheus.{
  QueryError, unreachable, Client, PrometheusCollector, get, result_of, entries,
}
use s3proxy4gcs.Measure.Prometheus.Samples.{
  Stats, PodMetrics, no_metrics, no_stats, or_no_stats, or_no_values, diff_maps, copy_nonzero, fill,
  stats_of, by_label,
}
use s3proxy4gcs.Measure.Prometheus.Queries.{
  query_range, instant_vector, query_instant_labeled, label_deltas, collect_all, collect,
  range_samples,
}

either-way :
    {A N : Type 0} (b : Bool) (x y : A × N) (z : A) → x.0 ≡ z → y.0 ≡ z → (if b then x else y).0 ≡ z
either-way true x y z e f = e
either-way false x y z e f = f

module _ (fl : Float) {N : Type 0} (cl : Client N) (pc : PrometheusCollector)
    (down : (url : Text) (n : N) → (cl.do_get url n).0 ≡ none) where
  get-unreachable : (url : Text) (n : N) → (get cl url n).0 ≡ err unreachable
  unfolding get
  get-unreachable url n = rw (down url n) refl

  query_range-nothing :
      (query : Text) (start end step : ℕ) (n : N)
      → or_no_stats fl (query_range fl cl pc query start end step n).0 ≡ no_stats fl
  unfolding query_range range_samples or_no_stats
  query_range-nothing query start end step n = elim (Bool-cases pc.enabled) [
    | inr off ↦ rw off refl
    | inl on ↦ rw on (
        ap
          (λ answer. or_no_stats fl (range_samples fl cl pc answer >>= λ all. ok (stats_of fl all)))
          (get-unreachable _ n))
  ]

  labels-nothing :
      (query : Text) (time : ℕ) (name : Text) (n : N)
      → or_no_values fl (query_instant_labeled fl cl pc query time name n).0 ≡ []
  unfolding query_instant_labeled instant_vector or_no_values
  labels-nothing query time name n = elim (Bool-cases pc.enabled) [
    | inr off ↦ rw off refl
    | inl on ↦ rw on (
        ap
          (λ answer. or_no_values fl (
            (answer >>= λ body. result_of cl body >>= λ result. entries cl cl.decode_vector result)
            >>= λ vec. ok (by_label fl name vec [])))
          (get-unreachable _ n))
  ]

  label_deltas-nothing :
      (query name : Text) (start end : ℕ) (n : N)
      → (label_deltas fl cl pc query name start end n).0 ≡ []
  unfolding label_deltas diff_maps fill copy_nonzero
  label_deltas-nothing query name start end n =
      let (first, n₁) = query_instant_labeled fl cl pc query start name n in
      let none_first = labels-nothing query start name n in
      let none_second = labels-nothing query end name n₁ in rw (none_first, none_second) refl

  -- What `Collect` makes of the results of its queries.
  abbrev assemble :
      (rx tx cpu memory goroutines rate : Result QueryError (Stats fl.F))
      → Dict fl.F
      → Dict fl.F
      → PodMetrics fl.F
  assemble rx tx cpu memory goroutines rate codes ops = record {
    net_rx_bps = or_no_stats fl rx;
    net_tx_bps = or_no_stats fl tx;
    cpu_cores = or_no_stats fl cpu;
    memory_mb = or_no_stats fl memory;
    goroutines = or_no_stats fl goroutines;
    http_req_rate = or_no_stats fl rate;
    status_codes = codes;
    endpoint_ops = ops;
  }

  assemble-nothing :
      (rx tx cpu memory goroutines rate : Result QueryError (Stats fl.F)) (codes ops : Dict fl.F)
      → or_no_stats fl rx ≡ no_stats fl
      → or_no_stats fl tx ≡ no_stats fl
      → or_no_stats fl cpu ≡ no_stats fl
      → or_no_stats fl memory ≡ no_stats fl
      → or_no_stats fl goroutines ≡ no_stats fl
      → or_no_stats fl rate ≡ no_stats fl
      → codes ≡ []
      → ops ≡ []
      → assemble rx tx cpu memory goroutines rate codes ops ≡ no_metrics fl
  assemble-nothing rx tx cpu memory goroutines rate codes ops e₁ e₂ e₃ e₄ e₅ e₆ e₇ e₈ =
      rw (e₁, e₂, e₃, e₄, e₅, e₆, e₇, e₈) refl

  collect_all-nothing :
      (start end : ℕ) (n : N) → (collect_all fl cl pc start end n).0 ≡ no_metrics fl
  unfolding collect_all
  collect_all-nothing start end n =
      assemble-nothing _ _ _ _ _ _ _ _ (query_range-nothing _ start end 5 _)
        (query_range-nothing _ start end 5 _) (query_range-nothing _ start end 5 _)
        (query_range-nothing _ start end 5 _) (query_range-nothing _ start end 5 _)
        (query_range-nothing _ start end 5 _) (label_deltas-nothing _ _ start end _)
        (label_deltas-nothing _ _ start end _)

  -- When Prometheus cannot be reached, the collector still returns: with all its statistics zero
  -- and no counts, whether it is enabled or not.
  pub collect-unreachable :
      (start end : ℕ) (n : N) → (collect fl cl pc start end n).0 ≡ no_metrics fl
  unfolding collect
  collect-unreachable start end n =
      either-way (not pc.enabled) (no_metrics fl, n) (collect_all fl cl pc start end n)
        (no_metrics fl) refl (collect_all-nothing start end n)
