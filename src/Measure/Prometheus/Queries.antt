-- ===== src/Measure/Prometheus/Queries.antt =====
-- The queries of the collector: `QueryRange`, `QueryInstantDelta` and the others, and `Collect`.
use s3proxy4gcs.Base.{ℕ, not, List, [], ◌++◌, Text, Dict, codes, insert, decimal, if◌then◌else◌}
use s3proxy4gcs.Base.Result.{Result, ok, err, ◌>>=◌}
use s3proxy4gcs.Measure.Number.{Float}
use s3proxy4gcs.Measure.Prometheus.{
  Client, PrometheusCollector, QueryError, VectorEntry, get, result_of, entries,
}
use s3proxy4gcs.Measure.Prometheus.Samples.{
  Stats, PodMetrics, float_zero, no_stats, stats_of, all_samples, by_label, sum_samples, diff_maps,
  copy_nonzero, or_no_stats, or_no_values, no_metrics,
}

module _ (fl : Float) {N : Type 0} (cl : Client N) (pc : PrometheusCollector) where
  -- The samples of the answer to a range query.
  unfoldable pub range_samples : Result QueryError Text → Result QueryError (List fl.F)
  unfolding result_of entries all_samples
  range_samples answer = answer >>= λ body. result_of cl body >>= λ result.
      entries cl cl.decode_matrix result >>= λ series. ok (all_samples fl series)

  -- `QueryRange`.
  unfoldable pub query_range : Text → ℕ → ℕ → ℕ → N → Result QueryError (Stats fl.F) × N
  unfolding get range_samples stats_of
  query_range query start end step n =
      if not pc.enabled
      then (ok (no_stats fl), n)
      else (let params = insert (codes "step") (decimal step ++ codes "s") (
            insert (codes "end") (decimal end)
              (insert (codes "start") (decimal start) (insert (codes "query") query []))) in
          let (answer, n') =
            get cl (pc.base_url ++ codes "/api/v1/query_range?" ++ cl.encode params) n in
          (range_samples answer >>= λ all. ok (stats_of fl all), n'))

  -- The vector of the answer to an instant query.
  unfoldable pub instant_vector : Text → ℕ → N → Result QueryError (List VectorEntry) × N
  unfolding get result_of entries
  instant_vector query time n =
      let params = insert (codes "time") (decimal time) (insert (codes "query") query []) in
      let (answer, n') = get cl (pc.base_url ++ codes "/api/v1/query?" ++ cl.encode params) n in
      (answer >>= λ body. result_of cl body >>= λ result. entries cl cl.decode_vector result, n')

  -- `queryInstantLabeled`.
  unfoldable pub query_instant_labeled : Text → ℕ → Text → N → Result QueryError (Dict fl.F) × N
  unfolding instant_vector by_label
  query_instant_labeled query time name n =
      if not pc.enabled
      then (ok [], n)
      else (let (vec, n') = instant_vector query time n in
          (vec >>= λ entries. ok (by_label fl name entries []), n'))

  -- `queryInstantScalar`.
  unfoldable pub query_instant_scalar : Text → ℕ → N → Result QueryError fl.F × N
  unfolding instant_vector sum_samples
  query_instant_scalar query time n =
      let (vec, n') = instant_vector query time n in
      (vec >>= λ entries. ok (sum_samples fl (float_zero fl) entries), n')

  -- `QueryInstantDelta`: the second query is made only if the first succeeds.
  unfoldable pub query_instant_delta : Text → ℕ → ℕ → N → Result QueryError fl.F × N
  unfolding query_instant_scalar
  query_instant_delta query start end n =
      if not pc.enabled
      then (ok (float_zero fl), n)
      else (let (first, n') = query_instant_scalar query start n in
          elim first [
            | err e ↦ (err e, n')
            | ok start_v ↦
                let (second, n'') = query_instant_scalar query end n' in
                (second >>= λ end_v. ok (fl.sub end_v start_v), n'')
          ])

  -- The values of a label at the start and at the end, and what they differ by.
  unfoldable pub label_deltas : Text → Text → ℕ → ℕ → N → Dict fl.F × N
  label_deltas query name start end n =
      let (first, n₁) = query_instant_labeled query start name n in
      let (second, n₂) = query_instant_labeled query end name n₁ in
      (copy_nonzero fl (diff_maps fl (or_no_values fl first) (or_no_values fl second)) [], n₂)

  -- What `Collect` does where the collector is enabled.
  unfoldable pub collect_all : ℕ → ℕ → N → PodMetrics fl.F × N
  collect_all start end n =
      let ask : Text → N → Result QueryError (Stats fl.F) × N =
        λ expr m. query_range expr start end 5 m in
      let sel = pc.pod_selector in
      let (rx, n₁) =
        ask (codes "sum(rate(container_network_receive_bytes_total{" ++ sel ++ codes "}[60s]))")
          n in
      let (tx, n₂) =
        ask (codes "sum(rate(container_network_transmit_bytes_total{" ++ sel ++ codes "}[60s]))")
          n₁ in
      let (cpu, n₃) =
        ask
          (codes "sum(rate(container_cpu_usage_seconds_total{"
            ++ sel
            ++ codes ",container!=\"POD\",container!=\"\"}[60s]))")
          n₂ in
      let (memory, n₄) =
        ask
          (codes "sum(container_memory_working_set_bytes{"
            ++ sel
            ++ codes ",container!=\"POD\",container!=\"\"}) / 1024 / 1024")
          n₃ in
      let (goroutines, n₅) = ask (codes "sum(go_goroutines{job=~\"s3proxy\"})") n₄ in
      let (rate, n₆) = ask (codes "sum(rate(s3proxy_http_requests_total[60s]))") n₅ in
      let (status_codes, n₇) =
        label_deltas (codes "sum by (status_code) (s3proxy_http_requests_total)")
          (codes "status_code") start end n₆ in
      let (endpoint_ops, n₈) =
        label_deltas (codes "sum by (endpoint) (s3proxy_http_requests_total)") (codes "endpoint")
          start end n₇ in
      (
        record {
          net_rx_bps = or_no_stats fl rx;
          net_tx_bps = or_no_stats fl tx;
          cpu_cores = or_no_stats fl cpu;
          memory_mb = or_no_stats fl memory;
          goroutines = or_no_stats fl goroutines;
          http_req_rate = or_no_stats fl rate;
          status_codes = status_codes;
          endpoint_ops = endpoint_ops;
        },
        n₈,
      )

  -- `Collect`, which has no error of its own.
  unfoldable pub collect : ℕ → ℕ → N → PodMetrics fl.F × N
  unfolding collect_all
  collect start end n = if not pc.enabled then (no_metrics fl, n) else collect_all start end n
