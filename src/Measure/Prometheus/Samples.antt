-- ===== src/Measure/Prometheus/Samples.antt =====
-- The numbers of the collector: `sampleFloat`, `statsOf`, `round4`, `diffMaps`, and the loops of the
-- queries over what Prometheus returns.
use s3proxy4gcs.Base.{
  Bool, ◌||◌, Option, none, some, List, [], ◌∷◌, ◌++◌, length, Text, Dict, codes, lookup, insert,
  is_nil, if◌then◌else◌,
}
use s3proxy4gcs.Base.Result.{Result, ok, err}
use s3proxy4gcs.Measure.Number.{Float}
use s3proxy4gcs.Measure.Prometheus.{Json, MatrixEntry, QueryError, VectorEntry, text, other}

-- `Stats`.
pub record Stats (F : Type 0) : Type 0 where
  pub max : F
  pub min : F
  pub avg : F

-- `PodMetrics`.
pub record PodMetrics (F : Type 0) : Type 0 where
  pub net_rx_bps : Stats F
  pub net_tx_bps : Stats F
  pub cpu_cores : Stats F
  pub memory_mb : Stats F
  pub goroutines : Stats F
  pub http_req_rate : Stats F
  pub status_codes : Dict F
  pub endpoint_ops : Dict F

module _ (fl : Float) where
  abbrev pub float_zero : fl.F
  float_zero = fl.of_nat 0

  abbrev pub no_stats : Stats fl.F
  no_stats = record { max = float_zero; min = float_zero; avg = float_zero }

  -- `sampleFloat`.
  unfoldable pub sample_float : Json → Option fl.F
  sample_float (text s) = fl.parse s
  sample_float other = none

  -- `round4`.
  unfoldable pub round4 : fl.F → fl.F
  round4 v = fl.div (fl.round (fl.mul v (fl.of_nat 10000))) (fl.of_nat 10000)

  -- The loop of `statsOf`: the least, the greatest and the sum so far.
  unfoldable pub least : fl.F → List fl.F → fl.F
  least m [] = m
  least m (v ∷ vs) = least (if fl.lt v m then v else m) vs

  unfoldable pub greatest : fl.F → List fl.F → fl.F
  greatest m [] = m
  greatest m (v ∷ vs) = greatest (if fl.lt m v then v else m) vs

  unfoldable pub sum_of : fl.F → List fl.F → fl.F
  sum_of total [] = total
  sum_of total (v ∷ vs) = sum_of (fl.add total v) vs

  unfoldable pub stats_of : List fl.F → Stats fl.F
  unfolding least greatest sum_of round4
  stats_of [] = no_stats
  stats_of (x ∷ xs) = record {
    max = round4 (greatest x (x ∷ xs));
    min = round4 (least x (x ∷ xs));
    avg = round4 (fl.div (sum_of float_zero (x ∷ xs)) (fl.of_nat (length (x ∷ xs))));
  }

  -- The samples of a series that are numbers, and those of all series.
  unfoldable pub kept : Option fl.F → List fl.F → List fl.F
  kept none rest = rest
  kept (some v) rest = if fl.is_nan v then rest else v ∷ rest

  unfoldable pub samples : List (Json × Json) → List fl.F
  unfolding kept sample_float
  samples [] = []
  samples ((ts, v) ∷ ps) = kept (sample_float v) (samples ps)

  unfoldable pub all_samples : List MatrixEntry → List fl.F
  unfolding samples
  all_samples [] = []
  all_samples (s ∷ ss) = samples s.values ++ all_samples ss

  -- The map that the loop of `queryInstantLabeled` fills.
  abbrev pub label_of : Text → VectorEntry → Text
  label_of name entry = elim (lookup name entry.metric) [
    | none ↦ codes "unknown"
    | some key ↦ if is_nil key then codes "unknown" else key
  ]

  unfoldable pub by_label : Text → List VectorEntry → Dict fl.F → Dict fl.F
  unfolding sample_float
  by_label name [] out = out
  by_label name (entry ∷ vec) out = elim (sample_float entry.value.1) [
    | none ↦ by_label name vec out
    | some v ↦ by_label name vec (insert (label_of name entry) v out)
  ]

  -- The sum of `queryInstantScalar`.
  unfoldable pub sum_samples : fl.F → List VectorEntry → fl.F
  unfolding sample_float
  sum_samples total [] = total
  sum_samples total (entry ∷ vec) = elim (sample_float entry.value.1) [
    | none ↦ sum_samples total vec
    | some v ↦ sum_samples (fl.add total v) vec
  ]

  -- A key that a map does not have counts as zero.
  abbrev pub value_at : Text → Dict fl.F → fl.F
  value_at k m = elim (lookup k m) [ none ↦ float_zero | some v ↦ v ]

  -- The difference at a key, and zero where a counter was reset.
  unfoldable pub clamped : Dict fl.F → Dict fl.F → Text → fl.F
  clamped start end k =
      let d = fl.sub (value_at k end) (value_at k start) in
      if fl.lt d float_zero then float_zero else d

  unfoldable pub fill : (Text → fl.F) → Dict fl.F → Dict fl.F → Dict fl.F
  fill f [] out = out
  fill f ((k, v) ∷ m) out = fill f m (insert k (f k) out)

  -- `diffMaps`, over the keys of both.
  unfoldable pub diff_maps : Dict fl.F → Dict fl.F → Dict fl.F
  unfolding clamped fill
  diff_maps start end = fill (clamped start end) end (fill (clamped start end) start [])

  -- The loop `if v != 0 { out[k] = v }`.
  unfoldable pub nonzero : fl.F → Bool
  nonzero v = fl.lt v float_zero || fl.lt float_zero v || fl.is_nan v

  unfoldable pub copy_nonzero : Dict fl.F → Dict fl.F → Dict fl.F
  unfolding nonzero
  copy_nonzero [] out = out
  copy_nonzero ((k, v) ∷ m) out = copy_nonzero m (if nonzero v then insert k v out else out)

  -- What a failed query leaves: the zero value.
  unfoldable pub or_no_stats : Result QueryError (Stats fl.F) → Stats fl.F
  or_no_stats (ok s) = s
  or_no_stats (err e) = no_stats

  unfoldable pub or_no_values : Result QueryError (Dict fl.F) → Dict fl.F
  or_no_values (ok m) = m
  or_no_values (err e) = []

  abbrev pub no_metrics : PodMetrics fl.F
  no_metrics = record {
    net_rx_bps = no_stats;
    net_tx_bps = no_stats;
    cpu_cores = no_stats;
    memory_mb = no_stats;
    goroutines = no_stats;
    http_req_rate = no_stats;
    status_codes = [];
    endpoint_ops = [];
  }
