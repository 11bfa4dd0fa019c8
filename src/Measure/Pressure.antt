-- ===== src/Measure/Pressure.antt =====
-- sdk_tests/go-v2/pressure/main.go: the workers that send requests side by side until the deadline,
-- and the report. A duration is in nanoseconds.
pub mod Counts
pub mod Percentiles
use s3proxy4gcs.Base.{
  ℕ, zero, suc, ◌+◌, ◌-◌, ◌/◌, Bool, true, false, Option, none, some, List, [], ◌∷◌, ◌++◌, length,
  ltb, leb, Text, codes, is_nil, if◌then◌else◌,
}
use s3proxy4gcs.Measure.Number.{Float}

-- What `doOnce` comes to: an error, or the time that it took.
pub data Outcome : Type 0 where
  failed : Outcome
  took : ℕ → Outcome

-- Where a worker stands: at the test of the deadline, in `doOnce`, behind `total.Add(1)`, or at its
-- end, behind the append to the latencies of all.
pub data Phase : Type 0 where
  at_deadline in_request finished : Phase
  counted : Outcome → Phase

pub record Worker : Type 0 where
  pub phase : Phase
  pub local : List ℕ

-- What the workers share.
pub record Shared : Type 0 where
  pub total : ℕ
  pub errs : ℕ
  pub latencies : List ℕ

-- What the clock or the client tells the worker that goes on: the deadline is not reached yet, or
-- the outcome of its request.
pub data Input : Type 0 where
  clock : Bool → Input
  outcome : Outcome → Input
  goes_on : Input

-- One atomic step of a worker: an addition to a counter, or what stands under the lock.
unfoldable pub advance : Input → Worker → Shared → Worker × Shared
advance (clock before) w s = elim w.phase [
  | at_deadline ↦
      if before
      then (record w { phase = in_request }, s)
      else (record w { phase = finished }, record s { latencies = s.latencies ++ w.local })
  | in_request ↦ (w, s)
  | finished ↦ (w, s)
  | counted o ↦ (w, s)
]
advance (outcome o) w s = elim w.phase [
  | in_request ↦ (record w { phase = counted o }, record s { total = s.total + 1 })
  | at_deadline ↦ (w, s)
  | finished ↦ (w, s)
  | counted o' ↦ (w, s)
]
advance goes_on w s = elim w.phase [
  | counted o ↦ elim o [
    | failed ↦ (record w { phase = at_deadline }, record s { errs = s.errs + 1 })
    | took d ↦ (record { phase = at_deadline; local = w.local ++ (d ∷ []) }, s)
  ]
  | at_deadline ↦ (w, s)
  | in_request ↦ (w, s)
  | finished ↦ (w, s)
]

-- The workers and what they share.
pub record Run : Type 0 where
  pub workers : List Worker
  pub shared : Shared

-- The worker at the place goes on; there is nothing to do where there is no such worker.
unfoldable pub advance_nth : ℕ → Input → List Worker → Shared → List Worker × Shared
unfolding advance
advance_nth i e [] s = ([], s)
advance_nth zero e (w ∷ ws) s = let (w', s') = advance e w s in (w' ∷ ws, s')
advance_nth (suc i) e (w ∷ ws) s = let (ws', s') = advance_nth i e ws s in (w ∷ ws', s')

-- A schedule: which worker goes on, and what it is told.
unfoldable pub run : Run → List (ℕ × Input) → Run
unfolding advance_nth
run r [] = r
run r ((i, e) ∷ es) =
    let (ws, s) = advance_nth i e r.workers r.shared in run (record { workers = ws; shared = s }) es

unfoldable pub fresh_workers : ℕ → List Worker
fresh_workers zero = []
fresh_workers (suc n) = record { phase = at_deadline; local = [] } ∷ fresh_workers n

unfoldable pub start : ℕ → Run
unfolding fresh_workers
start concurrency = record {
  workers = fresh_workers concurrency;
  shared = record { total = 0; errs = 0; latencies = [] };
}

-- `wg.Wait()` returns.
abbrev pub is_finished : Phase → Bool
is_finished finished = true
is_finished _ = false

abbrev pub all_finished : List Worker → Bool
all_finished [] = true
all_finished (w ∷ ws) = if is_finished w.phase then all_finished ws else false

-- `sort.Slice(latencies, …)` in ascending order.
insert : ℕ → List ℕ → List ℕ
insert d [] = d ∷ []
insert d (e ∷ es) = let rest = insert d es in if leb d e then d ∷ e ∷ es else e ∷ rest

unfoldable pub sort : List ℕ → List ℕ
unfolding insert
sort [] = []
sort (d ∷ ds) = insert d (sort ds)

-- `ds[i]`, which panics outside of the slice.
abbrev pub get_elem? : List ℕ → ℕ → Option ℕ
get_elem? [] i = none
get_elem? (d ∷ ds) zero = some d
get_elem? (d ∷ ds) (suc i) = get_elem? ds i

sum : List ℕ → ℕ
sum [] = 0
sum (d ∷ ds) = d + sum ds

module _ (fl : Float) where
  -- `float64(d.Microseconds()) / 1000.0`.
  unfoldable pub to_ms : ℕ → fl.F
  to_ms d = fl.div (fl.of_nat (d / 1000)) (fl.of_nat 1000)

  abbrev to_ms_of : Option ℕ → Option fl.F
  to_ms_of none = none
  to_ms_of (some d) = some (to_ms d)

  -- The index of `percentileMs`, for the percentile in hundredths.
  unfoldable pub percentile_index : List ℕ → ℕ → ℕ
  percentile_index sorted p =
      let idx = fl.trunc (fl.mul (fl.of_nat (length sorted)) (fl.hundredths p)) in
      if leb (length sorted) idx then length sorted - 1 else idx

  -- `percentileMs`, where `none` is a panic.
  unfoldable pub percentile_ms : List ℕ → ℕ → Option fl.F
  unfolding percentile_index to_ms
  percentile_ms sorted p =
      if is_nil sorted
      then some (fl.of_nat 0)
      else to_ms_of (get_elem? sorted (percentile_index sorted p))

  unfoldable pub max_ms : List ℕ → Option fl.F
  unfolding to_ms
  max_ms sorted =
      if is_nil sorted then some (fl.of_nat 0) else to_ms_of (get_elem? sorted (length sorted - 1))

  unfoldable pub avg_ms : List ℕ → fl.F
  unfolding sum
  avg_ms ds =
      if is_nil ds
      then fl.of_nat 0
      else fl.div (fl.div (fl.of_nat (sum ds / 1000)) (fl.of_nat 1000)) (fl.of_nat (length ds))

  -- The latencies of the report.
  pub record LatencyMs : Type 0 where
    pub p50 : Option fl.F
    pub p95 : Option fl.F
    pub p99 : Option fl.F
    pub max : Option fl.F
    pub avg : fl.F

  -- The counts and the latencies of the report; the rest of it repeats the flags and the clock.
  pub record Report : Type 0 where
    pub total_requests : ℕ
    pub success : ℕ
    pub error : ℕ
    pub error_rate : fl.F
    pub throughput_rps : fl.F
    pub latency : LatencyMs

  -- `wall` is `wall.Seconds()`.
  unfoldable pub report : Shared → fl.F → Report
  unfolding sort percentile_ms max_ms avg_ms
  report s wall =
      let latencies = sort s.latencies in
      record {
        total_requests = s.total;
        success = length latencies;
        error = s.errs;
        error_rate =
            if ltb 0 s.total then fl.div (fl.of_nat s.errs) (fl.of_nat s.total) else fl.of_nat 0;
        throughput_rps =
            if fl.lt (fl.of_nat 0) wall
            then fl.div (fl.of_nat (length latencies)) wall
            else fl.of_nat 0;
        latency = record {
          p50 = percentile_ms latencies 50;
          p95 = percentile_ms latencies 95;
          p99 = percentile_ms latencies 99;
          max = max_ms latencies;
          avg = avg_ms latencies;
        };
      }
