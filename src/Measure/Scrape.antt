-- ===== src/Measure/Scrape.antt =====
-- e2e_tests/metrics_collector.go: the collector that reads the text of /metrics.
pub mod Rendered
use s3proxy4gcs.Base.{
  ℕ, zero, suc, ◌-◌, ◌*◌, Bool, true, false, ◌&&◌, ◌||◌, not, Option, none, some, List, [], ◌∷◌,
  ◌++◌, ◌==◌, Text, codes, cut, cut_prefix, is_digit, is_nil, length, if◌then◌else◌,
}
use s3proxy4gcs.Measure.Number.{Float}

-- `\s`, and a character of the group `[\d.eE+\-]`.
abbrev pub is_space : ℕ → Bool
is_space c = c == 9 || c == 10 || c == 12 || c == 13 || c == 32

abbrev pub is_numeric : ℕ → Bool
is_numeric c = is_digit c || c == b'.' || c == b'e' || c == b'E' || c == b'+' || c == b'-'

-- The longest prefix of such characters, and the rest.
unfoldable pub span : (ℕ → Bool) → Text → Text × Text
span p [] = ([], [])
span p (c ∷ s) = let (front, rest) = span p s in if p c then (c ∷ front, rest) else ([], c ∷ s)

-- What is matched, unless the spaces or the group are empty.
abbrev pub grouped : Text → Text × Text → Option (Text × Text)
grouped spaces (number, rest) = if is_nil spaces || is_nil number then none else some (number, rest)

-- `\s+([\d.eE+\-]+)`: the group, and the rest.
unfoldable pub match_number : Text → Option (Text × Text)
unfolding span
match_number s = let (spaces, behind) = span is_space s in grouped spaces (span is_numeric behind)

abbrev pub behind_name : Option Text → Option (Text × Text)
behind_name none = none
behind_name (some behind) = match_number behind

-- The name without labels, and with them: `\{[^}]*\}`.
unfoldable pub match_plain : Text → Text → Option (Text × Text)
unfolding match_number
match_plain name s = behind_name (cut_prefix name s)

abbrev pub behind_labels : Option (Text × Text) → Option (Text × Text)
behind_labels none = none
behind_labels (some (inside, behind)) = match_number behind

abbrev pub behind_brace : Option Text → Option (Text × Text)
behind_brace none = none
behind_brace (some labels) = behind_labels (cut b'}' labels)

unfoldable pub match_labelled : Text → Text → Option (Text × Text)
unfolding match_number
match_labelled name s = behind_brace (cut_prefix (name ++ codes "{") s)

-- `FindStringSubmatch`, where `^` is the start of a line.
find_first : (Text → Option (Text × Text)) → Bool → Text → Option Text
find_first m at_start [] = none
find_first m at_start (c ∷ s) =
    let later = find_first m (c == b'\n') s in
    if at_start
    then elim (m (c ∷ s)) [ none ↦ later | some (number, rest) ↦ some number ]
    else later

-- `FindAllStringSubmatch`: the search goes on behind a match, so as many characters are skipped.
unfoldable pub find_all : (Text → Option (Text × Text)) → ℕ → Bool → Text → List Text
find_all m skip at_start [] = []
find_all m (suc skip) at_start (c ∷ s) = find_all m skip (c == b'\n') s
find_all m zero at_start (c ∷ s) =
    let later = find_all m zero (c == b'\n') s in
    if at_start
    then elim (m (c ∷ s)) [
      | none ↦ later
      | some (number, rest) ↦ number ∷ find_all m (length s - length rest) (c == b'\n') s
    ]
    else later

module _ (fl : Float) where
  abbrev pub parsed : Option fl.F → fl.F
  parsed none = fl.of_nat 0
  parsed (some v) = v

  -- `parseMetric`.
  unfoldable pub parse_metric : Text → Text → fl.F
  unfolding find_first match_plain
  parse_metric text name = elim (find_first (match_plain name) true text) [
    | none ↦ fl.of_nat 0
    | some number ↦ parsed (fl.parse number)
  ]

  -- The loop over the matches.
  unfoldable pub add_matches : fl.F → List Text → fl.F
  add_matches total [] = total
  add_matches total (number ∷ numbers) = elim (fl.parse number) [
    | none ↦ add_matches total numbers
    | some v ↦ add_matches (fl.add total v) numbers
  ]

  -- `sumCounterVec`.
  unfoldable pub sum_counter_vec : Text → Text → fl.F
  unfolding find_all match_labelled add_matches
  sum_counter_vec text name = add_matches (fl.of_nat 0) (find_all (match_labelled name) 0 true text)

  -- `sumHistogramCount`.
  unfoldable pub sum_histogram_count : Text → Text → fl.F
  unfolding find_all match_labelled add_matches parse_metric
  sum_histogram_count text name =
      let count_name = name ++ codes "_count" in
      fl.add (add_matches (fl.of_nat 0) (find_all (match_labelled count_name) 0 true text))
        (parse_metric text count_name)

  -- `SystemSnapshot`, without its time.
  pub record SystemSnapshot : Type 0 where
    pub cpu_seconds_total : fl.F
    pub resident_memory_mb : fl.F
    pub goroutines : fl.F
    pub heap_alloc_mb : fl.F
    pub heap_in_use_mb : fl.F
    pub open_fds : fl.F
    pub http_requests_total : fl.F
    pub gcs_api_calls : fl.F

  -- `Snapshot`, from the text of /metrics; `none` is an error of the client.
  unfoldable pub snapshot : Option Text → Option SystemSnapshot
  unfolding parse_metric sum_counter_vec sum_histogram_count
  snapshot none = none
  snapshot (some text) =
      let mega = fl.of_nat (1024 * 1024) in
      some (record {
        cpu_seconds_total = parse_metric text (codes "process_cpu_seconds_total");
        resident_memory_mb =
            fl.div (parse_metric text (codes "process_resident_memory_bytes")) mega;
        goroutines = parse_metric text (codes "go_goroutines");
        heap_alloc_mb = fl.div (parse_metric text (codes "go_memstats_alloc_bytes")) mega;
        heap_in_use_mb = fl.div (parse_metric text (codes "go_memstats_heap_inuse_bytes")) mega;
        open_fds = parse_metric text (codes "process_open_fds");
        http_requests_total = sum_counter_vec text (codes "s3proxy_http_requests_total");
        gcs_api_calls = sum_histogram_count text (codes "s3proxy_gcs_api_duration_seconds");
      })

  -- `SystemDelta`, without the two snapshots that it repeats.
  pub record SystemDelta : Type 0 where
    pub duration_sec : fl.F
    pub cpu_usage_percent : fl.F
    pub memory_delta_mb : fl.F
    pub peak_resident_mb : fl.F
    pub goroutine_delta : fl.F
    pub heap_alloc_delta_mb : fl.F
    pub http_requests_delta : fl.F
    pub gcs_api_calls_delta : fl.F

  -- `math.Round(v*100) / 100`.
  abbrev round2 : fl.F → fl.F
  round2 v = fl.div (fl.round (fl.mul v (fl.of_nat 100))) (fl.of_nat 100)

  -- `ComputeDelta`; the time is `wallClock.Seconds()`.
  unfoldable pub compute_delta : SystemSnapshot → SystemSnapshot → fl.F → SystemDelta
  compute_delta before after dur_sec =
      let cpu_delta = fl.sub after.cpu_seconds_total before.cpu_seconds_total in
      let cpu_percent =
        if fl.lt (fl.of_nat 0) dur_sec
        then fl.mul (fl.div cpu_delta dur_sec) (fl.of_nat 100)
        else fl.of_nat 0 in
      record {
        duration_sec = round2 dur_sec;
        cpu_usage_percent = round2 cpu_percent;
        memory_delta_mb = round2 (fl.sub after.resident_memory_mb before.resident_memory_mb);
        peak_resident_mb = fl.max before.resident_memory_mb after.resident_memory_mb;
        goroutine_delta = fl.sub after.goroutines before.goroutines;
        heap_alloc_delta_mb = round2 (fl.sub after.heap_alloc_mb before.heap_alloc_mb);
        http_requests_delta = fl.sub after.http_requests_total before.http_requests_total;
        gcs_api_calls_delta = fl.sub after.gcs_api_calls before.gcs_api_calls;
      }
