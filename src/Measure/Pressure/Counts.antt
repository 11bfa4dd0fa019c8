-- ===== src/Measure/Pressure/Counts.antt =====
-- No request is lost or counted twice, however the workers interleave.
use s3proxy4gcs.Base.{
  ℕ, zero, suc, ◌+◌, ◌≡◌, refl, ap, ◌∙◌, true, false, inl, inr, Bool-cases, leb, List, [], ◌∷◌,
  length, length-append, arith,
}
use s3proxy4gcs.Measure.Pressure.{
  failed, took, Phase, at_deadline, in_request, finished, counted, Worker, Shared, Input, clock,
  outcome, goes_on, advance, Run, advance_nth, run, fresh_workers, start, is_finished, all_finished,
  insert, sort, report,
}
use s3proxy4gcs.Measure.Number.{Float}
use mathlib.Core.Bool.{false≢true}

-- The requests that a worker has counted and not reported yet.
abbrev unreported_by : Phase → List ℕ → ℕ
unreported_by finished local = 0
unreported_by (counted o) local = length local + 1
unreported_by at_deadline local = length local
unreported_by in_request local = length local

abbrev unreported : Worker → ℕ
unreported w = unreported_by w.phase w.local

abbrev unreported_all : List Worker → ℕ
unreported_all [] = 0
unreported_all (w ∷ ws) = unreported w + unreported_all ws

-- Every request that is counted is an error, a latency of all, or not reported yet.
abbrev IsCounted : ℕ → Shared → Type 0
IsCounted pending s = s.total ≡ s.errs + length s.latencies + pending

advance-counts :
    (e : Input) (phase : Phase) (local : List ℕ) (s : Shared) (rest : ℕ)
    → IsCounted (unreported (record { phase = phase; local = local }) + rest) s
    → IsCounted
        (unreported (advance e (record { phase = phase; local = local }) s).0 + rest)
        (advance e (record { phase = phase; local = local }) s).1
unfolding advance
advance-counts (clock true) at_deadline local s rest h = h
advance-counts (clock false) at_deadline local s rest h =
    omega (arith, h, length-append s.latencies local)
advance-counts (clock b) in_request local s rest h = h
advance-counts (clock b) finished local s rest h = h
advance-counts (clock b) (counted o) local s rest h = h
advance-counts (outcome o) in_request local s rest h = omega (arith, h)
advance-counts (outcome o) at_deadline local s rest h = h
advance-counts (outcome o) finished local s rest h = h
advance-counts (outcome o) (counted o') local s rest h = h
advance-counts goes_on (counted failed) local s rest h = omega (arith, h)
advance-counts goes_on (counted (took d)) local s rest h =
    omega (arith, h, length-append local (d ∷ []))
advance-counts goes_on at_deadline local s rest h = h
advance-counts goes_on in_request local s rest h = h
advance-counts goes_on finished local s rest h = h

advance_nth-counts :
    (i : ℕ) (e : Input) (ws : List Worker) (s : Shared) (rest : ℕ)
    → IsCounted (unreported_all ws + rest) s
    → IsCounted (unreported_all (advance_nth i e ws s).0 + rest) (advance_nth i e ws s).1
unfolding advance_nth
advance_nth-counts i e [] s rest h = h
advance_nth-counts zero e (w ∷ ws) s rest h =
    omega (arith, advance-counts e w.phase w.local s (unreported_all ws + rest) (omega (arith, h)))
advance_nth-counts (suc i) e (w ∷ ws) s rest h =
    omega (arith, advance_nth-counts i e ws s (unreported w + rest) (omega (arith, h)))

run-counts :
    (r : Run) (es : List (ℕ × Input))
    → IsCounted (unreported_all r.workers) r.shared
    → IsCounted (unreported_all (run r es).workers) (run r es).shared
unfolding run
run-counts r [] h = h
run-counts r ((i, e) ∷ es) h =
    let next = advance_nth i e r.workers r.shared in
    run-counts (record { workers = next.0; shared = next.1 }) es
      (omega (arith, advance_nth-counts i e r.workers r.shared 0 (omega (arith, h))))

fresh_workers-counts : (n : ℕ) → unreported_all (fresh_workers n) ≡ 0
unfolding fresh_workers
fresh_workers-counts zero = refl
fresh_workers-counts (suc n) = omega (arith, fresh_workers-counts n)

finished-reported :
    (phase : Phase) (local : List ℕ) → is_finished phase ≡ true → unreported_by phase local ≡ 0
finished-reported finished local h = refl
finished-reported at_deadline local h = absurd (false≢true h)
finished-reported in_request local h = absurd (false≢true h)
finished-reported (counted o) local h = absurd (false≢true h)

all_finished-reported : (ws : List Worker) → all_finished ws ≡ true → unreported_all ws ≡ 0
all_finished-reported [] h = refl
all_finished-reported (w ∷ ws) h = elim (Bool-cases (is_finished w.phase)) [
  | inl e ↦
      omega (
        arith,
        finished-reported w.phase w.local e,
        all_finished-reported ws (ground (arith, h, e)),
      )
  | inr e ↦ absurd (ground (arith, h, e))
]

length-insert : (d : ℕ) (ds : List ℕ) → length (insert d ds) ≡ suc (length ds)
unfolding insert
length-insert d [] = refl
length-insert d (e ∷ es) = elim (Bool-cases (leb d e)) [
  | inl b ↦ rw b refl
  | inr b ↦ rw (b, length-insert d es) refl
]

length-sort : (ds : List ℕ) → length (sort ds) ≡ length ds
unfolding sort
length-sort [] = refl
length-sort (d ∷ ds) = length-insert d (sort ds) ∙ ap suc (length-sort ds)

-- In whatever order the steps of the workers interleave, and whatever the clock says and the
-- requests come to: when all the workers have ended, the report has as many requests as successes
-- and errors together.
pub report-run :
    (fl : Float) (wall : fl.F) (concurrency : ℕ) (es : List (ℕ × Input))
    → all_finished (run (start concurrency) es).workers ≡ true
    → let rep = report fl (run (start concurrency) es).shared wall in
      rep.total_requests ≡ rep.success + rep.error
unfolding report start
report-run fl wall concurrency es done =
    let r = run (start concurrency) es in
    let counts =
      run-counts (start concurrency) es (omega (arith, fresh_workers-counts concurrency)) in
    omega (arith, counts, all_finished-reported r.workers done, length-sort r.shared.latencies)
