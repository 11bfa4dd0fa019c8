-- ===== src/Metrics/Writer/Transparent.antt =====
-- What the response writers of the middleware count and record, against what the client gets.
use s3proxy4gcs.Base.{
  ℕ, ◌+◌, ◌≤◌, ◌<◌, ◌≡◌, refl, sym, ap, ◌∙◌, Bool, false, Option, none, some, List, [], ◌∷◌, Text,
  All, arith, Option-cases, inl, inr, if◌then◌else◌,
}
use s3proxy4gcs.Metrics.Writer.{
  ResponseWriter, Counting, Recording, counting, recording, counting_write_header, counting_write,
  recording_write_header, Call, call_header, call_write, call, run, new_counting, new_recording,
  observed_status,
}

abbrev pub status_or : Option ℕ → ℕ → ℕ
status_or none d = d
status_or (some c) d = c

-- A response writer of net/http: the status that is out, if one is, and the bytes of the body. The
-- first final status goes out, a status below 200 does not commit the response, a write sends the
-- status 200 if none is out, and a second status changes nothing.
pub record HttpWriter (S : Type 0) : Type 0 where
  pub writer : ResponseWriter S
  pub code : S → Option ℕ
  pub sent : S → ℕ
  pub first_header :
      (c : ℕ) (s : S) → 200 ≤ c → code s ≡ none → code (writer.write_header c s) ≡ some c
  pub informational : (c : ℕ) (s : S) → c < 200 → code (writer.write_header c s) ≡ code s
  pub later_header : (c d : ℕ) (s : S) → code s ≡ some d → writer.write_header c s ≡ s
  pub header_sent : (c : ℕ) (s : S) → sent (writer.write_header c s) ≡ sent s
  pub write_code : (b : Text) (s : S) → code (writer.write b s).1 ≡ some (status_or (code s) 200)
  pub write_sent : (b : Text) (s : S) → sent (writer.write b s).1 ≡ sent s + (writer.write b s).0

-- A status that a handler gives is a final one.
abbrev pub IsFinal : Call → Type 0
IsFinal (call_header c) = 200 ≤ c
IsFinal (call_write b) = Unit

-- The writers of a request, from the inside: that of net/http, the recorder of the request log and
-- the counter of the metrics.
abbrev pub logged : {S : Type 0} → HttpWriter S → ResponseWriter (Counting (Recording S))
logged http = counting (recording http.writer)

module _ {S : Type 0} (http : HttpWriter S) where
  -- The counter and the recorder agree with the writer inside.
  record IsAccurate (w : Counting (Recording S)) : Type 0 where
    counts : w.bytes ≡ http.sent w.inner.inner
    records : w.inner.status ≡ w.status
    knows : http.code w.inner.inner ≡ (if w.wrote_header then some w.status else none)
    default_status : w.wrote_header ≡ false → w.status ≡ 200

  header-IsAccurate :
      (c : ℕ) (w : Counting (Recording S))
      → 200 ≤ c
      → IsAccurate w
      → IsAccurate (counting_write_header (recording http.writer) c w)
  unfolding counting_write_header recording_write_header
  header-IsAccurate c w final h = record {
    counts = ground (arith, http.header_sent c w.inner.inner, h.counts);
    records = ground (arith, h.records);
    knows = ground (arith, http.first_header c w.inner.inner final, h.knows);
    default_status = λ off. ground (arith, off, h.default_status);
  }

  header-same :
      (c : ℕ) (w : Counting (Recording S))
      → IsAccurate w
      → (counting_write_header (recording http.writer) c w).inner.inner
        ≡ http.writer.write_header c w.inner.inner
  unfolding counting_write_header recording_write_header
  header-same c w h = ground (arith, http.later_header c w.status w.inner.inner, h.knows)

  write-IsAccurate :
      (b : Text) (w : Counting (Recording S))
      → IsAccurate w
      → IsAccurate (counting_write (recording http.writer) b w).1
  unfolding counting_write
  write-IsAccurate b w h = record {
    counts = ground (arith, http.write_sent b w.inner.inner, h.counts);
    records = ground (arith, h.records, h.default_status);
    knows = ground (arith, http.write_code b w.inner.inner, h.knows);
    default_status = λ off. ground (arith, off);
  }

  call-IsAccurate :
      (c : Call) (w : Counting (Recording S))
      → IsFinal c
      → IsAccurate w
      → IsAccurate (call (logged http) c w)
  unfolding call
  call-IsAccurate (call_header c) w final h = header-IsAccurate c w final h
  call-IsAccurate (call_write b) w final h = write-IsAccurate b w h

  call-same :
      (c : Call) (w : Counting (Recording S))
      → IsAccurate w
      → (call (logged http) c w).inner.inner ≡ call http.writer c w.inner.inner
  unfolding call counting_write
  call-same (call_header c) w h = header-same c w h
  call-same (call_write b) w h = refl

  run-IsAccurate :
      (cs : List Call) (w : Counting (Recording S))
      → All IsFinal cs
      → IsAccurate w
      → IsAccurate (run (logged http) cs w)
        × ((run (logged http) cs w).inner.inner ≡ run http.writer cs w.inner.inner)
  unfolding run
  run-IsAccurate [] w finals h = (h, refl)
  run-IsAccurate (c ∷ cs) w (final, finals) h =
      let (accurate, same) =
        run-IsAccurate cs (call (logged http) c w) finals (call-IsAccurate c w final h) in
      (accurate, same ∙ ap (run http.writer cs) (call-same c w h))

  new-IsAccurate :
      (s : S) → http.code s ≡ none → http.sent s ≡ 0 → IsAccurate (new_counting (new_recording s))
  new-IsAccurate s fresh empty = record {
    counts = sym empty;
    records = refl;
    knows = fresh;
    default_status = λ off. refl;
  }

  observed-IsAccurate :
      (panicked : Bool) (w : Counting (Recording S))
      → IsAccurate w
      → observed_status panicked w
        ≡ status_or (http.code w.inner.inner) (if panicked then 500 else 200)
  unfolding observed_status
  observed-IsAccurate panicked w h = ground (arith, h.knows, h.default_status)

  -- A panic sends 500, if no status is out.
  code-recovered :
      (t : S) → http.code (http.writer.write_header 500 t) ≡ some (status_or (http.code t) 500)
  code-recovered t = elim (Option-cases (http.code t)) [
    | inl e ↦ rw e (http.first_header 500 t (ground arith) e)
    | inr (d, e) ↦ rw e (ap http.code (http.later_header 500 d t e) ∙ e)
  ]

  recorded-IsAccurate :
      (w : Counting (Recording S))
      → IsAccurate w
      → w.inner.status ≡ status_or (http.code w.inner.inner) 200
  recorded-IsAccurate w h = ground (arith, h.records, h.knows, h.default_status)

-- What stands between the recorder and the counter: `middleware.Recoverer` of chi answers a panic,
-- other than `http.ErrAbortHandler` and outside of an upgraded connection, with the status 500. It
-- writes to the recorder, and finds it as the counter has left it.
abbrev pub IsRecoverer : {S : Type 0} → ResponseWriter S → (Recording S → Recording S) → Type 0
IsRecoverer {S = S} rw recoverer =
    (w : Recording S) → recoverer w ≡ (recording rw).write_header 500 w

-- Whatever a handler writes through the middleware before it returns or panics, as long as its
-- statuses are final ones, and if the recoverer between the two middlewares gives a panic the status
-- 500: the client gets the response that the handler would have written to it directly, and 500 for
-- a panic where no status is out; the metrics count the status that the client gets, or 200 where
-- the handler returned without one, and the bytes that the handler wrote; and the request log has
-- the same status after a return, and 500 after a panic, also where another status was out before.
pub run-logged :
    {S : Type 0} (http : HttpWriter S) (recoverer : Recording S → Recording S)
    → IsRecoverer http.writer recoverer
    → (cs : List Call) (s : S) (panicked : Bool) → All IsFinal cs
    → http.code s ≡ none
    → http.sent s ≡ 0
    → let w = run (logged http) cs (new_counting (new_recording s)) in
      let response = run http.writer cs s in
      let last = if panicked then recoverer w.inner else w.inner in
      (last.inner ≡ (if panicked then http.writer.write_header 500 response else response))
      × (http.code last.inner
          ≡ (if panicked then some (status_or (http.code response) 500) else http.code response))
      × (observed_status panicked w
          ≡ status_or (http.code response) (if panicked then 500 else 200))
      × (w.bytes ≡ http.sent response)
      × (last.status ≡ (if panicked then 500 else status_or (http.code response) 200))
unfolding recording_write_header
run-logged http recoverer law cs s panicked finals fresh empty =
    let w = run (logged http) cs (new_counting (new_recording s)) in
    let (accurate, same) =
      run-IsAccurate http cs (new_counting (new_recording s)) finals
        (new-IsAccurate http s fresh empty) in
    (
      ground (arith, same, law w.inner),
      ground (arith, same, law w.inner, code-recovered http (run http.writer cs s)),
      observed-IsAccurate http panicked w accurate
          ∙ ap (λ t. status_or (http.code t) (if panicked then 500 else 200)) same,
      accurate.counts ∙ ap http.sent same,
      ground (arith, law w.inner, recorded-IsAccurate http w accurate, same),
    )

-- A handler that sends an informational status and then its final one gets the informational one
-- counted, and the client never gets the final one, which it would get without the middleware.
pub run-informational :
    {S : Type 0} (http : HttpWriter S) (hint c : ℕ) (s : S)
    → hint < 200
    → 200 ≤ c
    → http.code s ≡ none
    → let calls = call_header hint ∷ call_header c ∷ [] in
      let w = run (counting http.writer) calls (new_counting s) in
      (w.status ≡ hint)
      × (http.code w.inner ≡ none)
      × (http.code (run http.writer calls s) ≡ some c)
unfolding run call counting_write_header
run-informational http hint c s early final fresh =
    let unsent = http.informational hint s early ∙ fresh in
    (refl, unsent, http.first_header c _ final unsent)
