-- ===== src/Metrics/Writer.antt =====
-- `countingResponseWriter` and `WithMetrics` of pkg/metrics/metrics.go, with the `statusRecorder` of
-- main.go and of pkg/reqlog/reqlog.go: response writers around the one of net/http.
pub mod Transparent
use s3proxy4gcs.Base.{ℕ, ◌+◌, ◌&&◌, not, Bool, true, false, List, [], ◌∷◌, Text, if◌then◌else◌}

-- `http.ResponseWriter` over a state: `write` gives the number of bytes that were accepted.
pub record ResponseWriter (S : Type 0) : Type 0 where
  pub write_header : ℕ → S → S
  pub write : Text → S → ℕ × S

-- The fields of a `countingResponseWriter`, and the writer inside it.
pub record Counting (S : Type 0) : Type 0 where
  pub inner : S
  pub status : ℕ
  pub bytes : ℕ
  pub wrote_header : Bool

pub record Recording (S : Type 0) : Type 0 where
  pub inner : S
  pub status : ℕ

module _ {S : Type 0} (rw : ResponseWriter S) where
  unfoldable pub counting_write_header : ℕ → Counting S → Counting S
  counting_write_header code w =
      if w.wrote_header
      then w
      else record w { status = code; wrote_header = true; inner = rw.write_header code w.inner }

  unfoldable pub counting_write : Text → Counting S → ℕ × Counting S
  counting_write b w =
      let status = if w.wrote_header then w.status else 200 in
      let (n, inner) = rw.write b w.inner in
      (n, record { inner = inner; status = status; bytes = w.bytes + n; wrote_header = true })

  abbrev pub counting : ResponseWriter (Counting S)
  counting = record { write_header = counting_write_header; write = counting_write }

  -- `statusRecorder`; its `Write` is that of the writer inside.
  unfoldable pub recording_write_header : ℕ → Recording S → Recording S
  recording_write_header code w = record { status = code; inner = rw.write_header code w.inner }

  abbrev pub recording : ResponseWriter (Recording S)
  recording = record {
    write_header = recording_write_header;
    write = λ b w. let (n, inner) = rw.write b w.inner in (n, record w { inner = inner });
  }

-- What a handler does with its response writer.
pub data Call : Type 0 where
  call_header : ℕ → Call
  call_write : Text → Call

pub call : {S : Type 0} → ResponseWriter S → Call → S → S
call rw (call_header code) s = rw.write_header code s
call rw (call_write b) s = (rw.write b s).1

pub run : {S : Type 0} → ResponseWriter S → List Call → S → S
run rw [] s = s
run rw (c ∷ cs) s = run rw cs (call rw c s)

-- The writers at the start of a request.
abbrev pub new_counting : {S : Type 0} → S → Counting S
new_counting s = record { inner = s; status = 200; bytes = 0; wrote_header = false }

abbrev pub new_recording : {S : Type 0} → S → Recording S
new_recording s = record { inner = s; status = 200 }

-- The status that `WithMetrics` counts, for a handler that panicked or returned.
unfoldable pub observed_status : {S : Type 0} → Bool → Counting S → ℕ
observed_status panicked w = if panicked && not w.wrote_header then 500 else w.status
