-- ===== src/Tests/Observability.antt =====
-- The metrics and the request log.
use s3proxy4gcs.Base.{
  ℕ, ◌+◌, ◌≡◌, refl, ap, ◌<◌, Bool, true, false, Option, none, some, List, [], ◌∷◌, ◌++◌, Text,
  codes, length, split, pos, ltb, arith, map, all, not, ◌==◌, Lacks, All, if◌then◌else◌, text_eq,
  cut, after_first,
}
use s3proxy4gcs.Http.{Request, get, put, get_header}
use s3proxy4gcs.Metrics.Writer.{
  Counting, ResponseWriter, call_header, call_write, Call, run, counting, new_counting,
  new_recording, observed_status, recording_write_header,
}
use s3proxy4gcs.Metrics.Writer.Transparent.{
  status_or, HttpWriter, logged, run-logged, run-informational,
}
use s3proxy4gcs.Metrics.Middleware.{
  Open, open_request, begin, finish, Server, idle_server, arrived, arrive, depart, Reachable, here,
  next,
}
use s3proxy4gcs.Metrics.Middleware.InFlight.{IsBalanced, Reachable-IsBalanced}
use s3proxy4gcs.ReqLog
use s3proxy4gcs.ReqLog.{Record, format_int, to_csv_line, csv_fields, separator}
use s3proxy4gcs.ReqLog.Line.{text_fields, split-to_csv_line}
use s3proxy4gcs.ReqLog.Key.{extract_access_key-agrees}
use s3proxy4gcs.ReqLog.Cleanup.{Entry, clean_old_logs}
use s3proxy4gcs.ReqLog.Cleanup.Names.{
  Item, log_file, directory, entry, due, target, log_name, clean_old_logs-due,
}
use s3proxy4gcs.Translate.Dates.{Date, is_civil}
use s3proxy4gcs.CredStore.{extract_access_key, before_slash}
use s3proxy4gcs.Tests.Sample.{access_key, signed, object_of_bucket}

abbrev query : Text
query = codes "prefix=a&lifecycle"

-- A response in memory.
record Memory : Type 0 where
  code : Option ℕ
  sent : ℕ

abbrev committed : ℕ → Option ℕ → Option ℕ
committed c none = if ltb c 200 then none else some c
committed c (some d) = some d

abbrev memory_writer : ResponseWriter Memory
memory_writer = record {
  write_header = λ c s. record s { code = committed c s.code };
  write =
      λ b s. (length b, record { code = some (status_or s.code 200); sent = s.sent + length b });
}

committed-some : (c d : ℕ) (o : Option ℕ) → o ≡ some d → committed c o ≡ o
committed-some c d none h = absurd (ground arith)
committed-some c d (some e) h = refl

committed_early : (c : ℕ) (o : Option ℕ) → c < 200 → committed c o ≡ o
committed_early c none early = ground arith
committed_early c (some d) early = refl

abbrev memory : HttpWriter Memory
memory = record {
  writer = memory_writer;
  code = λ s. s.code;
  sent = λ s. s.sent;
  first_header = λ c s final fresh. ground arith;
  informational = λ c s early. committed_early c s.code early;
  later_header = λ c d s h. ap (λ o. record s { code = o }) (committed-some c d s.code h);
  header_sent = λ c s. refl;
  write_code = λ b s. refl;
  write_sent = λ b s. refl;
}

abbrev idle : Memory
idle = record { code = none; sent = 0 }

abbrev calls : List Call
calls = call_header 404 ∷ call_write (codes "gone") ∷ call_header 200 ∷ []

-- The handler panics after it has sent 404.
run-logged_example :
    let w = run (logged memory) calls (new_counting (new_recording idle)) in
    let response = run memory.writer calls idle in
    let last = recording_write_header memory.writer 500 w.inner in
    (last.inner ≡ memory.writer.write_header 500 response)
    × (memory.code last.inner ≡ some (status_or (memory.code response) 500))
    × (observed_status true w ≡ status_or (memory.code response) 500)
    × (w.bytes ≡ memory.sent response)
    × (last.status ≡ 500)
run-logged_example =
    run-logged memory (recording_write_header memory.writer 500) (λ w. refl) calls idle true
      (ground arith, (tt, (ground arith, tt))) refl refl

run-informational_example :
    let early = call_header 103 ∷ call_header 200 ∷ [] in
    let w = run (counting memory.writer) early (new_counting idle) in
    (w.status ≡ 103)
    × (memory.code w.inner ≡ none)
    × (memory.code (run memory.writer early idle) ≡ some 200)
run-informational_example = run-informational memory 103 200 idle (ground arith) (ground arith) refl

abbrev a_record : Record
a_record = record {
  timestamp_ms = pos 1700000000000;
  request_id = codes "host/1";
  source_ip = codes "10.0.0.1";
  http_method = codes "GET";
  api_method = codes "GetObject";
  bucket = codes "b";
  access_key = access_key;
  g_uploader_upload_id = [];
  status_code = pos 200;
  duration_ms = pos 12;
}

abbrev lacks : Text → Bool
lacks = all (λ c. not (c == separator))

lacks-Lacks : (s : Text) → lacks s ≡ true → Lacks separator s
lacks-Lacks [] h = tt
lacks-Lacks (c ∷ s) h = (ground arith, lacks-Lacks s (ground arith))

lack-All : (ss : List Text) → all lacks ss ≡ true → All (Lacks separator) ss
lack-All [] h = tt
lack-All (s ∷ ss) h = (lacks-Lacks s (ground arith), lack-All ss (ground arith))

split-to_csv_line_example : split (to_csv_line a_record) separator ≡ (
    format_int a_record.timestamp_ms
    ∷ a_record.request_id
    ∷ a_record.source_ip
    ∷ a_record.http_method
    ∷ a_record.api_method
    ∷ a_record.bucket
    ∷ a_record.access_key
    ∷ a_record.g_uploader_upload_id
    ∷ format_int a_record.status_code
    ∷ format_int a_record.duration_ms
    ∷ [])
split-to_csv_line_example = split-to_csv_line a_record (lack-All (text_fields a_record) refl)

abbrev a_request : Request
a_request = object_of_bucket get signed

extract_access_key-agrees_example : ReqLog.extract_access_key a_request ≡ access_key
unfolding extract_access_key get_header text_eq after_first cut before_slash
extract_access_key-agrees_example =
    extract_access_key-agrees a_request access_key refl (refl, (refl, tt))

abbrev first_of_may : Date
first_of_may = record { year = 2026; month = 5; day = 1 }

abbrev items : List Item
items =
    log_file first_of_may none
    ∷ log_file first_of_may (some 12)
    ∷ log_file (record { year = 2026; month = 5; day = 2 }) none
    ∷ directory (codes "req_20260101.csv")
    ∷ []

-- A file system on which no file can be removed.
abbrev stuck : Text → Unit {0} → Bool × Unit {0}
stuck name w = (false, w)

abbrev listed : Unit {0} → Option (List Entry)
listed w = some (map entry items)

clean_old_logs-due_example :
    map target (clean_old_logs listed stuck first_of_may tt).0
    ≡ log_name first_of_may none ∷ log_name first_of_may (some 12) ∷ []
unfolding due is_civil
clean_old_logs-due_example =
    clean_old_logs-due listed stuck first_of_may items tt refl
      ((ground arith, refl), ((ground arith, refl), ((ground arith, refl), (tt, tt)))) refl

abbrev download : Open
download = open_request get (codes "/b/k")

abbrev upload : Open
upload = open_request put (codes "/b/k")

abbrev answered : Counting (Unit {0})
answered = record { inner = tt; status = 404; bytes = 4; wrote_header = true }

-- Two requests overlap, and the one that came first is done first.
abbrev overlapping : Server
overlapping = record {
  open_requests = upload ∷ [];
  observations = (begin download ++ begin upload) ++ finish download 0 false answered;
}

overlapping-Reachable : Reachable (Unit {0}) overlapping
unfolding begin
overlapping-Reachable =
    next
      (next (next here (arrive idle_server get (codes "/b/k")))
        (arrive (arrived download idle_server) put (codes "/b/k")))
      (depart (upload ∷ []) [] download (begin download ++ begin upload) 0 false answered)

Reachable-IsBalanced_example : IsBalanced overlapping
Reachable-IsBalanced_example = Reachable-IsBalanced overlapping-Reachable
