-- ===== src/Tests/Credentials.antt =====
-- The credential store and the access key of a request.
use s3proxy4gcs.Base.{
  ◌≡◌, ◌≢◌, ◌↔◌, refl, true, false, Option, none, some, List, [], ◌∷◌, ◌++◌, Text, Dict, codes,
  split, first_verdict, arith, trim_space, trim_left, text_eq, after_first, cut, equal_fold,
}
use s3proxy4gcs.Base.Result.{ok}
use s3proxy4gcs.CredStore.{
  before_slash, read_segment, parse, extract_access_key, extract_access_key_from_query,
}
use s3proxy4gcs.CredStore.Extract.{IsKey, extract_access_key_sound, extract_access_key_complete}
use s3proxy4gcs.CredStore.Query.{extract_access_key_from_query_lem}
use s3proxy4gcs.CredStore.Parsing.{AllFilled, parse_iff}
use s3proxy4gcs.CredStore.Watch.{Op, debounced, watcher_error, Watcher, run, reload, is_relevant}
use s3proxy4gcs.CredStore.Watch.Reload.{IsServing, file_events, run-IsServing, run-burst}
use s3proxy4gcs.Tests.Sample.{one_client, access_key, secret_key}

abbrev header : Text
header = codes "AWS4-HMAC-SHA256 Credential=AK/20260101"

access_key-IsKey : IsKey access_key
access_key-IsKey = (ground arith, (ground arith, (ground arith, tt)))

read_header : extract_access_key header ≡ some access_key
unfolding extract_access_key text_eq after_first cut
read_header = refl

extract_access_key_sound_example :
    IsKey access_key
    × ((before after : Text) × (header
          ≡ before ++ (codes "Credential=" ++ (access_key ++ b'/' ∷ after))))
extract_access_key_sound_example = extract_access_key_sound header access_key read_header

extract_access_key_complete_example :
    extract_access_key
      (codes "AWS4-HMAC-SHA256 Credential=" ++ (access_key ++ b'/' ∷ codes "20260101"))
    ≡ some access_key
extract_access_key_complete_example =
    extract_access_key_complete access_key (codes "20260101") access_key-IsKey

abbrev presigned : Text
presigned = codes "X-Amz-Date=1&x-amz-credential=AK%2F20260101&uploadId=1"

extract_access_key_from_query_example :
    extract_access_key_from_query presigned ≡ first_verdict none read_segment (split presigned b'&')
extract_access_key_from_query_example = extract_access_key_from_query_lem presigned

read_query : extract_access_key_from_query presigned ≡ some access_key
unfolding extract_access_key_from_query cut equal_fold before_slash
read_query = refl

abbrev entries : Dict Text
entries = (access_key, secret_key) ∷ []

abbrev unmarshal : Text → Option (Dict Text)
unmarshal payload = some entries

parse_iff_example : (parse unmarshal (codes " {}") ≡ ok entries) ↔ (
    (trim_space (codes " {}") ≢ [])
    × (unmarshal (trim_space (codes " {}")) ≡ some entries)
    × (entries ≢ [])
    × AllFilled entries)
parse_iff_example = parse_iff unmarshal (codes " {}") entries

abbrev watcher : Watcher
watcher = record { store = one_client; pending = false; successes = 0; errors = 0; running = true }

one_client-IsServing : IsServing one_client
unfolding text_eq trim_space
one_client-IsServing = record { serves = ground arith; filled = (refl, refl, tt); counted = refl }

run-IsServing_example :
    IsServing
      (run unmarshal (codes "/etc/creds") watcher (watcher_error ∷ debounced none ∷ [])).store
run-IsServing_example =
    run-IsServing unmarshal (codes "/etc/creds") watcher (watcher_error ∷ debounced none ∷ [])
      one_client-IsServing

abbrev write_op : Op
write_op = record { create = false; write = true; remove = false; rename = false; chmod = false }

abbrev burst : List (Text × Op)
burst = (codes "/etc/creds", write_op) ∷ (codes "/etc/..data", write_op) ∷ []

run-burst_example :
    run unmarshal
      (codes "/etc/creds")
      watcher
      (file_events unmarshal (codes "/etc/creds") burst ++ debounced none ∷ [])
    ≡ reload unmarshal (codes "/etc/creds") watcher none
run-burst_example =
    run-burst unmarshal (codes "/etc/creds") watcher burst none refl
      (unfold is_relevant text_eq split trim_left in refl)

-- A no-break space and a thin space, in UTF-8, around a letter.
trim_space_unicode : trim_space (b' ' ∷ 194 ∷ 160 ∷ b'a' ∷ 226 ∷ 128 ∷ 137 ∷ b' ' ∷ []) ≡ b'a' ∷ []
unfolding trim_space
trim_space_unicode = refl
