-- ===== src/CredStore.antt =====
-- pkg/credstore/credstore.go: the store of access keys, its parser, and the access key of a request.
pub mod Watch
pub mod Extract
pub mod Query
pub mod Parsing
use s3proxy4gcs.Base.{
  ℕ, zero, suc, ◌+◌, Bool, true, false, ◌&&◌, ◌||◌, Option, none, some, List, [], ◌∷◌, ◌++◌, Text,
  codes, text_eq, cut, after_first, split, trim_space, equal_fold, Dict, lookup, insert, copy_into,
  Verdict, go_on, give, scan, next_segment, length, is_nil, ◌==◌, if◌then◌else◌,
}
use s3proxy4gcs.Base.Result.{Result, ok, err, ◌>>=◌, ◌>>◌}

-- The map behind the atomic value, with the gauge `s3proxy_hmac_credentials_loaded`.
pub record Store : Type 0 where
  pub creds : Dict Text
  pub loaded : ℕ

unfoldable pub new : Store
new = record { creds = []; loaded = 0 }

unfoldable pub replace : Store → Dict Text → Store
replace s m = let cp = copy_into m [] in record { creds = cp; loaded = length cp }

unfoldable pub find : Store → Text → Option Text
find s ak = lookup ak s.creds

unfoldable pub size : Store → ℕ
size s = length s.creds

unfoldable pub snapshot : Store → List Text
snapshot s = keys s.creds
  where
    keys : Dict Text → List Text
    keys [] = []
    keys ((k, v) ∷ m) = k ∷ keys m

pub data ParseError : Type 0 where
  unreadable_file empty_payload malformed_json empty_object empty_access_key : ParseError
  empty_secret : Text → ParseError

abbrev pub is_blank : Text → Bool
is_blank s = text_eq (trim_space s) []

-- The loop over the entries, in the order that the range takes.
check_entries : Dict Text → Result ParseError (Unit {0})
check_entries [] = ok tt
check_entries ((k, v) ∷ m) =
    if is_blank k
    then err empty_access_key
    else if is_blank v
    then err (empty_secret k)
    else check_entries m

-- `json.Unmarshal` into a map of strings is the parameter; a JSON `null` gives the empty map.
module _ (unmarshal : Text → Option (Dict Text)) where
  unfoldable pub parse : Text → Result ParseError (Dict Text)
  unfolding check_entries
  parse payload =
      let trimmed = trim_space payload in
      if text_eq trimmed [] then err empty_payload else elim (unmarshal trimmed) [
        | none ↦ err malformed_json
        | some m ↦ if is_nil m then err empty_object else (check_entries m >> ok m)
      ]

  -- `LoadFile`, from what `os.ReadFile` gives.
  unfoldable pub load_file : Option Text → Result ParseError (Dict Text)
  unfolding parse
  load_file none = err unreadable_file
  load_file (some payload) = parse payload

  unfoldable pub parse_json : Text → Result ParseError (Dict Text)
  unfolding parse
  parse_json raw = parse raw

-- `ErrNoCredential` is `none`. What stands before the first slash, if that is not empty.
unfoldable pub before_slash : Text → Option Text
before_slash rest = elim (cut b'/' rest) [
  | none ↦ none
  | some (ak, after) ↦ if is_nil ak then none else some ak
]

unfoldable pub extract_access_key : Text → Option Text
unfolding before_slash
extract_access_key header =
    if text_eq header [] then none else elim (after_first (codes "Credential=") header) [
      | none ↦ none
      | some rest ↦ before_slash rest
    ]

-- `strings.ReplaceAll(s, "%2x", "/")`, for the last letter x.
replace_escape : ℕ → Text → Text
replace_escape x (a ∷ b ∷ c ∷ s) =
    let escaped = b'/' ∷ replace_escape x s in
    let plain = a ∷ replace_escape x (b ∷ c ∷ s) in
    if a == b'%' && b == b'2' && c == x then escaped else plain
replace_escape x s = s

pub read_segment : Text → Verdict (Option Text)
unfolding replace_escape
read_segment seg = elim (cut b'=' seg) [
  | none ↦ go_on
  | some (name, val) ↦
      if equal_fold name (codes "X-Amz-Credential")
      then give (before_slash (replace_escape b'f' (replace_escape b'F' val)))
      else go_on
]

-- The loop, which the fuel bounds.
query_loop : ℕ → Text → Option Text
unfolding scan read_segment
query_loop fuel query = scan none read_segment fuel query

-- A round takes at least one byte, so the length is fuel enough.
unfoldable pub extract_access_key_from_query : Text → Option Text
unfolding query_loop
extract_access_key_from_query query = query_loop (suc (length query)) query
