-- ===== src/ReqLog/Cleanup/Names.antt =====
-- Which files of the log directory a run of the cleanup removes.
use s3proxy4gcs.Base.{
  ℕ, ◌+◌, ◌*◌, ◌/◌, ◌<◌, ◌≡◌, ◌≢◌, inl, inr, refl, leb, length, Option-cases, Bool, true, false,
  not, Option, none, some, List, [], ◌∷◌, ◌++◌, map, Text, codes, is_digit, All, all, is_nil, arith,
  decimal, decimal-All, decimal-filled, cut_prefix-append, if◌then◌else◌,
}
use s3proxy4gcs.Translate.Dates.{Date, digit, is_civil}
use s3proxy4gcs.Translate.Dates.RoundTrip.{
  is_digit-digit, digits_year, digits_two, is_civil_bounds, check_civil_lem,
}
use s3proxy4gcs.ReqLog.Cleanup.Matches.{IsRotation, match_log_file_sound}
use s3proxy4gcs.ReqLog.Cleanup.{
  is_rotation, eight_digits, match_log_file, parse_compact, is_after, is_expired, Entry, Outcome,
  read_dir_failed, remove_failed, removed, outcome, clean_entries, clean_old_logs,
}

-- The digits of a day, YYYYMMDD.
unfoldable pub compact : Date → Text
compact d =
    digit (d.year / 1000)
    ∷ digit (d.year / 100)
    ∷ digit (d.year / 10)
    ∷ digit d.year
    ∷ digit (d.month / 10)
    ∷ digit d.month
    ∷ digit (d.day / 10)
    ∷ digit d.day
    ∷ []

-- What stands behind `.csv`, for a file that was rotated away.
abbrev rotation : Option ℕ → Text
rotation none = []
rotation (some n) = b'.' ∷ decimal n

-- What the log directory holds: the log of a day, the current one or a rotated one, a directory,
-- and a file of another name.
pub data Item : Type 0 where
  log_file : Date → Option ℕ → Item
  directory other_file : Text → Item

unfoldable pub log_name : Date → Option ℕ → Text
log_name d n = codes "req_" ++ (compact d ++ (codes ".csv" ++ rotation n))

abbrev pub entry : Item → Entry
entry (log_file d n) = record { name = log_name d n; is_dir = false }
entry (directory name) = record { name = name; is_dir = true }
entry (other_file name) = record { name = name; is_dir = false }

-- A day of the calendar with a year of four digits; a name that is not `req_`, eight digits, `.csv`
-- and nothing, or a dot and digits.
abbrev pub IsItem : Item → Type 0
IsItem (log_file d n) = (d.year < 10000) × (is_civil d ≡ true)
IsItem (directory name) = Unit
IsItem (other_file name) =
    (digits rest : Text)
    → (length digits ≡ 8)
    → (all is_digit digits ≡ true)
    → IsRotation rest
    → name ≢ codes "req_" ++ (digits ++ (codes ".csv" ++ rest))

-- A day as the number that its digits make.
abbrev pub day_number : Date → ℕ
day_number d = d.year * 10000 + d.month * 100 + d.day

-- The names that a run is to remove: those of the logs that are not of a day after the cutoff.
unfoldable pub due : Date → List Item → List Text
due cutoff [] = []
due cutoff (log_file d n ∷ items) =
    let rest = due cutoff items in
    if leb (day_number d) (day_number cutoff) then log_name d n ∷ rest else rest
due cutoff (directory name ∷ items) = due cutoff items
due cutoff (other_file name ∷ items) = due cutoff items

-- The file of which an outcome speaks.
unfoldable pub target : Outcome → Text
target read_dir_failed = []
target (remove_failed name) = name
target (removed name) = name

all-All : (p : ℕ → Bool) (s : Text) → All (λ c. p c ≡ true) s → all p s ≡ true
all-All p [] h = refl
all-All p (c ∷ s) (h, hs) = rw (h, all-All p s hs) refl

is_nil-filled : (s : Text) → s ≢ [] → is_nil s ≡ false
is_nil-filled [] h = absurd (h refl)
is_nil-filled (c ∷ s) h = refl

is_rotation-rotation : (n : Option ℕ) → is_rotation (rotation n) ≡ true
is_rotation-rotation none = refl
is_rotation-rotation (some n) =
    let digits =
      all-All is_digit (decimal n)
        (decimal-All (λ c. is_digit c ≡ true) (λ d small. ground arith) n) in
    simp (digits, is_nil-filled (decimal n) (decimal-filled n))

eight_digits-compact :
    (d : Date) (rest : Text) → eight_digits (compact d ++ rest) ≡ some (compact d, rest)
unfolding compact
eight_digits-compact d rest = simp is_digit-digit

match_log_file-log_name :
    (d : Date) (n : Option ℕ) → match_log_file (log_name d n) ≡ some (compact d)
unfolding match_log_file log_name
match_log_file-log_name d n = ground (
  arith,
  cut_prefix-append (codes "req_") (compact d ++ (codes ".csv" ++ rotation n)),
  eight_digits-compact d (codes ".csv" ++ rotation n),
  cut_prefix-append (codes ".csv") (rotation n),
  is_rotation-rotation n,
)

parse_compact-compact :
    (d : Date) → d.year < 10000 → is_civil d ≡ true → parse_compact (compact d) ≡ some d
unfolding parse_compact compact
parse_compact-compact d h c =
    let (m, e) = is_civil_bounds d c in
    simp (digits_year d.year h, digits_two d.month (omega arith), digits_two d.day (omega arith))
      (check_civil_lem d c)

is_expired-matched :
    (cutoff d : Date) (name date : Text)
    → match_log_file name ≡ some date
    → parse_compact date ≡ some d
    → is_expired cutoff name ≡ not (is_after d cutoff)
unfolding is_expired
is_expired-matched cutoff d name date matched parsed = ground (arith, matched, parsed)

is_expired-unmatched :
    (cutoff : Date) (name : Text) → match_log_file name ≡ none → is_expired cutoff name ≡ false
unfolding is_expired
is_expired-unmatched cutoff name missed = ground (arith, missed)

is_expired-log_name :
    (cutoff d : Date) (n : Option ℕ)
    → d.year < 10000
    → is_civil d ≡ true
    → is_expired cutoff (log_name d n) ≡ not (is_after d cutoff)
is_expired-log_name cutoff d n h c =
    is_expired-matched cutoff d (log_name d n) (compact d) (match_log_file-log_name d n)
      (parse_compact-compact d h c)

is_after-day_number :
    (d cutoff : Date)
    → is_civil d ≡ true
    → is_civil cutoff ≡ true
    → is_after d cutoff ≡ not (leb (day_number d) (day_number cutoff))
unfolding is_after
is_after-day_number d cutoff c c' =
    let (m, e) = is_civil_bounds d c in
    let (m', e') = is_civil_bounds cutoff c' in ground (arith, m, e, m', e')

unmatched : (name : Text) → IsItem (other_file name) → match_log_file name ≡ none
unmatched name other = elim (Option-cases (match_log_file name)) [
  | inl e ↦ e
  | inr (date, e) ↦
      let (rest, eight, digits, rotated, same) = match_log_file_sound name date e in
      absurd (other date rest eight digits rotated same)
]

target-outcome : (answer : Bool) (name : Text) → target (outcome answer name) ≡ name
unfolding target
target-outcome true name = refl
target-outcome false name = refl

module _ {W : Type 0} (read_dir : W → Option (List Entry)) (remove : Text → W → Bool × W) where
  clean_entries-due :
      (cutoff : Date) (items : List Item) (w : W)
      → is_civil cutoff ≡ true
      → All IsItem items
      → map target (clean_entries read_dir remove cutoff (map entry items) w).0 ≡ due cutoff items
  unfolding clean_entries due
  clean_entries-due cutoff [] w today h = refl
  clean_entries-due cutoff (log_file d n ∷ items) w today ((year, civil), h) =
      let name = log_name d n in
      ground (
        arith,
        is_expired-log_name cutoff d n year civil,
        is_after-day_number d cutoff civil today,
        target-outcome (remove name w).0 name,
        clean_entries-due cutoff items (remove name w).1 today h,
        clean_entries-due cutoff items w today h,
      )
  clean_entries-due cutoff (directory name ∷ items) w today (_, h) =
      clean_entries-due cutoff items w today h
  clean_entries-due cutoff (other_file name ∷ items) w today (other, h) = ground (
    arith,
    is_expired-unmatched cutoff name (unmatched name other),
    clean_entries-due cutoff items w today h,
  )

  -- If the cutoff is a day of the calendar and the log directory holds logs of days of the calendar,
  -- rotated or not, directories and files of names that are not `req_`, eight digits, `.csv` and
  -- nothing or a dot and digits, a run of the cleanup tries to remove, each once and in order, the logs of the
  -- days up to the cutoff, that day included, and nothing else, whichever of the removals fail.
  pub clean_old_logs-due :
      (cutoff : Date) (items : List Item) (w : W)
      → is_civil cutoff ≡ true
      → All IsItem items
      → read_dir w ≡ some (map entry items)
      → map target (clean_old_logs read_dir remove cutoff w).0 ≡ due cutoff items
  unfolding clean_old_logs
  clean_old_logs-due cutoff items w today h listed =
      ground (arith, listed, clean_entries-due cutoff items w today h)
