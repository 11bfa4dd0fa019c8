-- ===== src/ReqLog/Cleanup.antt =====
-- pkg/reqlog/reqlog.go: the deletion of old log files, `cleanOldLogs`.
pub mod Matches
pub mod Names
use s3proxy4gcs.Base.{
  ℕ, ◌+◌, ◌*◌, Bool, true, false, ◌&&◌, ◌||◌, not, Option, none, some, List, [], ◌∷◌, Text, codes,
  is_digit, value, cut_prefix, all, is_nil, ltb, ◌==◌, if◌then◌else◌,
}
use s3proxy4gcs.Translate.Dates.{Date, check_civil}

-- `(\.\d+)?$`.
abbrev pub is_rotation : Text → Bool
is_rotation [] = true
is_rotation (c ∷ number) = c == b'.' && not (is_nil number) && all is_digit number

-- `(\d{8})`, and what is left.
abbrev pub eight_digits : Text → Option (Text × Text)
eight_digits (y ∷ e ∷ a ∷ r ∷ m ∷ n ∷ d ∷ f ∷ rest) =
    if all is_digit (y ∷ e ∷ a ∷ r ∷ m ∷ n ∷ d ∷ f ∷ [])
    then some (y ∷ e ∷ a ∷ r ∷ m ∷ n ∷ d ∷ f ∷ [], rest)
    else none
eight_digits _ = none

-- `logFileRe.FindStringSubmatch(name)`: the group of the date, `none` without a match.
unfoldable pub match_log_file : Text → Option Text
match_log_file name = elim (cut_prefix (codes "req_") name) [
  | none ↦ none
  | some behind ↦ elim (eight_digits behind) [
    | none ↦ none
    | some (date, rest) ↦ elim (cut_prefix (codes ".csv") rest) [
      | none ↦ none
      | some rotation ↦ if is_rotation rotation then some date else none
    ]
  ]
]

-- `time.Parse("20060102", s)`, for a text of eight digits.
unfoldable pub parse_compact : Text → Option Date
parse_compact (y ∷ e ∷ a ∷ r ∷ m ∷ n ∷ d ∷ f ∷ []) = check_civil (record {
  year = value y * 1000 + value e * 100 + value a * 10 + value r;
  month = value m * 10 + value n;
  day = value d * 10 + value f;
})
parse_compact _ = none

-- `fileDate.After(cutoff)`, where the cutoff is a time of the given day in UTC.
unfoldable pub is_after : Date → Date → Bool
is_after d cutoff =
    ltb cutoff.year d.year
    || d.year == cutoff.year
      && (ltb cutoff.month d.month || d.month == cutoff.month && ltb cutoff.day d.day)

-- The name is that of a log file to be removed.
unfoldable pub is_expired : Date → Text → Bool
is_expired cutoff name = elim (match_log_file name) [
  | none ↦ false
  | some date ↦ elim (parse_compact date) [ none ↦ false | some d ↦ not (is_after d cutoff) ]
]

pub record Entry : Type 0 where
  pub name : Text
  pub is_dir : Bool

-- What the log of the proxy says of a run.
pub data Outcome : Type 0 where
  read_dir_failed : Outcome
  remove_failed removed : Text → Outcome

abbrev pub outcome : Bool → Text → Outcome
outcome true name = removed name
outcome false name = remove_failed name

-- The file system is a parameter: `os.ReadDir` of the directory, with `none` for its error, and
-- `os.Remove` of a file of that directory, which answers whether it succeeded.
module _ {W : Type 0} (read_dir : W → Option (List Entry)) (remove : Text → W → Bool × W) where
  clean_entries : Date → List Entry → W → List Outcome × W
  clean_entries cutoff [] w = ([], w)
  clean_entries cutoff (f ∷ files) w =
      let (answer, w') = remove f.name w in
      let (outcomes, w'') = clean_entries cutoff files w' in
      let skipped = clean_entries cutoff files w in
      if f.is_dir
      then skipped
      else if is_expired cutoff f.name
      then (outcome answer f.name ∷ outcomes, w'')
      else skipped

  -- The cutoff is the day of `time.Now().AddDate(0, 0, -keepDays)` in UTC.
  unfoldable pub clean_old_logs : Date → W → List Outcome × W
  unfolding clean_entries
  clean_old_logs cutoff w = elim (read_dir w) [
    | none ↦ (read_dir_failed ∷ [], w)
    | some files ↦ clean_entries cutoff files w
  ]
