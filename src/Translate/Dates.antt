-- ===== src/Translate/Dates.antt =====
-- The dates of a lifecycle rule (pkg/translate/gcs_lifecycle.go): `formatDateS3toGCS`,
-- `parseS3Date`, and the prints of `time.Format` and `time.Parse` that they rest on.
-- A time is a civil date at midnight UTC, which is all that the translation creates.
pub mod RoundTrip
use s3proxy4gcs.Base.{
  ℕ, ◌+◌, ◌-◌, ◌*◌, ◌/◌, ◌%◌, Bool, true, false, ◌&&◌, ◌||◌, not, Option, none, some, [], ◌∷◌, ◌++◌,
  Text, codes, is_digit, value, leb, ltb, ◌==◌, if◌then◌else◌, take, length,
}

pub record Date : Type 0 where
  pub year : ℕ
  pub month : ℕ
  pub day : ℕ

-- The zero `time.Time`.
abbrev pub zero_date : Date
zero_date = record { year = 1; month = 1; day = 1 }

-- `t.IsZero()`.
abbrev pub is_zero : Date → Bool
is_zero d = d.year == 1 && d.month == 1 && d.day == 1

is_leap : ℕ → Bool
is_leap y = y % 4 == 0 && (not (y % 100 == 0) || y % 400 == 0)

days_in : ℕ → ℕ → ℕ
unfolding is_leap
days_in y m =
    if m == 2
    then (if is_leap y then 29 else 28)
    else if m == 4 || m == 6 || m == 9 || m == 11
    then 30
    else 31

-- A month of the year and a day of the month.
unfoldable pub is_civil : Date → Bool
unfolding days_in
is_civil d = leb 1 d.month && leb d.month 12 && leb 1 d.day && leb d.day (days_in d.year d.month)

unfoldable pub check_civil : Date → Option Date
unfolding is_civil
check_civil d = if is_civil d then some d else none

-- The layout "2006-01-02": its digits and dashes.
read_fields : Text → Option Date
read_fields (y ∷ e ∷ a ∷ r ∷ p ∷ m ∷ n ∷ q ∷ d ∷ f ∷ []) =
    if is_digit y
      && is_digit e
      && is_digit a
      && is_digit r
      && p == b'-'
      && is_digit m
      && is_digit n
      && q == b'-'
      && is_digit d
      && is_digit f
    then some (record {
      year = value y * 1000 + value e * 100 + value a * 10 + value r;
      month = value m * 10 + value n;
      day = value d * 10 + value f;
    })
    else none
read_fields _ = none

-- `time.Parse("2006-01-02", s)`.
unfoldable pub parse_date : Text → Option Date
unfolding check_civil read_fields
parse_date s = elim (read_fields s) [ none ↦ none | some d ↦ check_civil d ]

abbrev pub digit : ℕ → ℕ
digit n = b'0' + n % 10

-- `t.Format("2006-01-02")`, for a year below 10000.
unfoldable pub format_day : Date → Text
format_day t =
    digit (t.year / 1000)
    ∷ digit (t.year / 100)
    ∷ digit (t.year / 10)
    ∷ digit t.year
    ∷ b'-'
    ∷ digit (t.month / 10)
    ∷ digit t.month
    ∷ b'-'
    ∷ digit (t.day / 10)
    ∷ digit t.day
    ∷ []

-- `t.Format("2006-01-02T15:04:05.000Z")`.
unfoldable pub format_date : Date → Text
unfolding format_day
format_date t = format_day t ++ codes "T00:00:00.000Z"

unfoldable pub format_date_s3_to_gcs : Text → Text
format_date_s3_to_gcs s3_date = if leb 10 (length s3_date) then take 10 s3_date else s3_date

unfoldable pub parse_s3_date : Text → Option Date
unfolding parse_date format_date_s3_to_gcs
parse_s3_date s3_date = parse_date (format_date_s3_to_gcs s3_date)
