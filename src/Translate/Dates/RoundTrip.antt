-- ===== src/Translate/Dates/RoundTrip.antt =====
-- Printing a date and reading it back.
use s3proxy4gcs.Base.{
  Option-cases, inl, inr, ◌∙◌, ℕ, ◌+◌, ◌*◌, ◌/◌, ◌<◌, ◌≤◌, ◌≡◌, true, some, arith, Text, value,
  is_digit,
}
use s3proxy4gcs.Translate.Dates.{
  Date, digit, is_civil, days_in, check_civil, read_fields, parse_date, format_day, format_date,
  format_date_s3_to_gcs, parse_s3_date,
}

take-format_date : (d : Date) → format_date_s3_to_gcs (format_date d) ≡ format_day d
unfolding format_date format_date_s3_to_gcs
take-format_date d = ground arith

days_in-le : (y m : ℕ) → days_in y m ≤ 31
unfolding days_in
days_in-le y m = ground arith

pub is_civil_bounds : (d : Date) → is_civil d ≡ true → (d.month ≤ 12) × (d.day ≤ 31)
unfolding is_civil
is_civil_bounds d h = ground (arith, days_in-le d.year d.month)

pub is_digit-digit : (n : ℕ) → is_digit (digit n) ≡ true
is_digit-digit n = ground arith

pub digits_year :
    (y : ℕ)
    → y < 10000
    → value (digit (y / 1000)) * 1000
        + value (digit (y / 100)) * 100
        + value (digit (y / 10)) * 10
        + value (digit y)
      ≡ y
digits_year y h = omega arith

pub digits_two : (m : ℕ) → m < 100 → value (digit (m / 10)) * 10 + value (digit m) ≡ m
digits_two m h = omega arith

pub check_civil_lem : (d : Date) → is_civil d ≡ true → check_civil d ≡ some d
unfolding check_civil
check_civil_lem d c = rw c

read_fields-format_day :
    (d : Date) → d.year < 10000 → d.month ≤ 12 → d.day ≤ 31 → read_fields (format_day d) ≡ some d
unfolding read_fields format_day
read_fields-format_day d h hm hd = simp (
  is_digit-digit,
  digits_year d.year h,
  digits_two d.month (omega arith),
  digits_two d.day (omega arith),
)

parse_date_step : (s : Text) (d : Date) → read_fields s ≡ some d → parse_date s ≡ check_civil d
unfolding parse_date
parse_date_step s d e = ground (arith, e)

parse_date-format_day :
    (d : Date) → d.year < 10000 → is_civil d ≡ true → parse_date (format_day d) ≡ some d
parse_date-format_day d h c =
    let (m, e) = is_civil_bounds d c in
    parse_date_step _ d (read_fields-format_day d h m e) ∙ check_civil_lem d c

-- A date that the translation prints for S3 is read back from that print as the same date, if it
-- is a day of the calendar and its year has at most four digits.
pub parse_s3_date-format_date :
    (d : Date) → d.year < 10000 → is_civil d ≡ true → parse_s3_date (format_date d) ≡ some d
unfolding parse_s3_date
parse_s3_date-format_date d h c = rw take-format_date (parse_date-format_day d h c)

check_civil-is_civil : (d : Date) {r : Date} → check_civil d ≡ some r → is_civil r ≡ true
unfolding check_civil
check_civil-is_civil d h = ground arith

parse_date-is_civil : (s : Text) {d : Date} → parse_date s ≡ some d → is_civil d ≡ true
unfolding parse_date
parse_date-is_civil s h = elim (Option-cases (read_fields s)) [
  | inl e ↦ ground (arith, e)
  | inr (r, e) ↦ ground (arith, e, check_civil-is_civil r)
]

-- Whatever text is accepted as a date, the date has a month of the year and a day of that month.
pub parse_s3_date-is_civil : (s : Text) {d : Date} → parse_s3_date s ≡ some d → is_civil d ≡ true
unfolding parse_s3_date
parse_s3_date-is_civil s h = parse_date-is_civil (format_date_s3_to_gcs s) h
