-- ===== src/Base/Int.antt =====
-- Signed integers, for Go's int and int64.
use Prim.Native.Nat.{ℕ, zero, suc, ◌-◌}
use mathlib.Core.Bool.{Bool, true, false}
use s3proxy4gcs.Base.Tests.{◌==◌, ltb, if◌then◌else◌}
use mathlib.Core.Option.{Option, none, some}
use mathlib.Core.List.{[], ◌∷◌}
use s3proxy4gcs.Base.Strings.{Text, digits_value}

-- `negsuc n` is -(n + 1).
pub data ℤ : Type 0 where
  pos : ℕ → ℤ
  negsuc : ℕ → ℤ

-- `x > 0`.
abbrev pub is_positive : ℤ → Bool
is_positive (pos n) = ltb 0 n
is_positive (negsuc n) = false

abbrev pub two_63 : ℕ
two_63 = 9223372036854775808

abbrev pub two_64 : ℕ
two_64 = 18446744073709551616

-- The int64 with the given 64 bits.
unfoldable pub of_bits64 : ℕ → ℤ
of_bits64 m = if ltb m two_63 then pos m else negsuc (two_64 - m - 1)

-- The integer with the given sign and absolute value, if it is an int64.
signed : Bool → ℕ → Option ℤ
signed true zero = some (pos 0)
signed true (suc n) = if ltb n two_63 then some (negsuc n) else none
signed false n = if ltb n two_63 then some (pos n) else none

-- Digits behind the sign, at least one.
magnitude : Bool → Text → Option ℤ
unfolding signed
magnitude negative [] = none
magnitude negative (c ∷ s) = elim (digits_value 0 (c ∷ s)) [
  | none ↦ none
  | some n ↦ signed negative n
]

-- `strconv.Atoi(s)`, with `none` for its error.
unfoldable pub atoi : Text → Option ℤ
unfolding magnitude
atoi [] = none
atoi (c ∷ s) =
    if c == b'-'
    then magnitude true s
    else if c == b'+'
    then magnitude false s
    else magnitude false (c ∷ s)
