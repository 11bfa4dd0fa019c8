-- ===== src/Base/Strings.antt =====
-- Go strings as lists of bytes, with the functions of package strings that the proxy calls.
use Prim.Native.Nat.{ℕ, zero, suc, ◌+◌, ◌-◌, ◌*◌, ◌/◌, ◌%◌, ◌<◌}
use Prim.Native.Char.{code}
use Prim.Native.String.{String}
use mathlib.Core.Path.{◌≡◌}
use mathlib.Core.Logic.{◌≢◌, ◌↔◌, inl, inr}
use mathlib.Core.Bool.{Bool, true, false, ◌&&◌, ◌||◌}
use mathlib.Core.Option.{Option, none, some}
use mathlib.Core.List.{List, [], ◌∷◌, ◌++◌, reverse}
use native.Mathlib.Omega.{arith}
use s3proxy4gcs.Base.Tests.{◌==◌, leb, if◌then◌else◌, is_some, Bool-cases}
use s3proxy4gcs.Base.Lists.{All}

abbrev pub Text : Type 0
Text = List ℕ

-- The bytes of an ASCII literal.
abbrev pub codes : String → Text
codes String.[] = []
codes (String.◌∷◌ c s) = code c ∷ codes s

unfoldable pub text_eq : Text → Text → Bool
text_eq [] [] = true
text_eq [] (d ∷ t) = false
text_eq (c ∷ s) [] = false
text_eq (c ∷ s) (d ∷ t) = c == d && text_eq s t

pub text_eq_iff : (s t : Text) → (text_eq s t ≡ true) ↔ (s ≡ t)
unfolding text_eq
text_eq_iff [] [] = ground arith
text_eq_iff [] (d ∷ t) = ground arith
text_eq_iff (c ∷ s) [] = ground arith
text_eq_iff (c ∷ s) (d ∷ t) = ground (arith, text_eq_iff s t)

abbrev pub extend : ℕ → Option (Text × Text) → Option (Text × Text)
extend c none = none
extend c (some (before, after)) = some (c ∷ before, after)

-- `strings.IndexByte(s, b)`: what stands before and after the first `b`.
unfoldable pub cut : ℕ → Text → Option (Text × Text)
cut b [] = none
cut b (c ∷ s) = let rest = extend c (cut b s) in if c == b then some ([], s) else rest

-- `strings.CutPrefix(s, p)`.
unfoldable pub cut_prefix : Text → Text → Option Text
cut_prefix [] s = some s
cut_prefix (d ∷ p) [] = none
cut_prefix (d ∷ p) (c ∷ s) = let rest = cut_prefix p s in if c == d then rest else none

-- `strings.Index(s, p)`: what stands behind the first `p`.
unfoldable pub after_first : Text → Text → Option Text
unfolding cut_prefix
after_first p [] = cut_prefix p []
after_first p (c ∷ s) = elim (cut_prefix p (c ∷ s)) [ none ↦ after_first p s | some r ↦ some r ]

-- `strings.Contains(s, p)`.
unfoldable pub contains : Text → Text → Bool
unfolding after_first
contains s p = is_some (after_first p s)

-- `strings.TrimSuffix(s, p)`, with `none` where `strings.HasSuffix(s, p)` fails.
unfoldable pub cut_suffix : Text → Text → Option Text
unfolding cut_prefix
cut_suffix p s = elim (cut_prefix (reverse p) (reverse s)) [
  | none ↦ none
  | some r ↦ some (reverse r)
]

abbrev onto_head : ℕ → List Text → List Text
onto_head c [] = (c ∷ []) ∷ []
onto_head c (p ∷ ps) = (c ∷ p) ∷ ps

-- `strings.Split(s, sep)`, for a separator of one byte.
unfoldable pub split : Text → ℕ → List Text
split [] sep = [] ∷ []
split (c ∷ s) sep = let rest = split s sep in if c == sep then [] ∷ rest else onto_head c rest

-- `strings.Join(parts, sep)`.
unfoldable pub join : List Text → Text → Text
join [] sep = []
join (p ∷ []) sep = p
join (p ∷ q ∷ ps) sep = p ++ (sep ++ join (q ∷ ps) sep)

unfoldable pub trim_left : (ℕ → Bool) → Text → Text
trim_left p [] = []
trim_left p (c ∷ s) = let rest = trim_left p s in if p c then rest else c ∷ s

-- `strings.TrimFunc(s, p)`.
unfoldable pub trim : (ℕ → Bool) → Text → Text
unfolding trim_left
trim p s = reverse (trim_left p (reverse (trim_left p s)))

-- The white space of ASCII.
abbrev pub is_space : ℕ → Bool
is_space c = c == 32 || leb 9 c && leb c 13

-- The white space of Unicode beyond ASCII, in UTF-8: U+0085 and U+00A0; U+1680, U+2000 to U+200A,
-- U+2028, U+2029, U+202F, U+205F and U+3000.
abbrev is_space_pair : ℕ → ℕ → Bool
is_space_pair c d = c == 194 && (d == 133 || d == 160)

abbrev is_space_triple : ℕ → ℕ → ℕ → Bool
is_space_triple c d e =
    c == 225 && d == 154 && e == 128
    || c == 226
      && (d == 128 && (leb 128 e && leb e 138 || e == 168 || e == 169 || e == 175)
          || d == 129 && e == 159)
    || c == 227 && d == 128 && e == 128

-- The bytes of the white space at the front of a text, and at the front of a reversed one.
unfoldable pub space_width : Text → ℕ
space_width [] = 0
space_width (c ∷ []) = if is_space c then 1 else 0
space_width (c ∷ d ∷ []) = if is_space c then 1 else if is_space_pair c d then 2 else 0
space_width (c ∷ d ∷ e ∷ s) =
    if is_space c
    then 1
    else if is_space_pair c d
    then 2
    else if is_space_triple c d e
    then 3
    else 0

unfoldable pub space_width_reversed : Text → ℕ
space_width_reversed [] = 0
space_width_reversed (c ∷ []) = if is_space c then 1 else 0
space_width_reversed (d ∷ c ∷ []) = if is_space d then 1 else if is_space_pair c d then 2 else 0
space_width_reversed (e ∷ d ∷ c ∷ s) =
    if is_space e
    then 1
    else if is_space_pair d e
    then 2
    else if is_space_triple c d e
    then 3
    else 0

-- `trim_width width n s` drops n bytes, and then white space as long as `width` finds some.
unfoldable pub trim_width : (Text → ℕ) → ℕ → Text → Text
trim_width width n [] = []
trim_width width (suc n) (c ∷ s) = trim_width width n s
trim_width width zero (c ∷ s) =
    let w = width (c ∷ s) in let rest = trim_width width (w - 1) s in if w == 0 then c ∷ s else rest

-- `strings.TrimSpace(s)`, for the white space of Unicode.
unfoldable pub trim_space : Text → Text
unfolding trim_width space_width space_width_reversed
trim_space s = reverse (trim_width space_width_reversed 0 (reverse (trim_width space_width 0 s)))

abbrev pub is_digit : ℕ → Bool
is_digit c = leb b'0' c && leb c b'9'

abbrev pub value : ℕ → ℕ
value c = c - b'0'

-- The number that digits print, behind those that have been read.
abbrev pub digits_value : ℕ → Text → Option ℕ
digits_value acc [] = some acc
digits_value acc (c ∷ s) =
    let rest = digits_value (acc * 10 + value c) s in if is_digit c then rest else none

-- The decimal print of a number below 10 ^ `fuel`.
decimal_fuel : ℕ → ℕ → Text → Text
decimal_fuel zero n out = out
decimal_fuel (suc fuel) n out =
    let rest = decimal_fuel fuel (n / 10) ((b'0' + n % 10) ∷ out) in
    if leb n 9 then (b'0' + n % 10) ∷ out else rest

-- `strconv.Itoa(n)`; a number has fewer digits than its successor.
unfoldable pub decimal : ℕ → Text
unfolding decimal_fuel
decimal n = decimal_fuel (suc n) n []

-- The decimal print holds digits only.
pub decimal-All : (P : ℕ → Type 0) → ((d : ℕ) → d < 10 → P (b'0' + d)) → (n : ℕ) → All P (decimal n)
unfolding decimal
decimal-All P digits n = loop (suc n) n [] tt
  where
    loop : (fuel k : ℕ) (out : Text) → All P out → All P (decimal_fuel fuel k out)
    loop zero k out h = h
    loop (suc fuel) k out h =
        let more : All P ((b'0' + k % 10) ∷ out) = (digits (k % 10) (omega arith), h) in
        elim (Bool-cases (leb k 9)) [
          | inl e ↦ rw e more
          | inr e ↦ rw e (loop fuel (k / 10) ((b'0' + k % 10) ∷ out) more)
        ]

pub decimal-filled : (n : ℕ) → decimal n ≢ []
unfolding decimal
decimal-filled n = elim (Bool-cases (leb n 9)) [
  | inl e ↦ rw e ground arith
  | inr e ↦ rw e (loop n (n / 10) (b'0' + n % 10) [])
]
  where
    loop : (fuel k c : ℕ) (out : Text) → decimal_fuel fuel k (c ∷ out) ≢ []
    loop zero k c out = ground arith
    loop (suc fuel) k c out = elim (Bool-cases (leb k 9)) [
      | inl e ↦ rw e ground arith
      | inr e ↦ rw e (loop fuel (k / 10) (b'0' + k % 10) (c ∷ out))
    ]

abbrev lower_byte : ℕ → ℕ
lower_byte c = if leb b'A' c && leb c b'Z' then c + 32 else c

-- Simple folding, as far as it reaches ASCII: A to Z, U+017F (s) and U+212A (k).
fold : Text → Text
fold [] = []
fold (a ∷ []) = lower_byte a ∷ []
fold (a ∷ b ∷ []) = if a == 0xC5 && b == 0xBF then b's' ∷ [] else lower_byte a ∷ lower_byte b ∷ []
fold (a ∷ b ∷ c ∷ s) =
    let kelvin = b'k' ∷ fold s in
    let long_s = b's' ∷ fold (c ∷ s) in
    let plain = lower_byte a ∷ fold (b ∷ c ∷ s) in
    if a == 0xE2 && b == 0x84 && c == 0xAA
    then kelvin
    else if a == 0xC5 && b == 0xBF
    then long_s
    else plain

-- `strings.EqualFold(s, key)`, for a key in ASCII.
unfoldable pub equal_fold : Text → Text → Bool
unfolding fold text_eq
equal_fold s key = text_eq (fold s) (fold key)
