-- ===== src/Translate/Cors.antt =====
-- pkg/translate/gcs_cors.go. `strings.ToLower` is a parameter: nothing depends on what it folds.
pub mod Headers
pub mod MaxAge
use s3proxy4gcs.Base.{
  ℕ, ◌-◌, ◌*◌, ◌/◌, ◌%◌, Bool, true, false, Option, none, some, List, [], ◌∷◌, ◌++◌, Text, Dict,
  lookup, insert, ℤ, pos, negsuc, is_positive, of_bits64, two_64, if◌then◌else◌,
}
use s3proxy4gcs.Translate.S3.{CorsRule, CorsConfiguration}
use s3proxy4gcs.Translate.Gcs.{Cors}

abbrev pub second : ℕ
second = 1000000000

-- The 64 bits of an int.
abbrev bits64 : ℤ → ℕ
bits64 (pos n) = n % two_64
bits64 (negsuc n) = two_64 - 1 - n % two_64

-- `time.Duration(n) * time.Second`, in int64.
unfoldable pub seconds : ℤ → ℤ
seconds n = of_bits64 (bits64 n * second % two_64)

abbrev pub max_age_of : Option ℤ → ℤ
max_age_of none = pos 0
max_age_of (some n) = seconds n

translate_rule : CorsRule → Cors
translate_rule r = record {
  max_age = max_age_of r.max_age_seconds;
  methods = r.allowed_methods;
  origins = r.allowed_origins;
  response_headers = r.expose_headers;
}

unfoldable pub translate_rules : List CorsRule → List Cors
unfolding translate_rule
translate_rules [] = []
translate_rules (r ∷ rs) = translate_rule r ∷ translate_rules rs

unfoldable pub dropped_headers : List CorsRule → List Text
dropped_headers [] = []
dropped_headers (r ∷ rs) = r.allowed_headers ++ dropped_headers rs

abbrev is_seen : Text → Dict Bool → Bool
is_seen k seen = elim (lookup k seen) [ none ↦ false | some b ↦ b ]

module _ (to_lower : Text → Text) where
  -- The loop that keeps the first header of each spelling.
  unique : Dict Bool → List Text → List Text
  unique seen [] = []
  unique seen (h ∷ hs) =
      let old = unique seen hs in
      let new = h ∷ unique (insert (to_lower h) true seen) hs in
      if is_seen (to_lower h) seen then old else new

  -- The rules, and the headers that were dropped.
  unfoldable pub translate_s3_to_gcs_cors : CorsConfiguration → List Cors × List Text
  unfolding unique translate_rules dropped_headers
  translate_s3_to_gcs_cors s3_cfg =
      (translate_rules s3_cfg.cors_rules, unique [] (dropped_headers s3_cfg.cors_rules))

-- `int(rule.MaxAge.Seconds())` for a positive age. Go computes it through float64, which is the same
-- for whole seconds; for another age that is long enough, its rounding may come to the next second.
abbrev age_pointer : ℤ → Option ℤ
age_pointer (pos n) = if is_positive (pos n) then some (pos (n / second)) else none
age_pointer (negsuc n) = none

reverse_rule : Cors → CorsRule
reverse_rule g = record {
  id = none;
  allowed_headers = [];
  allowed_methods = g.methods;
  allowed_origins = g.origins;
  expose_headers = g.response_headers;
  max_age_seconds = age_pointer g.max_age;
}

unfoldable pub reverse_rules : List Cors → List CorsRule
unfolding reverse_rule
reverse_rules [] = []
reverse_rules (g ∷ gs) = reverse_rule g ∷ reverse_rules gs

unfoldable pub translate_gcs_to_s3_cors : List Cors → Option CorsConfiguration
unfolding reverse_rules
translate_gcs_to_s3_cors [] = none
translate_gcs_to_s3_cors (g ∷ gs) = some (record { cors_rules = reverse_rules (g ∷ gs) })
