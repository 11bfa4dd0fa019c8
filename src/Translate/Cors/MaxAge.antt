-- ===== src/Translate/Cors/MaxAge.antt =====
-- The age of a CORS rule: its range, and rules read back after a translation.
use s3proxy4gcs.Base.{
  ℕ, ◌*◌, ◌<◌, ◌≤◌, ◌≡◌, ◌↔◌, refl, List, [], ◌∷◌, some, arith, All, Text, pos, of_bits64, two_63,
}
use s3proxy4gcs.Translate.S3.{CorsConfiguration}
use s3proxy4gcs.Translate.Gcs.{Cors}
use s3proxy4gcs.Translate.Cors.{
  second, seconds, max_age_of, age_pointer, translate_rule, translate_rules, reverse_rule,
  reverse_rules, dropped_headers, unique, translate_s3_to_gcs_cors, translate_gcs_to_s3_cors,
}

-- The age that the library is given is the age that the client asked for exactly up to
-- 9223372036 seconds; above that, for every number that an int holds, the product wraps around.
pub seconds_iff : (n : ℕ) → n < two_63 → (seconds (pos n) ≡ pos (n * second)) ↔ (n ≤ 9223372036)
unfolding seconds of_bits64
seconds_iff n h = (λ e. ground arith, λ k. ground arith)

-- A rule whose age is a number of whole seconds that fits a duration.
abbrev pub IsWhole : Cors → Type 0
IsWhole g = (n : ℕ) × (n ≤ 9223372036) × (g.max_age ≡ pos (n * second))

max_age_of-age_pointer :
    (n : ℕ) → n ≤ 9223372036 → max_age_of (age_pointer (pos (n * second))) ≡ pos (n * second)
unfolding seconds of_bits64
max_age_of-age_pointer n h = ground arith

translate_rule-reverse_rule : (g : Cors) → IsWhole g → translate_rule (reverse_rule g) ≡ g
unfolding translate_rule reverse_rule
translate_rule-reverse_rule g (n, fits, e) = ground (arith, e, max_age_of-age_pointer n fits)

translate_rules-reverse_rules :
    (gs : List Cors) → All IsWhole gs → translate_rules (reverse_rules gs) ≡ gs
unfolding translate_rules reverse_rules
translate_rules-reverse_rules [] h = refl
translate_rules-reverse_rules (g ∷ gs) (h, hs) =
    cc (translate_rule-reverse_rule g h, translate_rules-reverse_rules gs hs)

dropped_headers-reverse_rules : (gs : List Cors) → dropped_headers (reverse_rules gs) ≡ []
unfolding dropped_headers reverse_rules
dropped_headers-reverse_rules [] = refl
dropped_headers-reverse_rules (g ∷ gs) = dropped_headers-reverse_rules gs

unique-nil : (to_lower : Text → Text) → unique to_lower [] [] ≡ []
unfolding unique
unique-nil to_lower = refl

-- CORS rules of GCS that an S3 client reads and writes back unchanged come back as they were, with
-- no header dropped, if each age is a number of whole seconds that fits a duration.
pub translate_s3_to_gcs_cors-translate_gcs_to_s3_cors :
    (to_lower : Text → Text) (gs : List Cors) {cfg : CorsConfiguration}
    → All IsWhole gs
    → translate_gcs_to_s3_cors gs ≡ some cfg
    → translate_s3_to_gcs_cors to_lower cfg ≡ (gs, [])
unfolding translate_gcs_to_s3_cors translate_s3_to_gcs_cors
translate_s3_to_gcs_cors-translate_gcs_to_s3_cors to_lower [] h e = ground arith
translate_s3_to_gcs_cors-translate_gcs_to_s3_cors to_lower (g ∷ gs) h e = ground (
  arith,
  translate_rules-reverse_rules (g ∷ gs) h,
  dropped_headers-reverse_rules (g ∷ gs),
  unique-nil to_lower,
)
