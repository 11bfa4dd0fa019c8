-- ===== src/Translate/Cors/Headers.antt =====
-- The headers that the CORS translation reports as dropped.
use s3proxy4gcs.Base.{
  ℕ, ◌+◌, suc, ◌≡◌, refl, Bool, true, List, [], ◌∷◌, ◌++◌, Text, text_eq, text_eq_iff, Dict, lookup,
  lookup-insert, insert, arith, if◌then◌else◌,
}
use Prim.Native.Nat.{min}
use s3proxy4gcs.Translate.S3.{CorsRule, CorsConfiguration}
use s3proxy4gcs.Translate.Cors.{is_seen, unique, dropped_headers, translate_s3_to_gcs_cors}

module _ (to_lower : Text → Text) (k : Text) where
  -- How many headers of the list have the lower-case spelling `k`.
  abbrev pub count : List Text → ℕ
  count [] = 0
  count (h ∷ hs) = if text_eq (to_lower h) k then suc (count hs) else count hs

  -- How many headers of all rules do.
  abbrev pub count_rules : List CorsRule → ℕ
  count_rules [] = 0
  count_rules (r ∷ rs) = count r.allowed_headers + count_rules rs

  count-append : (xs ys : List Text) → count (xs ++ ys) ≡ count xs + count ys
  count-append [] ys = omega arith
  count-append (x ∷ xs) ys = ground (arith, count-append xs ys)

  count-dropped_headers : (rs : List CorsRule) → count (dropped_headers rs) ≡ count_rules rs
  unfolding dropped_headers
  count-dropped_headers [] = refl
  count-dropped_headers (r ∷ rs) =
      ground (arith, count-append r.allowed_headers (dropped_headers rs), count-dropped_headers rs)

  count-unique :
      (seen : Dict Bool) (hs : List Text)
      → count (unique to_lower seen hs) ≡ (if is_seen k seen then 0 else min 1 (count hs))
  unfolding unique
  count-unique seen [] = ground arith
  count-unique seen (h ∷ hs) = ground (
    arith,
    text_eq_iff (to_lower h) k,
    lookup-insert (to_lower h) k true seen,
    count-unique seen hs,
    count-unique (insert (to_lower h) true seen) hs,
  )

  -- Of the allowed headers of all rules together, the warning names one of each spelling, letter
  -- case aside: exactly one if there is any, and none otherwise.
  pub count-translate_s3_to_gcs_cors :
      (cfg : CorsConfiguration)
      → count (translate_s3_to_gcs_cors to_lower cfg).1 ≡ min 1 (count_rules cfg.cors_rules)
  unfolding translate_s3_to_gcs_cors lookup
  count-translate_s3_to_gcs_cors cfg = ground (
    arith,
    count-unique [] (dropped_headers cfg.cors_rules),
    count-dropped_headers cfg.cors_rules,
  )
