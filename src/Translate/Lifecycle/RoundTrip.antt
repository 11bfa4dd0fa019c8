-- ===== src/Translate/Lifecycle/RoundTrip.antt =====
-- GCS lifecycles shown to an S3 client by `TranslateGCSToS3Lifecycle` and written back unchanged by
-- `TranslateS3ToGCSLifecycle`.
use s3proxy4gcs.Base.{
  ltb, ℕ, suc, ◌<◌, ◌≡◌, ◌≢◌, inl, inr, refl, sym, ap, true, false, List, [], ◌∷◌, Text, codes,
  text_eq, text_eq_iff, arith, All, Bool-cases, pos,
}
use s3proxy4gcs.Base.Result.{ok}
use s3proxy4gcs.Translate.Dates.{Date, zero_date, is_zero, is_civil}
use s3proxy4gcs.Translate.Dates.RoundTrip.{parse_s3_date-format_date}
use s3proxy4gcs.Translate.Gcs.{
  delete_action, set_storage_class_action, archived, LifecycleCondition, LifecycleRule, Lifecycle,
}
use s3proxy4gcs.Translate.Lifecycle.{
  Error, invalid_expiration_date, invalid_transition_date, action, no_condition, days_or,
  abort_rule, apply_sdk_filter, validate_filter, date_before, translate_expiration,
  translate_transition, translate_transitions, translate_noncurrent, translate_abort,
  translate_enabled, translate_rule, translate_rules, translate_s3_to_gcs_lifecycle,
}
use s3proxy4gcs.Translate.Lifecycle.StorageClass.{map_storage_class, reverse_map_storage_class}
use s3proxy4gcs.Translate.Lifecycle.Reverse.{
  positive_days, date_of, filter_of, reverse_rule, reverse_rules, translate_gcs_to_s3_lifecycle,
}

-- No prefix, or one that is not empty.
abbrev pub IsSinglePrefix : List Text → Type 0
IsSinglePrefix [] = Unit
IsSinglePrefix (p ∷ []) = p ≢ []
IsSinglePrefix (p ∷ q ∷ ps) = ⊥

abbrev pub IsDay : Date → Type 0
IsDay d = (d.year < 10000) × (is_civil d ≡ true)

-- The storage classes of GCS that a transition may name.
pub data GcsClass : Text → Type 0 where
  standard : GcsClass (codes "STANDARD")
  nearline : GcsClass (codes "NEARLINE")
  coldline : GcsClass (codes "COLDLINE")
  archive : GcsClass (codes "ARCHIVE")

abbrev pub aged : ℕ → Date → List Text → LifecycleCondition
aged n d ps = record no_condition { age_in_days = pos n; created_before = d; matches_prefix = ps }

abbrev pub newer : ℕ → List Text → LifecycleCondition
newer n ps = record no_condition {
  liveness = archived;
  num_newer_versions = pos n;
  matches_prefix = ps;
}

-- The GCS rules that S3 has words for.
pub data IsCommon : LifecycleRule → Type 0 where
  expire :
      (n : ℕ) (d : Date) (ps : List Text)
      → IsDay d
      → IsSinglePrefix ps
      → IsCommon (record { action = action delete_action []; condition = aged n d ps })
  transit :
      (n : ℕ) (d : Date) (ps : List Text) (c : Text)
      → IsDay d
      → IsSinglePrefix ps
      → GcsClass c
      → IsCommon (record { action = action set_storage_class_action c; condition = aged n d ps })
  expire_noncurrent :
      (n : ℕ) (ps : List Text)
      → IsSinglePrefix ps
      → IsCommon (record { action = action delete_action []; condition = newer n ps })
  abort : (n : ℕ) → IsCommon (abort_rule (pos (suc n)))

validate_filter-filter_of : (ps : List Text) → validate_filter (filter_of ps) ≡ ok tt
unfolding validate_filter
validate_filter-filter_of [] = refl
validate_filter-filter_of (p ∷ ps) = refl

text_eq-nil : (p : Text) → p ≢ [] → text_eq p [] ≡ false
text_eq-nil p h = ground (arith, text_eq_iff p [])

apply_sdk_filter-filter_of :
    (ps : List Text) (c : LifecycleCondition)
    → IsSinglePrefix ps
    → c.matches_prefix ≡ []
    → apply_sdk_filter (filter_of ps) c ≡ record c { matches_prefix = ps }
unfolding apply_sdk_filter
apply_sdk_filter-filter_of [] c h e = ground arith
apply_sdk_filter-filter_of (p ∷ []) c h e = rw (text_eq-nil p h)
apply_sdk_filter-filter_of (p ∷ q ∷ ps) c h e = absurd h

is_zero-zero_date : (d : Date) → is_zero d ≡ true → d ≡ zero_date
is_zero-zero_date d h = ground arith

date_before-date_of : (e : Text → Error) (d : Date) → IsDay d → date_before e (date_of d) ≡ ok d
unfolding date_before
date_before-date_of e d (y, c) = elim (Bool-cases (is_zero d)) [
  | inl zero ↦ rw zero (ap ok (sym (is_zero-zero_date d zero)))
  | inr later ↦ rw (later, parse_s3_date-format_date d y c)
]

days_or-positive_days : (n : ℕ) → days_or (pos 0) (positive_days (pos n)) ≡ pos n
days_or-positive_days n = ground arith

ltb-zero-suc : (n : ℕ) → ltb 0 (suc n) ≡ true
ltb-zero-suc n = ground arith

map-reverse_map : {c : Text} → GcsClass c → map_storage_class (reverse_map_storage_class c) ≡ c
unfolding map_storage_class reverse_map_storage_class text_eq
map-reverse_map standard = refl
map-reverse_map nearline = refl
map-reverse_map coldline = refl
map-reverse_map archive = refl

translate_rule-reverse_rule :
    (i : ℕ) {g : LifecycleRule} → IsCommon g → translate_rule (reverse_rule i g) ≡ ok (g ∷ [])
unfolding translate_rule translate_enabled reverse_rule text_eq translate_expiration
    translate_transition translate_transitions translate_noncurrent translate_abort
translate_rule-reverse_rule i (expire n d ps day single) = simp (
  validate_filter-filter_of,
  date_before-date_of invalid_expiration_date d day,
  apply_sdk_filter-filter_of ps no_condition single refl,
  days_or-positive_days,
)
translate_rule-reverse_rule i (transit n d ps c day single class) = simp (
  validate_filter-filter_of,
  date_before-date_of invalid_transition_date d day,
  apply_sdk_filter-filter_of ps no_condition single refl,
  days_or-positive_days,
  map-reverse_map class,
)
translate_rule-reverse_rule i (expire_noncurrent n ps single) = simp (
  validate_filter-filter_of,
  days_or-positive_days,
  apply_sdk_filter-filter_of ps (newer n []) single refl,
)
translate_rule-reverse_rule i (abort n) = rw (ltb-zero-suc n, validate_filter-filter_of [])

translate_rules-reverse_rules :
    (i : ℕ) (gs : List LifecycleRule)
    → All IsCommon gs
    → translate_rules (reverse_rules i gs) ≡ ok gs
unfolding translate_rules reverse_rules
translate_rules-reverse_rules i [] h = refl
translate_rules-reverse_rules i (g ∷ gs) (h, hs) =
    rw (translate_rule-reverse_rule i h, translate_rules-reverse_rules (suc i) gs hs)

-- A GCS lifecycle that is shown to an S3 client and written back unchanged gives the same GCS
-- lifecycle, if each of its rules is one that S3 has words for: an expiration or a transition to
-- one of the four storage classes by age and date with at most one prefix, the deletion of
-- noncurrent versions with at most one prefix, or the abortion of uploads after some days.
pub translate_s3_to_gcs_lifecycle-translate_gcs_to_s3_lifecycle :
    (l : Lifecycle)
    → All IsCommon l.rules
    → translate_s3_to_gcs_lifecycle (translate_gcs_to_s3_lifecycle l) ≡ ok l
unfolding translate_s3_to_gcs_lifecycle translate_gcs_to_s3_lifecycle
translate_s3_to_gcs_lifecycle-translate_gcs_to_s3_lifecycle l h =
    rw (translate_rules-reverse_rules 0 l.rules h)
