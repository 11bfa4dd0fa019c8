-- ===== src/Translate/Lifecycle/Accepts.antt =====
-- Which lifecycle configurations `TranslateS3ToGCSLifecycle` accepts.
use s3proxy4gcs.Base.{
  ◌≡◌, ◌↔◌, none, some, Option, List, [], ◌∷◌, ◌++◌, Text, codes, text_eq_iff, arith, All,
  Bool-cases, inl, inr, sym, ◌∙◌,
}
use mathlib.Core.Bool.{false≢true}
use s3proxy4gcs.Base.Result.{IsOk, IsOk-map, IsOk-seq, IsOk-then, ok_or-IsOk}
use s3proxy4gcs.Translate.Dates.{Date, parse_s3_date}
use s3proxy4gcs.Translate.S3.{
  AndOperator, Filter, Transition, Expiration, Rule, LifecycleConfiguration,
}
use s3proxy4gcs.Translate.Lifecycle.{
  Error, invalid_expiration_date, invalid_transition_date, is_enabled, validate_and,
  validate_filter, date_before, translate_expiration, translate_transition, translate_transitions,
  translate_enabled, translate_rule, translate_rules, translate_s3_to_gcs_lifecycle,
}

abbrev pub IsSupportedAnd : Option AndOperator → Type 0
IsSupportedAnd none = Unit
IsSupportedAnd (some a) =
    (a.object_size_greater_than ≡ none) × (a.object_size_less_than ≡ none) × (a.tags ≡ [])

-- A filter by prefixes alone.
abbrev pub IsSupportedFilter : Option Filter → Type 0
IsSupportedFilter none = Unit
IsSupportedFilter (some f) =
    (f.object_size_greater_than ≡ none)
    × (f.object_size_less_than ≡ none)
    × (f.tag ≡ none)
    × IsSupportedAnd f.and

abbrev pub HasDate : Option Text → Type 0
HasDate none = Unit
HasDate (some s) = (d : Date) × (parse_s3_date s ≡ some d)

abbrev pub HasExpirationDate : Option Expiration → Type 0
HasExpirationDate none = Unit
HasExpirationDate (some e) = HasDate e.date

abbrev pub IsTranslatable : Rule → Type 0
IsTranslatable r =
    IsSupportedFilter r.filter
    × HasExpirationDate r.expiration
    × All (λ t. HasDate t.date) r.transitions

validate_and-IsOk : (a : Option AndOperator) → IsOk (validate_and a) ↔ IsSupportedAnd a
unfolding validate_and
validate_and-IsOk none = ground arith
validate_and-IsOk (some a) = ground arith

validate_filter-IsOk : (f : Option Filter) → IsOk (validate_filter f) ↔ IsSupportedFilter f
unfolding validate_filter
validate_filter-IsOk none = ground arith
validate_filter-IsOk (some f) = ground (arith, validate_and-IsOk f.and)

date_before-IsOk : (e : Text → Error) (d : Option Text) → IsOk (date_before e d) ↔ HasDate d
unfolding date_before
date_before-IsOk e none = ground arith
date_before-IsOk e (some s) = ok_or-IsOk (parse_s3_date s) (e s)

translate_expiration-IsOk :
    (f : Option Filter) (e : Option Expiration)
    → IsOk (translate_expiration f e) ↔ HasExpirationDate e
unfolding translate_expiration
translate_expiration-IsOk f none = (λ h. tt, λ h. tt)
translate_expiration-IsOk f (some e) =
    let (to, from) = date_before-IsOk invalid_expiration_date e.date in
    let (down, up) = IsOk-map (date_before invalid_expiration_date e.date) _ in
    (λ h. to (down h), λ h. up (from h))

translate_transition-IsOk :
    (f : Option Filter) (t : Transition) → IsOk (translate_transition f t) ↔ HasDate t.date
unfolding translate_transition
translate_transition-IsOk f t =
    let (to, from) = date_before-IsOk invalid_transition_date t.date in
    let (down, up) = IsOk-map (date_before invalid_transition_date t.date) _ in
    (λ h. to (down h), λ h. up (from h))

translate_transitions-IsOk :
    (f : Option Filter) (ts : List Transition)
    → IsOk (translate_transitions f ts) ↔ All (λ t. HasDate t.date) ts
unfolding translate_transitions
translate_transitions-IsOk f [] = (λ h. tt, λ h. tt)
translate_transitions-IsOk f (t ∷ ts) =
    let (to, from) = translate_transition-IsOk f t in
    let (tos, froms) = translate_transitions-IsOk f ts in
    let (down, up) = IsOk-seq (translate_transition f t) (translate_transitions f ts) ◌∷◌ in
    (λ h. (to (down h).0, tos (down h).1), λ h. up (from h.0, froms h.1))

translate_enabled-IsOk : (r : Rule) → IsOk (translate_enabled r) ↔ IsTranslatable r
unfolding translate_enabled
translate_enabled-IsOk r =
    let (filter_to, filter_from) = validate_filter-IsOk r.filter in
    let (date_to, date_from) = translate_expiration-IsOk r.filter r.expiration in
    let (dates_to, dates_from) = translate_transitions-IsOk r.filter r.transitions in
    let (guarded, guard) = IsOk-then (validate_filter r.filter) _ in
    let (both, join) =
      IsOk-seq (translate_expiration r.filter r.expiration)
        (translate_transitions r.filter r.transitions) _ in
    (
      λ h.
          let (f, rest) = guarded h in
          let (e, ts) = both rest in (filter_to f, date_to e, dates_to ts),
      λ (f, e, ts). guard (filter_from f, join (date_from e, dates_from ts)),
    )

translate_rule-IsOk :
    (r : Rule) → IsOk (translate_rule r) ↔ (r.status ≡ codes "Enabled" → IsTranslatable r)
unfolding translate_rule
translate_rule-IsOk r = elim (Bool-cases (is_enabled r)) [
  | inl on ↦
      let (to, from) = translate_enabled-IsOk r in
      rw on (λ h _. to h, λ h. from (h ((text_eq_iff _ _).0 on)))
  | inr off ↦ rw off (λ _ e. absurd (false≢true (sym off ∙ (text_eq_iff _ _).1 e)), λ _. tt)
]

translate_rules-IsOk :
    (rs : List Rule)
    → IsOk (translate_rules rs) ↔ All (λ r. r.status ≡ codes "Enabled" → IsTranslatable r) rs
unfolding translate_rules
translate_rules-IsOk [] = (λ _. tt, λ _. tt)
translate_rules-IsOk (r ∷ rs) =
    let (to, from) = translate_rule-IsOk r in
    let (tos, froms) = translate_rules-IsOk rs in
    let (both, join) = IsOk-seq (translate_rule r) (translate_rules rs) ◌++◌ in
    (λ h. (to (both h).0, tos (both h).1), λ (h, hs). join (from h, froms hs))

-- The lifecycle translation succeeds exactly when each enabled rule filters by prefixes alone and
-- every date in its expiration and transitions is a day of the calendar; disabled rules may hold
-- anything.
pub translate_s3_to_gcs_lifecycle-IsOk :
    (cfg : LifecycleConfiguration)
    → IsOk (translate_s3_to_gcs_lifecycle cfg)
      ↔ All (λ r. r.status ≡ codes "Enabled" → IsTranslatable r) cfg.rules
unfolding translate_s3_to_gcs_lifecycle
translate_s3_to_gcs_lifecycle-IsOk cfg =
    let (to, from) = translate_rules-IsOk cfg.rules in
    let (down, up) = IsOk-map (translate_rules cfg.rules) _ in (λ h. to (down h), λ h. up (from h))
