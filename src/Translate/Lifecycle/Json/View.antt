-- ===== src/Translate/Lifecycle/Json/View.antt =====
-- The rules of the JSON form of a lifecycle (pkg/translate/gcs_lifecycle.go) seen as rules of the
-- storage library.
use s3proxy4gcs.Base.{
  ◌≡◌, refl, true, false, Bool, Option, none, some, List, [], ◌∷◌, ◌++◌, map, Text, codes, text_eq,
  arith, pos, if◌then◌else◌,
}
use s3proxy4gcs.Base.Result.{Result, ok}
use s3proxy4gcs.Translate.Dates.{Date, zero_date, parse_date, parse_s3_date}
use s3proxy4gcs.Translate.S3.{AndOperator, Filter}
use s3proxy4gcs.Translate.Gcs.{
  ActionType, delete_action, set_storage_class_action, abort_incomplete_mpu_action, other_action,
  Liveness, live_and_archived, live, archived, LifecycleCondition, LifecycleRule,
}
use s3proxy4gcs.Translate.Lifecycle.{
  Error, no_condition, days_or, apply_sdk_filter, prefix_list, and_prefix, validate_and,
  validate_filter, date_before,
}
use s3proxy4gcs.Translate.Lifecycle.Json.{
  GcsLifecycleRule, GcsLifecycleCondition, apply_rule_filter, and_prefixes, date_text,
}

abbrev pub view_date : Option Text → Date
view_date none = zero_date
view_date (some s) = elim (parse_date s) [ none ↦ zero_date | some d ↦ d ]

abbrev pub view_liveness : Option Bool → Liveness
view_liveness none = live_and_archived
view_liveness (some true) = live
view_liveness (some false) = archived

abbrev pub view_action : Text → ActionType
view_action t =
    if text_eq t (codes "Delete")
    then delete_action
    else if text_eq t (codes "SetStorageClass")
    then set_storage_class_action
    else other_action t

-- What a rule in the JSON form says, in the library's terms.
abbrev pub view_rule : GcsLifecycleRule → LifecycleRule
view_rule g = record {
  action = record { type = view_action g.action.type; storage_class = g.action.storage_class };
  condition = record {
    age_in_days = days_or (pos 0) g.condition.age;
    created_before = view_date g.condition.created_before;
    liveness = view_liveness g.condition.is_live;
    matches_prefix = g.condition.matches_prefix;
    num_newer_versions = days_or (pos 0) g.condition.num_newer_versions;
  };
}

abbrev pub is_abort : ActionType → Bool
is_abort abort_incomplete_mpu_action = true
is_abort delete_action = false
is_abort set_storage_class_action = false
is_abort (other_action t) = false

abbrev pub without_aborts : List LifecycleRule → List LifecycleRule
without_aborts [] = []
without_aborts (g ∷ gs) =
    let rest = without_aborts gs in if is_abort g.action.type then rest else g ∷ rest

pub without_aborts-append :
    (xs ys : List LifecycleRule)
    → without_aborts (xs ++ ys) ≡ without_aborts xs ++ without_aborts ys
without_aborts-append [] ys = refl
without_aborts-append (x ∷ xs) ys = ground (arith, without_aborts-append xs ys)

pub and_prefixes_lem :
    (a : Option AndOperator)
    → validate_and a ≡ ok tt
    → and_prefixes a ≡ ok (prefix_list (and_prefix a))
unfolding and_prefixes validate_and
and_prefixes_lem none h = refl
and_prefixes_lem (some a) h = ground arith

-- A filter that passes the library's validation leaves the same prefixes on both ways.
pub apply_rule_filter_lem :
    (f : Option Filter) (c : GcsLifecycleCondition)
    → validate_filter f ≡ ok tt
    → c.matches_prefix ≡ []
    → apply_rule_filter f c
      ≡ ok (record c { matches_prefix = (apply_sdk_filter f no_condition).matches_prefix })
unfolding apply_rule_filter validate_filter apply_sdk_filter
apply_rule_filter_lem none c h e = ground arith
apply_rule_filter_lem (some f) c h e = ground (arith, and_prefixes_lem f.and)

pub view_date-date_text :
    (e : Text → Error) (d : Option Text) {t : Date}
    → date_before e d ≡ ok t
    → view_date (date_text d) ≡ t
unfolding date_before parse_s3_date
view_date-date_text e none h = ground arith
view_date-date_text e (some s) h = ground arith

-- The rules of the two ways, compared.
abbrev pub Agrees : Result Error (List GcsLifecycleRule) → List LifecycleRule → Type 0
Agrees r gs = (js : List GcsLifecycleRule) × (r ≡ ok js) × (map view_rule js ≡ without_aborts gs)

-- `applySDKFilter` touches the prefixes alone, and does not read the other fields.
pub apply_sdk_filter_lem :
    (f : Option Filter) (c : LifecycleCondition)
    → c.matches_prefix ≡ []
    → apply_sdk_filter f c
      ≡ record c { matches_prefix = (apply_sdk_filter f no_condition).matches_prefix }
unfolding apply_sdk_filter
apply_sdk_filter_lem none c e = ground arith
apply_sdk_filter_lem (some f) c e = ground arith

abbrev pub filtered : Option Filter → GcsLifecycleCondition → GcsLifecycleCondition
filtered f c = record c { matches_prefix = (apply_sdk_filter f no_condition).matches_prefix }
