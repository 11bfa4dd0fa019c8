-- ===== src/Translate/Lifecycle.antt =====
-- pkg/translate/gcs_lifecycle.go: the translation onto the storage library, and back.
-- A loop that appends to `lifecycle.Rules` is a recursion that returns what it appends.
pub mod StorageClass
pub mod Reverse
pub mod Json
pub mod Accepts
pub mod RoundTrip
use s3proxy4gcs.Base.{
  ℕ, zero, suc, ◌+◌, ◌/◌, ◌%◌, Bool, true, false, ◌&&◌, ◌||◌, not, Option, none, some, List, [],
  ◌∷◌, ◌++◌, Text, codes, text_eq, ℤ, pos, is_positive, is_some, is_nil, if◌then◌else◌,
}
use s3proxy4gcs.Base.Result.{Result, ok, err, ◌>>=◌, ◌>>◌, ok_or}
use s3proxy4gcs.Translate.Dates.{Date, zero_date, is_zero, parse_s3_date, format_date}
use s3proxy4gcs.Translate.S3.{
  AndOperator, Filter, Transition, Expiration, NoncurrentVersionExpiration,
  AbortIncompleteMultipartUpload, Rule, LifecycleConfiguration,
}
use s3proxy4gcs.Translate.Gcs.{
  ActionType, delete_action, set_storage_class_action, abort_incomplete_mpu_action, other_action,
  Liveness, live_and_archived, live, archived, LifecycleAction, LifecycleCondition, LifecycleRule,
  Lifecycle,
}
use StorageClass.{map_storage_class, reverse_map_storage_class}

-- The errors, by the message that they carry.
pub data Error : Type 0 where
  object_size_filter tag_filter object_size_in_and tag_in_and : Error
  invalid_expiration_date invalid_transition_date : Text → Error

abbrev pub is_enabled : Rule → Bool
is_enabled r = text_eq r.status (codes "Enabled")

abbrev pub fail_if : Bool → Error → Result Error (Unit {0})
fail_if true e = err e
fail_if false e = ok tt

pub validate_and : Option AndOperator → Result Error (Unit {0})
validate_and none = ok tt
validate_and (some a) = do
  fail_if (is_some a.object_size_greater_than || is_some a.object_size_less_than) object_size_in_and
  fail_if (not (is_nil a.tags)) tag_in_and

-- The `Validate filter` block.
pub validate_filter : Option Filter → Result Error (Unit {0})
unfolding validate_and
validate_filter none = ok tt
validate_filter (some f) = do
  fail_if (is_some f.object_size_greater_than || is_some f.object_size_less_than) object_size_filter
  fail_if (is_some f.tag) tag_filter
  validate_and f.and

-- `p != nil && *p != ""`, as the prefixes that it adds.
abbrev pub prefix_list : Option Text → List Text
prefix_list none = []
prefix_list (some p) = if text_eq p [] then [] else p ∷ []

abbrev pub and_prefix : Option AndOperator → Option Text
and_prefix none = none
and_prefix (some a) = a.prefix

-- The prefixes that `applySDKFilter` leaves in a condition whose prefixes are `c`.
unfoldable pub apply_sdk_filter : Option Filter → LifecycleCondition → LifecycleCondition
apply_sdk_filter none c = c
apply_sdk_filter (some f) c =
    let first = if is_nil (prefix_list f.prefix) then c.matches_prefix else prefix_list f.prefix in
    record c { matches_prefix = first ++ prefix_list (and_prefix f.and) }

abbrev pub no_condition : LifecycleCondition
no_condition = record {
  age_in_days = pos 0;
  created_before = zero_date;
  liveness = live_and_archived;
  matches_prefix = [];
  num_newer_versions = pos 0;
}

abbrev pub days_or : ℤ → Option ℤ → ℤ
days_or d none = d
days_or d (some n) = n

-- The `Date` block of a rule, with the error that a bad date gives.
pub date_before : (Text → Error) → Option Text → Result Error Date
date_before e none = ok zero_date
date_before e (some s) = ok_or (parse_s3_date s) (e s)

abbrev pub action : ActionType → Text → LifecycleAction
action t c = record { type = t; storage_class = c }

translate_expiration : Option Filter → Option Expiration → Result Error (List LifecycleRule)
unfolding date_before
translate_expiration f none = ok []
translate_expiration f (some e) = do
  before ← date_before invalid_expiration_date e.date
  let c = record (apply_sdk_filter f no_condition) {
    age_in_days = days_or (pos 0) e.days;
    created_before = before;
  }
  ok (record { action = action delete_action []; condition = c } ∷ [])

translate_transition : Option Filter → Transition → Result Error LifecycleRule
unfolding date_before
translate_transition f t = do
  before ← date_before invalid_transition_date t.date
  let c = record (apply_sdk_filter f no_condition) {
    age_in_days = days_or (pos 0) t.days;
    created_before = before;
  }
  ok (record {
    action = action set_storage_class_action (map_storage_class t.storage_class);
    condition = c;
  })

translate_transitions : Option Filter → List Transition → Result Error (List LifecycleRule)
translate_transitions f [] = ok []
translate_transitions f (t ∷ ts) = do
  g ← translate_transition f t
  gs ← translate_transitions f ts
  ok (g ∷ gs)

translate_noncurrent : Option Filter → Option NoncurrentVersionExpiration → List LifecycleRule
translate_noncurrent f none = []
translate_noncurrent f (some n) =
    let c = record no_condition {
      liveness = archived;
      num_newer_versions = days_or (pos 0) n.noncurrent_days;
    } in
    record { action = action delete_action []; condition = apply_sdk_filter f c } ∷ []

abbrev abort_days : Option AbortIncompleteMultipartUpload → Option ℤ
abort_days none = none
abort_days (some a) = a.days_after_initiation

abbrev pub abort_rule : ℤ → LifecycleRule
abort_rule days = record {
  action = action abort_incomplete_mpu_action [];
  condition = record no_condition { age_in_days = days };
}

translate_abort : Option AbortIncompleteMultipartUpload → List LifecycleRule
translate_abort a = elim (abort_days a) [ none ↦ [] | some days ↦ abort_rule days ∷ [] ]

-- What one round of the loop appends for an enabled rule.
translate_enabled : Rule → Result Error (List LifecycleRule)
translate_enabled r = do
  validate_filter r.filter
  expirations ← translate_expiration r.filter r.expiration
  transitions ← translate_transitions r.filter r.transitions
  ok (
      expirations
      ++ (transitions
          ++ (translate_noncurrent r.filter r.noncurrent_version_expirations
              ++ translate_abort r.abort_incomplete_multipart_upload)))

translate_rule : Rule → Result Error (List LifecycleRule)
translate_rule r = if is_enabled r then translate_enabled r else ok []

translate_rules : List Rule → Result Error (List LifecycleRule)
translate_rules [] = ok []
translate_rules (r ∷ rs) = do gs ← translate_rule r; more ← translate_rules rs; ok (gs ++ more)

unfoldable pub translate_s3_to_gcs_lifecycle : LifecycleConfiguration → Result Error Lifecycle
unfolding translate_rules translate_rule translate_enabled validate_filter translate_expiration
    translate_transitions translate_transition translate_noncurrent translate_abort
translate_s3_to_gcs_lifecycle cfg = do
  rules ← translate_rules cfg.rules
  ok (record { rules = rules })
