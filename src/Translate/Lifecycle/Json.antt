-- ===== src/Translate/Lifecycle/Json.antt =====
-- `TranslateS3ToGCS` of pkg/translate/gcs_lifecycle.go, the older translation onto the JSON form;
-- the value is the one that is handed to `json.MarshalIndent`.
pub mod View
pub mod Agreement
use s3proxy4gcs.Base.{
  Bool, true, false, ◌&&◌, ◌||◌, not, Option, none, some, List, [], ◌∷◌, ◌++◌, Text, codes, ℤ,
  is_some, is_nil, if◌then◌else◌,
}
use s3proxy4gcs.Base.Result.{Result, ok, err, ◌>>=◌, ◌>>◌}
use s3proxy4gcs.Translate.Dates.{format_date_s3_to_gcs}
use s3proxy4gcs.Translate.S3.{
  AndOperator, Filter, Transition, Expiration, NoncurrentVersionExpiration, Rule,
  LifecycleConfiguration,
}
use s3proxy4gcs.Translate.Lifecycle.{
  Error, object_size_filter, tag_filter, object_size_in_and, tag_in_and, is_enabled, fail_if,
  prefix_list,
}
use s3proxy4gcs.Translate.Lifecycle.StorageClass.{map_storage_class}

pub record GcsLifecycleAction : Type 0 where
  pub type : Text
  pub storage_class : Text

pub record GcsLifecycleCondition : Type 0 where
  pub age : Option ℤ
  pub created_before : Option Text
  pub is_live : Option Bool
  pub matches_storage_class : List Text
  pub matches_prefix : List Text
  pub matches_suffix : List Text
  pub num_newer_versions : Option ℤ

pub record GcsLifecycleRule : Type 0 where
  pub action : GcsLifecycleAction
  pub condition : GcsLifecycleCondition

pub record GcsLifecycle : Type 0 where
  pub rules : List GcsLifecycleRule

abbrev pub empty_condition : GcsLifecycleCondition
empty_condition = record {
  age = none;
  created_before = none;
  is_live = none;
  matches_storage_class = [];
  matches_prefix = [];
  matches_suffix = [];
  num_newer_versions = none;
}

pub and_prefixes : Option AndOperator → Result Error (List Text)
and_prefixes none = ok []
and_prefixes (some a) = do
  fail_if (is_some a.object_size_greater_than || is_some a.object_size_less_than) object_size_in_and
  fail_if (not (is_nil a.tags)) tag_in_and
  ok (prefix_list a.prefix)

-- The condition that `applyRuleFilter` leaves behind, or its error.
unfoldable pub apply_rule_filter :
    Option Filter → GcsLifecycleCondition → Result Error GcsLifecycleCondition
unfolding and_prefixes
apply_rule_filter none c = ok c
apply_rule_filter (some f) c = do
  fail_if (is_some f.object_size_greater_than || is_some f.object_size_less_than) object_size_filter
  fail_if (is_some f.tag) tag_filter
  let first = if is_nil (prefix_list f.prefix) then c.matches_prefix else prefix_list f.prefix
  more ← and_prefixes f.and
  ok (record c { matches_prefix = first ++ more })

abbrev date_text : Option Text → Option Text
date_text none = none
date_text (some s) = some (format_date_s3_to_gcs s)

json_expiration : Option Filter → Option Expiration → Result Error (List GcsLifecycleRule)
json_expiration f none = ok []
json_expiration f (some e) = do
  c ← apply_rule_filter f empty_condition
  ok (
      record {
        action = record { type = codes "Delete"; storage_class = [] };
        condition = record c { age = e.days; created_before = date_text e.date };
      }
      ∷ [])

json_transition : Option Filter → Transition → Result Error GcsLifecycleRule
json_transition f t = do
  c ← apply_rule_filter f empty_condition
  ok (record {
    action = record {
      type = codes "SetStorageClass";
      storage_class = map_storage_class t.storage_class;
    };
    condition = record c { age = t.days; created_before = date_text t.date };
  })

json_transitions : Option Filter → List Transition → Result Error (List GcsLifecycleRule)
json_transitions f [] = ok []
json_transitions f (t ∷ ts) = do g ← json_transition f t; gs ← json_transitions f ts; ok (g ∷ gs)

json_noncurrent :
    Option Filter → Option NoncurrentVersionExpiration → Result Error (List GcsLifecycleRule)
json_noncurrent f none = ok []
json_noncurrent f (some n) = do
  let live_off = record empty_condition {
    is_live = some false;
    num_newer_versions = n.noncurrent_days;
  }
  c ← apply_rule_filter f live_off
  ok (record { action = record { type = codes "Delete"; storage_class = [] }; condition = c } ∷ [])

json_enabled : Rule → Result Error (List GcsLifecycleRule)
json_enabled r = do
  expirations ← json_expiration r.filter r.expiration
  transitions ← json_transitions r.filter r.transitions
  noncurrent ← json_noncurrent r.filter r.noncurrent_version_expirations
  ok (expirations ++ (transitions ++ noncurrent))

json_rule : Rule → Result Error (List GcsLifecycleRule)
json_rule r = if is_enabled r then json_enabled r else ok []

json_rules : List Rule → Result Error (List GcsLifecycleRule)
json_rules [] = ok []
json_rules (r ∷ rs) = do gs ← json_rule r; more ← json_rules rs; ok (gs ++ more)

unfoldable pub translate_s3_to_gcs : LifecycleConfiguration → Result Error GcsLifecycle
unfolding json_rules json_rule json_enabled json_expiration json_transitions json_transition
    json_noncurrent apply_rule_filter
translate_s3_to_gcs cfg = do rules ← json_rules cfg.rules; ok (record { rules = rules })
