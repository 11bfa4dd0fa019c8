-- ===== src/Translate/Lifecycle/Reverse.antt =====
-- `TranslateGCSToS3Lifecycle` of pkg/translate/gcs_lifecycle.go.
use s3proxy4gcs.Base.{
  ℕ, suc, Bool, true, false, Option, none, some, List, [], ◌∷◌, ◌++◌, Text, codes, decimal, ℤ, pos,
  is_positive, if◌then◌else◌,
}
use s3proxy4gcs.Translate.Dates.{Date, is_zero, format_date}
use s3proxy4gcs.Translate.S3.{Filter, Rule, LifecycleConfiguration}
use s3proxy4gcs.Translate.Gcs.{
  delete_action, set_storage_class_action, abort_incomplete_mpu_action, other_action, Liveness,
  live_and_archived, live, archived, LifecycleRule, Lifecycle,
}
use s3proxy4gcs.Translate.Lifecycle.StorageClass.{reverse_map_storage_class}

-- A pointer to the number if it is positive, nil otherwise.
abbrev pub positive_days : ℤ → Option ℤ
positive_days n = if is_positive n then some n else none

abbrev pub date_of : Date → Option Text
date_of d = if is_zero d then none else some (format_date d)

abbrev pub filter_of : List Text → Option Filter
filter_of [] = none
filter_of (p ∷ ps) = some (record {
  prefix = some p;
  tag = none;
  and = none;
  object_size_greater_than = none;
  object_size_less_than = none;
})

-- The rule before the switch on its action.
abbrev pub base_rule : ℕ → LifecycleRule → Rule
base_rule i g = record {
  id = codes "rule-" ++ decimal i;
  priority = pos 0;
  filter = filter_of g.condition.matches_prefix;
  status = codes "Enabled";
  transitions = [];
  expiration = none;
  noncurrent_version_transitions = [];
  noncurrent_version_expirations = none;
  abort_incomplete_multipart_upload = none;
}

abbrev is_archived : Liveness → Bool
is_archived archived = true
is_archived live = false
is_archived live_and_archived = false

abort_of : ℤ → Rule → Rule
abort_of n r =
    if is_positive n
    then record r {
      abort_incomplete_multipart_upload = some (record { days_after_initiation = some n });
    }
    else r

delete_of : LifecycleRule → Rule → Rule
delete_of g r =
    if is_archived g.condition.liveness
    then record r {
      noncurrent_version_expirations =
          some (record { noncurrent_days = positive_days g.condition.num_newer_versions });
    }
    else record r {
      expiration = some (record {
        days = positive_days g.condition.age_in_days;
        date = date_of g.condition.created_before;
        expired_object_delete_marker = none;
      });
    }

transition_of : LifecycleRule → Rule → Rule
transition_of g r = record r {
  transitions =
      record {
        days = positive_days g.condition.age_in_days;
        date = date_of g.condition.created_before;
        storage_class = reverse_map_storage_class g.action.storage_class;
      }
      ∷ [];
}

-- One round of the loop.
unfoldable pub reverse_rule : ℕ → LifecycleRule → Rule
unfolding abort_of delete_of transition_of
reverse_rule i g = elim g.action.type [
  | delete_action ↦ delete_of g (base_rule i g)
  | set_storage_class_action ↦ transition_of g (base_rule i g)
  | abort_incomplete_mpu_action ↦ abort_of g.condition.age_in_days (base_rule i g)
  | other_action t ↦ base_rule i g
]

unfoldable pub reverse_rules : ℕ → List LifecycleRule → List Rule
reverse_rules i [] = []
reverse_rules i (g ∷ gs) = reverse_rule i g ∷ reverse_rules (suc i) gs

unfoldable pub translate_gcs_to_s3_lifecycle : Lifecycle → LifecycleConfiguration
unfolding reverse_rules reverse_rule
translate_gcs_to_s3_lifecycle gcs_lifecycle = record { rules = reverse_rules 0 gcs_lifecycle.rules }
