-- ===== src/Translate/Gcs.antt =====
-- The values of cloud.google.com/go/storage that the proxy reads and writes, with the fields that
-- it uses. A field that the proxy never sets keeps its zero value and is left out.
use s3proxy4gcs.Base.{Bool, List, Text, Dict, ℤ}
use s3proxy4gcs.Translate.Dates.{Date}

-- The constants of `LifecycleAction.Type` that the proxy knows, and any other.
pub data ActionType : Type 0 where
  delete_action set_storage_class_action abort_incomplete_mpu_action : ActionType
  other_action : Text → ActionType

pub record LifecycleAction : Type 0 where
  pub type : ActionType
  pub storage_class : Text

pub data Liveness : Type 0 where
  live_and_archived live archived : Liveness

pub record LifecycleCondition : Type 0 where
  pub age_in_days : ℤ
  pub created_before : Date
  pub liveness : Liveness
  pub matches_prefix : List Text
  pub num_newer_versions : ℤ

pub record LifecycleRule : Type 0 where
  pub action : LifecycleAction
  pub condition : LifecycleCondition

pub record Lifecycle : Type 0 where
  pub rules : List LifecycleRule

pub record Cors : Type 0 where
  pub max_age : ℤ
  pub methods : List Text
  pub origins : List Text
  pub response_headers : List Text

pub record BucketLogging : Type 0 where
  pub log_bucket : Text
  pub log_object_prefix : Text

pub record BucketWebsite : Type 0 where
  pub main_page_suffix : Text
  pub not_found_page : Text

pub record ContextPayload : Type 0 where
  pub value : Text
  pub delete : Bool

pub record ObjectContexts : Type 0 where
  pub custom : Dict ContextPayload
