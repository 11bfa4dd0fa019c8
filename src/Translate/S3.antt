-- ===== src/Translate/S3.antt =====
-- The S3 documents of pkg/translate/s3_*.go. The XML names are left out: they bind no value.
use s3proxy4gcs.Base.{Bool, Option, List, Text, ℤ}

pub record Tag : Type 0 where
  pub key : Text
  pub value : Text

pub record AndOperator : Type 0 where
  pub prefix : Option Text
  pub tags : List Tag
  pub object_size_greater_than : Option ℤ
  pub object_size_less_than : Option ℤ

pub record Filter : Type 0 where
  pub prefix : Option Text
  pub tag : Option Tag
  pub and : Option AndOperator
  pub object_size_greater_than : Option ℤ
  pub object_size_less_than : Option ℤ

pub record Transition : Type 0 where
  pub days : Option ℤ
  pub date : Option Text
  pub storage_class : Text

pub record Expiration : Type 0 where
  pub days : Option ℤ
  pub date : Option Text
  pub expired_object_delete_marker : Option Bool

pub record NoncurrentVersionTransition : Type 0 where
  pub noncurrent_days : Option ℤ
  pub storage_class : Text

pub record NoncurrentVersionExpiration : Type 0 where
  pub noncurrent_days : Option ℤ

pub record AbortIncompleteMultipartUpload : Type 0 where
  pub days_after_initiation : Option ℤ

pub record Rule : Type 0 where
  pub id : Text
  pub priority : ℤ
  pub filter : Option Filter
  pub status : Text
  pub transitions : List Transition
  pub expiration : Option Expiration
  pub noncurrent_version_transitions : List NoncurrentVersionTransition
  pub noncurrent_version_expirations : Option NoncurrentVersionExpiration
  pub abort_incomplete_multipart_upload : Option AbortIncompleteMultipartUpload

pub record LifecycleConfiguration : Type 0 where
  pub rules : List Rule

pub record CorsRule : Type 0 where
  pub id : Option Text
  pub allowed_headers : List Text
  pub allowed_methods : List Text
  pub allowed_origins : List Text
  pub expose_headers : List Text
  pub max_age_seconds : Option ℤ

pub record CorsConfiguration : Type 0 where
  pub cors_rules : List CorsRule

pub record LoggingEnabled : Type 0 where
  pub target_bucket : Text
  pub target_prefix : Text

pub record BucketLoggingStatus : Type 0 where
  pub logging_enabled : Option LoggingEnabled

pub record Tagging : Type 0 where
  pub tag_set : List Tag

pub record IndexDocument : Type 0 where
  pub suffix : Text

pub record ErrorDocument : Type 0 where
  pub key : Text

pub record WebsiteConfiguration : Type 0 where
  pub index_document : Option IndexDocument
  pub error_document : Option ErrorDocument
