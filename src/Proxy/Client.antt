-- ===== src/Proxy/Client.antt =====
-- What the handlers use of the world outside the repository: the GCS client of the storage library,
-- and the settings and codecs that they are given.
use s3proxy4gcs.Base.{ℕ, Bool, Option, none, List, Text}
use s3proxy4gcs.Base.Result.{Result}
use s3proxy4gcs.Config.{Settings}
use s3proxy4gcs.CredStore.{Store}
use s3proxy4gcs.Translate.S3.{
  LifecycleConfiguration, CorsConfiguration, BucketLoggingStatus, WebsiteConfiguration, Tagging,
}
use s3proxy4gcs.Translate.Gcs.{Lifecycle, Cors, BucketLogging, BucketWebsite, ObjectContexts}

-- An error of the storage library, by what `errors.As` and `errors.Is` find in it.
pub record GcsError : Type 0 where
  pub api_code : Option ℕ
  pub is_canceled : Bool
  pub is_deadline_exceeded : Bool
  pub is_object_not_exist : Bool

pub record BucketAttrs : Type 0 where
  pub lifecycle : Lifecycle
  pub cors : List Cors
  pub logging : Option BucketLogging
  pub website : Option BucketWebsite

-- A nil field, `none`, asks for no change.
pub record BucketAttrsToUpdate : Type 0 where
  pub lifecycle : Option Lifecycle
  pub cors : Option (List Cors)
  pub logging : Option BucketLogging
  pub website : Option BucketWebsite

abbrev pub no_update : BucketAttrsToUpdate
no_update = record { lifecycle = none; cors = none; logging = none; website = none }

pub record ObjectAttrs : Type 0 where
  pub contexts : Option ObjectContexts
  pub metageneration : ℕ

-- The environment of the handlers, over the state `W` of the storage service: what
-- `Bucket(b).Attrs`, `Bucket(b).Update`, `Object(o).Attrs` and `Object(o).If(…).Update` answer.
-- The credential store may be swapped while a request is handled, so each of its three loads has
-- its own snapshot.
pub record Env (W : Type 0) : Type 0 where
  pub settings : Settings
  pub store_at_gate : Store
  pub store_at_validation : Store
  pub store_at_lookup : Store
  pub has_client : Bool
  pub now : Text
  pub to_lower : Text → Text
  pub unmarshal_lifecycle : Text → Option LifecycleConfiguration
  pub unmarshal_cors : Text → Option CorsConfiguration
  pub unmarshal_logging : Text → Option BucketLoggingStatus
  pub unmarshal_website : Text → Option WebsiteConfiguration
  pub unmarshal_tagging : Text → Option Tagging
  pub bucket_attrs : Text → W → Result GcsError BucketAttrs
  pub bucket_update : Text → BucketAttrsToUpdate → W → Result GcsError (Unit {0}) × W
  pub object_attrs : Text → Text → W → Result GcsError ObjectAttrs
  pub object_update : Text → Text → ℕ → ObjectContexts → W → Result GcsError (Unit {0}) × W
