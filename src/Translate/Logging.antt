-- ===== src/Translate/Logging.antt =====
-- pkg/translate/gcs_logging.go. A nil pointer is `none`.
use s3proxy4gcs.Base.{
  ◌≡◌, ◌≢◌, ◌↔◌, refl, Option, none, some, [], text_eq, text_eq_iff, arith, if◌then◌else◌,
}
use s3proxy4gcs.Translate.S3.{LoggingEnabled, BucketLoggingStatus}
use s3proxy4gcs.Translate.Gcs.{BucketLogging}

unfoldable pub translate_s3_to_gcs_logging : BucketLoggingStatus → Option BucketLogging
translate_s3_to_gcs_logging s3_cfg = elim s3_cfg.logging_enabled [
  | none ↦ none
  | some l ↦ some (record { log_bucket = l.target_bucket; log_object_prefix = l.target_prefix })
]

unfoldable pub translate_gcs_to_s3_logging : Option BucketLogging → BucketLoggingStatus
translate_gcs_to_s3_logging none = record { logging_enabled = none }
translate_gcs_to_s3_logging (some g) =
    if text_eq g.log_bucket [] then record { logging_enabled = none } else record {
      logging_enabled =
          some (record { target_bucket = g.log_bucket; target_prefix = g.log_object_prefix });
    }

abbrev pub HasBucket : Option LoggingEnabled → Type 0
HasBucket none = Unit
HasBucket (some l) = l.target_bucket ≢ []

round_trip_iff :
    (o : Option LoggingEnabled)
    → (translate_gcs_to_s3_logging (translate_s3_to_gcs_logging (record { logging_enabled = o }))
        ≡ record { logging_enabled = o })
      ↔ HasBucket o
unfolding translate_gcs_to_s3_logging translate_s3_to_gcs_logging
round_trip_iff none = (λ _. tt, λ _. refl)
round_trip_iff (some l) = ground (arith, text_eq_iff l.target_bucket [])

-- A logging status survives the way to GCS and back exactly when it does not enable logging into a
-- bucket with an empty name.
pub translate_gcs_to_s3_logging-translate_s3_to_gcs_logging :
    (s : BucketLoggingStatus)
    → (translate_gcs_to_s3_logging (translate_s3_to_gcs_logging s) ≡ s)
      ↔ HasBucket s.logging_enabled
translate_gcs_to_s3_logging-translate_s3_to_gcs_logging s = round_trip_iff s.logging_enabled
