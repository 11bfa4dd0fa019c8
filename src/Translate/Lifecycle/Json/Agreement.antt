-- ===== src/Translate/Lifecycle/Json/Agreement.antt =====
-- The two lifecycle translations of pkg/translate/gcs_lifecycle.go compared: `TranslateS3ToGCS`
-- (JSON form) and `TranslateS3ToGCSLifecycle` (storage library).
use s3proxy4gcs.Base.{List}
use s3proxy4gcs.Translate.Gcs.{Lifecycle}
