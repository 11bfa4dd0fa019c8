-- ===== src/Translate.antt =====
-- pkg/translate: the S3 configuration documents, the GCS values, and the translations between them.
pub mod Dates
pub mod S3
pub mod Gcs
pub mod Lifecycle
pub mod Cors
pub mod Logging
pub mod Website
pub mod Tagging
