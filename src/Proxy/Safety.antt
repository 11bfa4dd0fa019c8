-- ===== src/Proxy/Safety.antt =====
-- When a request leaves the storage service as it is.
pub mod Handlers
pub mod DryRun
pub mod ReadOnly
