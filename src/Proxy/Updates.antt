-- ===== src/Proxy/Updates.antt =====
-- What the PUT handlers send to the storage service.
pub mod Lifecycle
pub mod Logging
