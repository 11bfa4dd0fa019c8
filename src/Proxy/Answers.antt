-- ===== src/Proxy/Answers.antt =====
-- Who answers a request: a handler, a gate or the storage service behind the reverse proxy.
pub mod Helpers
pub mod Handlers
pub mod Requests
pub mod Gate
pub mod Settled
pub mod Unsupported
