-- ===== src/Proxy.antt =====
-- main.go: the request path of the proxy.
pub mod Monad
pub mod Client
pub mod Rules
pub mod Helpers
pub mod Lifecycle
pub mod Cors
pub mod Logging
pub mod Website
pub mod Tagging
pub mod Restore
pub mod Credentials
pub mod StorageClass
pub mod Dispatch
pub mod Director
pub mod Transport
pub mod Startup
pub mod Server
pub mod Ops
pub mod Safety
pub mod Updates
pub mod Answers
