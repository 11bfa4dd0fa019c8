-- ===== src/Tests.antt =====
-- The theorems of the other modules at concrete inputs.
mod Translation
mod Credentials
mod Sample
mod Requests
mod Updates
mod Observability
mod Server
mod Measure
mod Startup
