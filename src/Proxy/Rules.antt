-- ===== src/Proxy/Rules.antt =====
-- Which states an action leads to, one rule for each way to build an action.
pub mod Answers
pub mod World
pub mod Helpers
