-- ===== src/Measure.antt =====
-- The measuring programs beside the proxy: the pressure runner of sdk_tests and the collectors of
-- e2e_tests.
pub mod Number
pub mod Pressure
pub mod Prometheus
pub mod Scrape
pub mod Framework
