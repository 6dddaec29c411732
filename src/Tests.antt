-- ===== src/Tests.antt =====
-- Runs of the modelled code on small inputs, and the theorems at concrete inputs.
pub mod Fixtures
pub mod Detection
pub mod Alerts
pub mod Batching
pub mod Vitals
pub mod Streaming
pub mod Metrics
pub mod Services
pub mod Sorting
pub mod Queries
pub mod Tokens
pub mod Simulation
