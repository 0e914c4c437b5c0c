-- ===== src/Controller.antt =====
-- The package internal/controller. What controller-runtime and the API server answer is an argument.
pub mod Conditions
pub mod Reports
pub mod Run
pub mod Cluster
pub mod Wiring
pub mod Server
pub mod Trigger
pub mod Trace
pub mod System
pub mod Verdicts
pub mod Route
pub mod Upstream
