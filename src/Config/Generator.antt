-- ===== src/Config/Generator.antt =====
-- internal/config/generator.go: the data of the three templates and the whole configuration.
-- The SHA-256 sum is an argument of what uses it.
pub mod New
pub mod Names
pub mod Main
pub mod Route
pub mod Upstream
pub mod Full
