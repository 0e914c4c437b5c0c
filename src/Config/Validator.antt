-- ===== src/Config/Validator.antt =====
-- internal/config/validator.go
pub mod Report
pub mod Server
pub mod Route
pub mod Upstream
pub mod Consistent
