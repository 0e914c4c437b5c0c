-- ===== src/Config/Templates.antt =====
-- internal/config/templates.go. Every template is a function of its data: on these data the
-- execution of a template has no failing step, since each pointer is tested before its fields.
pub mod Text
pub mod Main
pub mod Location
pub mod Route
pub mod Upstream
