-- ===== src/Api.antt =====
-- The API types of api/v1alpha1.
pub mod Meta
pub mod Server
pub mod Route
pub mod Upstream
pub mod Zero
