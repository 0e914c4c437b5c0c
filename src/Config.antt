-- ===== src/Config.antt =====
-- The package internal/config: the generator of the NGINX configuration and the validator.
pub mod Validator
pub mod Data
pub mod Templates
pub mod Generator
