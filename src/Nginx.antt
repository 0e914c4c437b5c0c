-- ===== src/Nginx.antt =====
-- The package internal/nginx: the Kubernetes objects of an NGINX instance.
pub mod Objects
pub mod Labels
pub mod Deployment
pub mod Service
pub mod ConfigMaps
