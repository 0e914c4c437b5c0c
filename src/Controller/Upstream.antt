-- ===== src/Controller/Upstream.antt =====
-- `NginxUpstreamReconciler` of internal/controller/nginxupstream_controller.go.
pub mod Endpoints
pub mod Reconcile
