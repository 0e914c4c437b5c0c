-- ===== src/Controller/Server.antt =====
-- `NginxServerReconciler` of internal/controller/nginxserver_controller.go: the owned objects.
pub mod Objects
pub mod Status
pub mod Reconcile
