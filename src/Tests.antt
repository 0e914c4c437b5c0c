-- ===== src/Tests.antt =====
-- Runs at concrete inputs, and an instance of each theorem that has hypotheses.
mod Samples
mod Cluster
mod Validator
mod Generator
mod Nginx
mod Reloader
mod Controller
mod Reconcile
mod System
mod Requeue
mod Operator
