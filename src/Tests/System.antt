-- ===== src/Tests/System.antt =====
-- Reconciliations of internal/controller one after another, at a cluster that keeps what is written.
use nginx_operator.Base.{false, false}
use nginx_operator.Controller.Server.Reconcile.{reconcile}
use nginx_operator.Tests.Cluster.{Store, empty, cluster}

abbrev after : Store
after = (reconcile cluster "" "v1.0.0" "prod" "edge" empty).world
