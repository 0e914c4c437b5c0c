-- ===== src/Api/Meta.antt =====
-- What the program uses of the Kubernetes metadata types, and the constants of
-- api/v1alpha1/conditions.go.
use Prim.Native.Nat.{ℕ}
use nginx_operator.Base.{String, List, Option}
use nginx_operator.Base.Int.{ℤ}
use nginx_operator.Base.Dict.{Dict}

-- A Kubernetes value that the program only copies, as its serialised text.
abbrev pub Opaque : Type 0
Opaque = String

-- A reading of the clock.
abbrev pub Time : Type 0
Time = ℕ

-- `metav1.ObjectMeta`; a deletion timestamp of `none` is zero.
pub record ObjectMeta : Type 0 where
  pub name : String
  pub namespace : String
  pub labels : Dict String
  pub annotations : Dict String
  pub finalizers : List String
  pub generation : ℤ
  pub deletion_timestamp : Option Time
  pub owner_references : List Opaque

-- `metav1.ConditionStatus` is a string type.
pub record Condition : Type 0 where
  pub type : String
  pub status : String
  pub observed_generation : ℤ
  pub last_transition_time : Time
  pub reason : String
  pub message : String

abbrev pub condition_ready : String
condition_ready = "Ready"

abbrev pub condition_config_valid : String
condition_config_valid = "ConfigValid"

abbrev pub condition_deployment_ready : String
condition_deployment_ready = "DeploymentReady"

abbrev pub condition_service_ready : String
condition_service_ready = "ServiceReady"

abbrev pub condition_config_applied : String
condition_config_applied = "ConfigApplied"

abbrev pub condition_degraded : String
condition_degraded = "Degraded"

abbrev pub reason_reconciling : String
reason_reconciling = "Reconciling"

abbrev pub reason_reconciled : String
reason_reconciled = "Reconciled"

abbrev pub reason_failed : String
reason_failed = "Failed"

abbrev pub reason_config_invalid : String
reason_config_invalid = "ConfigInvalid"

abbrev pub reason_config_generated : String
reason_config_generated = "ConfigGenerated"

abbrev pub reason_config_applied : String
reason_config_applied = "ConfigApplied"

abbrev pub reason_deployment_not_ready : String
reason_deployment_not_ready = "DeploymentNotReady"

abbrev pub reason_deployment_ready : String
reason_deployment_ready = "DeploymentReady"

abbrev pub reason_server_not_found : String
reason_server_not_found = "ServerNotFound"

abbrev pub reason_dependency_not_ready : String
reason_dependency_not_ready = "DependencyNotReady"

abbrev pub reason_finalizer_failed : String
reason_finalizer_failed = "FinalizerFailed"

abbrev pub nginx_server_finalizer : String
nginx_server_finalizer = "nginx.devops.click/server-finalizer"

abbrev pub nginx_route_finalizer : String
nginx_route_finalizer = "nginx.devops.click/route-finalizer"

abbrev pub nginx_upstream_finalizer : String
nginx_upstream_finalizer = "nginx.devops.click/upstream-finalizer"

abbrev pub annotation_config_hash : String
annotation_config_hash = "nginx.devops.click/config-hash"

abbrev pub annotation_last_reload : String
annotation_last_reload = "nginx.devops.click/last-reload"

abbrev pub annotation_target_instance : String
annotation_target_instance = "nginx.devops.click/target-instance"

abbrev pub label_managed_by : String
label_managed_by = "app.kubernetes.io/managed-by"

abbrev pub label_managed_by_value : String
label_managed_by_value = "nginx-operator"

abbrev pub label_instance : String
label_instance = "app.kubernetes.io/instance"

abbrev pub label_component : String
label_component = "app.kubernetes.io/component"

abbrev pub label_part_of : String
label_part_of = "app.kubernetes.io/part-of"

abbrev pub condition_true : String
condition_true = "True"

abbrev pub condition_false : String
condition_false = "False"
