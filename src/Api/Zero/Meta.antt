-- ===== src/Api/Zero/Meta.antt =====
-- The zero values of the Kubernetes metadata.
use nginx_operator.Base.{[], none}
use nginx_operator.Base.Int.{pos}
use nginx_operator.Api.Meta.{ObjectMeta}

abbrev pub zero_object_meta : ObjectMeta
zero_object_meta = record {
  name = "";
  namespace = "";
  labels = [];
  annotations = [];
  finalizers = [];
  generation = pos 0;
  deletion_timestamp = none;
  owner_references = [];
}
