-- ===== src/Tasks/ClusterMonitoringOperator/Tests.antt =====
-- The task of the operator on an API server in memory, which holds no secret yet.
use cluster_monitoring_opera.Base.{
  ◌*◌, String, Option, List, [], ◌∷◌, string_eq, ◌≡◌, refl, ok, status, pure, fail,
}
use cluster_monitoring_opera.Base.Dict
use cluster_monitoring_opera.Client.{Resource, ObjectMeta, Contents, Endpoint, Client}
use cluster_monitoring_opera.Client.Apply.{
  create_or_update_cluster_role, create_or_update_role, create_or_update_secret,
  create_or_update_service, create_or_update_service_monitor,
}
use cluster_monitoring_opera.Client.Apply.Laws.{Finds}
use cluster_monitoring_opera.Client.Memory.{
  list_store, list_store-IsStore, merge_maps-IsMergo, sample_client, find,
}
use cluster_monitoring_opera.Manifests.Rotation.{CertificateConfig, Crypto, day, rotate_grpc_secret}
use cluster_monitoring_opera.Manifests.Rotation.Laws.{Rotated}
use cluster_monitoring_opera.Tasks.ClusterMonitoringOperator.{
  ClusterMonitoringOperatorFactory, as_written, run_cluster_monitoring_operator,
  reconcile_cluster_roles, choose_secret,
}
use cluster_monitoring_opera.Tasks.ClusterMonitoringOperator.Laws.{
  Chosen, run_cluster_monitoring_operator-Finds,
}

abbrev Secrets : Type 0
Secrets = List (Resource Contents)

-- A kind whose objects are accepted and forgotten.
abbrev accepting : {B : Type 0} → Endpoint Secrets B
accepting = record {
  get = λ namespace name. fail (status 404 "NotFound");
  create = λ o. pure o;
  update = λ o. pure o;
  delete = λ namespace name. pure tt;
  list = λ namespace selector. pure [];
}

abbrev cluster : Client Secrets String
cluster = record (sample_client Secrets) {
  secrets = list_store;
  services = accepting;
  cluster_roles = accepting;
  roles = accepting;
  service_monitors = accepting;
}

abbrev meta : ObjectMeta
meta = record {
  namespace = "openshift-monitoring";
  name = "grpc-tls";
  resource_version = "";
  annotations = [];
  labels = [];
}

abbrev object : Resource String
object = record { meta = meta; body = "manifest" }

abbrev factory : ClusterMonitoringOperatorFactory String
factory = record {
  cluster_monitoring_operator_service =
      ok (record { meta = meta; body = record { type = "ClusterIP"; cluster_ip = ""; rest = "" } });
  cluster_monitoring_edit_user_workload_config_role = ok object;
  cluster_monitoring_operator_service_monitor = ok object;
  cluster_monitoring_cluster_role = ok object;
  cluster_monitoring_rules_edit_cluster_role = ok object;
  cluster_monitoring_rules_view_cluster_role = ok object;
  cluster_monitoring_edit_cluster_role = ok object;
  grpc_secret = ok (record { meta = meta; body = [] });
}

abbrev certificates : CertificateConfig String String
certificates = record {
  certs = record { not_before = 0; not_after = 10 * day; serial_number = 1; rest = "" } ∷ [];
  key = "key";
}

abbrev libraries : Crypto Secrets String String
libraries = record {
  now = pure 7;
  default_certificate_lifetime_in_days = 730;
  get_ca_from_bytes = λ crt key. ok certificates;
  make_self_signed_ca_config = λ name days. pure certificates;
  create_certificate = λ template parent priv. pure "raw";
  parse_certificates = λ raw. ok certificates.certs;
  get_pem_bytes = λ cfg. ok ("crt", "key");
  make_client_certificate = λ ca name lifetime. pure certificates;
  make_server_cert = λ ca names days. pure certificates;
}

abbrev after : Secrets
after = (run_cluster_monitoring_operator cluster factory libraries []).1

ran : run_cluster_monitoring_operator cluster factory libraries [] ≡ (ok tt, after)
unfolding run_cluster_monitoring_operator string_eq create_or_update_service reconcile_cluster_roles
    create_or_update_cluster_role create_or_update_role create_or_update_service_monitor
    choose_secret find rotate_grpc_secret Dict.lookup create_or_update_secret
ran = refl

run_cluster_monitoring_operator-Finds_example :
    (secret secret' : Resource (Option Contents)) × Chosen cluster factory libraries secret
    × Rotated libraries secret secret'
    × Finds cluster.secrets (as_written secret') after
run_cluster_monitoring_operator-Finds_example =
    run_cluster_monitoring_operator-Finds cluster factory libraries merge_maps-IsMergo
      list_store-IsStore [] after ran
