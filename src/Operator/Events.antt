-- ===== src/Operator/Events.antt =====
-- The event handler of pkg/operator/operator.go.
pub mod Laws
use cluster_monitoring_opera.Base.{
  String, Bool, true, false, Option, none, some, List, [], ◌∷◌, ◌==◌, string_eq, if◌then◌else◌,
  ◌||◌, ◌<>◌, ◌≡◌, ◌⊎◌, arith,
}
use cluster_monitoring_opera.Operator.{Operator}

abbrev pub api_authentication_config_map : String
api_authentication_config_map = "kube-system/extension-apiserver-authentication"

abbrev pub kubelet_serving_ca_config_map : String
kubelet_serving_ca_config_map = "openshift-config-managed/kubelet-serving-ca"

abbrev pub prometheus_adapter_tls_secret : String
prometheus_adapter_tls_secret = "openshift-monitoring/prometheus-adapter-tls"

abbrev pub etcd_client_ca_config_map : String
etcd_client_ca_config_map = "openshift-config/etcd-metrics-serving-ca"

abbrev pub telemeter_ca_bundle_config_map : String
telemeter_ca_bundle_config_map = "openshift-monitoring/telemeter-trusted-ca-bundle"

abbrev pub alertmanager_ca_bundle_config_map : String
alertmanager_ca_bundle_config_map = "openshift-monitoring/alertmanager-trusted-ca-bundle"

abbrev pub grpc_tls : String
grpc_tls = "openshift-monitoring/grpc-tls"

module _ {S B : Type 0} (o : Operator S B) where
  abbrev pub cmo_config_map : String
  cmo_config_map = o.namespace <> "/" <> o.config_map_name

  abbrev pub uwm_config_map : String
  uwm_config_map = o.namespace_user_workload <> "/" <> o.user_workload_config_map_name

  -- The cases of the switch.
  unfoldable pub triggers : String → Bool
  triggers key =
      key == cmo_config_map
      || key == api_authentication_config_map
      || key == kubelet_serving_ca_config_map
      || key == prometheus_adapter_tls_secret
      || key == etcd_client_ca_config_map
      || key == telemeter_ca_bundle_config_map
      || key == alertmanager_ca_bundle_config_map
      || key == grpc_tls
      || key == uwm_config_map

  -- `enqueue`, of a key.
  abbrev pub enqueue : String → S → S
  enqueue key = o.queue.add key

  -- The handler, at the key that `keyFunc` gives of the object, if it gives one.
  unfoldable pub handle_event : Option String → S → S
  unfolding triggers
  handle_event none s = s
  handle_event (some key) s = if triggers key then enqueue cmo_config_map s else s
