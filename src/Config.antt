-- ===== src/Config.antt =====
-- The configuration types of pkg/manifests/config.go. A pointer is an Option, whose `none` is nil;
-- `B` is a value of a Kubernetes type that the code only carries.
pub mod Defaults
pub mod Settings
pub mod Loading
pub mod Laws
mod Tests
use cluster_monitoring_opera.Base.{ℕ, String, Bool, Option, List}
use cluster_monitoring_opera.Base.Dict.{Dict}

pub record Images : Type 0 where
  pub k8s_prometheus_adapter : String
  pub prom_label_proxy : String
  pub prometheus_operator : String
  pub prometheus_config_reloader : String
  pub prometheus : String
  pub alertmanager : String
  pub grafana : String
  pub oauth_proxy : String
  pub node_exporter : String
  pub kube_state_metrics : String
  pub open_shift_state_metrics : String
  pub kube_rbac_proxy : String
  pub telemeter_client : String
  pub thanos : String

pub record HttpConfig : Type 0 where
  pub http_proxy : String
  pub https_proxy : String
  pub no_proxy : String

pub record PrometheusOperatorConfig (B : Type 0) : Type 0 where
  pub log_level : String
  pub node_selector : Dict String String
  pub tolerations : List B

pub record PrometheusK8sConfig (B : Type 0) : Type 0 where
  pub log_level : String
  pub retention : String
  pub node_selector : Dict String String
  pub tolerations : List B
  pub resources : Option B
  pub external_labels : Dict String String
  pub volume_claim_template : Option B
  pub remote_write : List B
  pub telemetry_matches : List String

pub record AlertmanagerMainConfig (B : Type 0) : Type 0 where
  pub node_selector : Dict String String
  pub tolerations : List B
  pub resources : Option B
  pub volume_claim_template : Option B

pub record ThanosRulerConfig (B : Type 0) : Type 0 where
  pub log_level : String
  pub node_selector : Dict String String
  pub tolerations : List B
  pub resources : Option B
  pub volume_claim_template : Option B

pub record ThanosQuerierConfig (B : Type 0) : Type 0 where
  pub log_level : String
  pub node_selector : Dict String String
  pub tolerations : List B
  pub resources : Option B

-- `GrafanaConfig`, `KubeStateMetricsConfig`, `OpenShiftStateMetricsConfig` and
-- `K8sPrometheusAdapter`, which have the same fields.
pub record PlacementConfig (B : Type 0) : Type 0 where
  pub node_selector : Dict String String
  pub tolerations : List B

pub record EtcdConfig : Type 0 where
  pub enabled : Option Bool

pub record UserWorkloadConfig : Type 0 where
  pub enabled : Option Bool

pub record TelemeterClientConfig (B : Type 0) : Type 0 where
  pub cluster_id : String
  pub enabled : Option Bool
  pub telemeter_server_url : String
  pub token : String
  pub node_selector : Dict String String
  pub tolerations : List B

pub record ClusterMonitoringConfiguration (B : Type 0) : Type 0 where
  pub prometheus_operator_config : Option (PrometheusOperatorConfig B)
  pub prometheus_k8s_config : Option (PrometheusK8sConfig B)
  pub alertmanager_main_config : Option (AlertmanagerMainConfig B)
  pub kube_state_metrics_config : Option (PlacementConfig B)
  pub open_shift_metrics_config : Option (PlacementConfig B)
  pub grafana_config : Option (PlacementConfig B)
  pub etcd_config : Option EtcdConfig
  pub http_config : Option HttpConfig
  pub telemeter_client_config : Option (TelemeterClientConfig B)
  pub k8s_prometheus_adapter : Option (PlacementConfig B)
  pub thanos_querier_config : Option (ThanosQuerierConfig B)
  pub user_workload_enabled : Option Bool
  pub user_workload_config : Option UserWorkloadConfig

pub record PrometheusRestrictedConfig (B : Type 0) : Type 0 where
  pub log_level : String
  pub retention : String
  pub node_selector : Dict String String
  pub tolerations : List B
  pub resources : Option B
  pub external_labels : Dict String String
  pub volume_claim_template : Option B
  pub remote_write : List B
  pub enforced_sample_limit : Option ℕ

pub record UserWorkloadConfiguration (B : Type 0) : Type 0 where
  pub prometheus_operator : Option (PrometheusOperatorConfig B)
  pub prometheus : Option (PrometheusRestrictedConfig B)
  pub thanos_ruler : Option (ThanosRulerConfig B)

pub record Config (B : Type 0) : Type 0 where
  pub images : Option Images
  pub remote_write : Bool
  pub platform : String
  pub cluster_monitoring : Option (ClusterMonitoringConfiguration B)
  pub user_workload : Option (UserWorkloadConfiguration B)
