-- ===== src/Config/Defaults.antt =====
-- The defaults and the constructors of pkg/manifests/config.go.
use cluster_monitoring_opera.Base.{
  String, false, Option, none, some, [], ◌==◌, string_eq, if◌then◌else◌, Result, ok, err,
}
use cluster_monitoring_opera.Config.{
  Images, PrometheusOperatorConfig, PrometheusK8sConfig, AlertmanagerMainConfig, ThanosRulerConfig,
  ThanosQuerierConfig, PlacementConfig, TelemeterClientConfig, ClusterMonitoringConfiguration,
  PrometheusRestrictedConfig, UserWorkloadConfiguration, Config,
}

abbrev pub default_retention_value : String
default_retention_value = "15d"

abbrev pub infogw : String
infogw = "https://infogw.api.openshift.com/"

-- `if p == nil { p = &T{…} }`, and then what `p` points to.
unfoldable pub value_or {ℓ} : {A : Type ℓ} → A → Option A → A
value_or new none = new
value_or new (some a) = a

abbrev pub no_images : Images
no_images = record {
  k8s_prometheus_adapter = "";
  prom_label_proxy = "";
  prometheus_operator = "";
  prometheus_config_reloader = "";
  prometheus = "";
  alertmanager = "";
  grafana = "";
  oauth_proxy = "";
  node_exporter = "";
  kube_state_metrics = "";
  open_shift_state_metrics = "";
  kube_rbac_proxy = "";
  telemeter_client = "";
  thanos = "";
}

module _ {B : Type 0} where
  abbrev pub no_placement : PlacementConfig B
  no_placement = record { node_selector = []; tolerations = [] }

  abbrev pub no_prometheus_operator : PrometheusOperatorConfig B
  no_prometheus_operator = record { log_level = ""; node_selector = []; tolerations = [] }

  abbrev pub no_prometheus : PrometheusK8sConfig B
  no_prometheus = record {
    log_level = "";
    retention = "";
    node_selector = [];
    tolerations = [];
    resources = none;
    external_labels = [];
    volume_claim_template = none;
    remote_write = [];
    telemetry_matches = [];
  }

  -- `if Retention == "" { Retention = DefaultRetentionValue }`
  unfoldable pub with_retention : PrometheusK8sConfig B → PrometheusK8sConfig B
  with_retention p = record p {
    retention = if p.retention == "" then default_retention_value else p.retention;
  }

  abbrev pub no_alertmanager : AlertmanagerMainConfig B
  no_alertmanager = record {
    node_selector = [];
    tolerations = [];
    resources = none;
    volume_claim_template = none;
  }

  abbrev pub no_thanos_querier : ThanosQuerierConfig B
  no_thanos_querier = record {
    log_level = "";
    node_selector = [];
    tolerations = [];
    resources = none;
  }

  abbrev pub new_telemeter_client : TelemeterClientConfig B
  new_telemeter_client = record {
    cluster_id = "";
    enabled = none;
    telemeter_server_url = infogw;
    token = "";
    node_selector = [];
    tolerations = [];
  }

  abbrev pub no_configuration : ClusterMonitoringConfiguration B
  no_configuration = record {
    prometheus_operator_config = none;
    prometheus_k8s_config = none;
    alertmanager_main_config = none;
    kube_state_metrics_config = none;
    open_shift_metrics_config = none;
    grafana_config = none;
    etcd_config = none;
    http_config = none;
    telemeter_client_config = none;
    k8s_prometheus_adapter = none;
    thanos_querier_config = none;
    user_workload_enabled = none;
    user_workload_config = none;
  }

  unfoldable pub with_defaults : ClusterMonitoringConfiguration B → ClusterMonitoringConfiguration B
  with_defaults c = record {
    prometheus_operator_config =
        some (value_or no_prometheus_operator c.prometheus_operator_config);
    prometheus_k8s_config = some (with_retention (value_or no_prometheus c.prometheus_k8s_config));
    alertmanager_main_config = some (value_or no_alertmanager c.alertmanager_main_config);
    kube_state_metrics_config = some (value_or no_placement c.kube_state_metrics_config);
    open_shift_metrics_config = some (value_or no_placement c.open_shift_metrics_config);
    grafana_config = some (value_or no_placement c.grafana_config);
    etcd_config = some (value_or (record { enabled = none }) c.etcd_config);
    http_config =
        some (value_or (record { http_proxy = ""; https_proxy = ""; no_proxy = "" }) c.http_config);
    telemeter_client_config = some (value_or new_telemeter_client c.telemeter_client_config);
    k8s_prometheus_adapter = some (value_or no_placement c.k8s_prometheus_adapter);
    thanos_querier_config = some (value_or no_thanos_querier c.thanos_querier_config);
    user_workload_enabled = some (value_or false c.user_workload_enabled);
    user_workload_config = some (value_or (record { enabled = none }) c.user_workload_config);
  }

  -- `(*Config).applyDefaults`
  unfoldable pub apply_defaults : Config B → Config B
  apply_defaults c = record c {
    images = some (value_or no_images c.images);
    cluster_monitoring = some (with_defaults (value_or no_configuration c.cluster_monitoring));
  }

  abbrev pub no_restricted : PrometheusRestrictedConfig B
  no_restricted = record {
    log_level = "";
    retention = "";
    node_selector = [];
    tolerations = [];
    resources = none;
    external_labels = [];
    volume_claim_template = none;
    remote_write = [];
    enforced_sample_limit = none;
  }

  abbrev pub no_thanos_ruler : ThanosRulerConfig B
  no_thanos_ruler = record {
    log_level = "";
    node_selector = [];
    tolerations = [];
    resources = none;
    volume_claim_template = none;
  }

  -- `(*UserWorkloadConfiguration).applyDefaults`
  unfoldable pub apply_user_defaults : UserWorkloadConfiguration B → UserWorkloadConfiguration B
  apply_user_defaults u = record {
    prometheus_operator = some (value_or no_prometheus_operator u.prometheus_operator);
    prometheus = some (value_or no_restricted u.prometheus);
    thanos_ruler = some (value_or no_thanos_ruler u.thanos_ruler);
  }

  abbrev pub new_default_user_workload_monitoring_config : UserWorkloadConfiguration B
  new_default_user_workload_monitoring_config =
      apply_user_defaults
        (record { prometheus_operator = none; prometheus = none; thanos_ruler = none })

  unfoldable pub new_default_config : Config B
  new_default_config = apply_defaults (record {
    images = none;
    remote_write = false;
    platform = "";
    cluster_monitoring = some no_configuration;
    user_workload = some new_default_user_workload_monitoring_config;
  })

  -- The decoder of the YAML library, into a structure.
  module _ (decode : String → Result (ClusterMonitoringConfiguration B)) where
    abbrev pub of_decoded : Result (ClusterMonitoringConfiguration B) → Result (Config B)
    of_decoded (err e) = err e
    of_decoded (ok cmc) =
        let c : Config B = apply_defaults (record {
          images = none;
          remote_write = false;
          platform = "";
          cluster_monitoring = some cmc;
          user_workload = none;
        }) in
        ok (record c { user_workload = some new_default_user_workload_monitoring_config })

    unfoldable pub new_config : String → Result (Config B)
    new_config content = of_decoded (decode content)

    unfoldable pub new_config_from_string : String → Result (Config B)
    new_config_from_string content =
        if content == "" then ok new_default_config else new_config content

  -- The decoder into a pointer, which it sets to nil where the document is null. `none` is the panic
  -- of `u.applyDefaults()` on that pointer.
  module _ (decode : String → Result (Option (UserWorkloadConfiguration B))) where
    abbrev pub of_decoded_user :
        Result (Option (UserWorkloadConfiguration B))
        → Option (Result (UserWorkloadConfiguration B))
    of_decoded_user (err e) = some (err e)
    of_decoded_user (ok none) = none
    of_decoded_user (ok (some u)) = some (ok (apply_user_defaults u))

    unfoldable pub new_user_config_from_string :
        String → Option (Result (UserWorkloadConfiguration B))
    new_user_config_from_string content =
        if content == ""
        then some (ok new_default_user_workload_monitoring_config)
        else of_decoded_user (decode content)
