-- ===== src/Config/Settings.antt =====
-- What the operator sets in a configuration, and the tests on it, from pkg/manifests/config.go.
-- `none` is the panic on a nil pointer.
use mathlib.Core.Option
use cluster_monitoring_opera.Base.{
  String, Bool, true, false, Option, none, some, List, ◌==◌, string_eq, if◌then◌else◌, ◌||◌, not,
}
use cluster_monitoring_opera.Base.Dict
use cluster_monitoring_opera.Base.Dict.{Dict}
use cluster_monitoring_opera.Config.{
  Images, HttpConfig, EtcdConfig, TelemeterClientConfig, UserWorkloadConfig,
  ClusterMonitoringConfiguration, Config,
}
use cluster_monitoring_opera.Config.Defaults.{infogw}

-- `images[name]`, the empty text where there is none.
unfoldable pub image : Dict String String → String → String
image images name = elim (Dict.lookup name images) [ none ↦ "" | some v ↦ v ]

unfoldable pub images_of : Dict String String → Images
images_of images = record {
  prometheus_operator = image images "prometheus-operator";
  prometheus_config_reloader = image images "prometheus-config-reloader";
  prometheus = image images "prometheus";
  alertmanager = image images "alertmanager";
  grafana = image images "grafana";
  oauth_proxy = image images "oauth-proxy";
  node_exporter = image images "node-exporter";
  kube_state_metrics = image images "kube-state-metrics";
  kube_rbac_proxy = image images "kube-rbac-proxy";
  telemeter_client = image images "telemeter-client";
  prom_label_proxy = image images "prom-label-proxy";
  k8s_prometheus_adapter = image images "k8s-prometheus-adapter";
  open_shift_state_metrics = image images "openshift-state-metrics";
  thanos = image images "thanos";
}

-- `(e *EtcdConfig) IsEnabled()`
abbrev pub etcd_enabled : EtcdConfig → Bool
etcd_enabled e = elim e.enabled [ none ↦ false | some b ↦ b ]

-- Follow a pointer.
infixl 5 ◌>>=◌
abbrev ◌>>=◌ : {A C : Type 0} → Option A → (A → Option C) → Option C
o >>= f = elim o [ none ↦ none | some a ↦ f a ]

-- `cfg.Enabled != nil && *cfg.Enabled == false`
abbrev pub is_disabled : Option Bool → Bool
is_disabled none = false
is_disabled (some enabled) = not enabled

-- `(c *UserWorkloadConfig) isEnabled()`: the deprecated setting counts for nothing.
abbrev pub deprecated_enabled : UserWorkloadConfig → Bool
deprecated_enabled u = false

module _ {B : Type 0} where
  unfoldable pub set_images : Dict String String → Config B → Option (Config B)
  set_images images c = Option.map (λ old. record c { images = some (images_of images) }) c.images

  -- Change what a pointer of the configuration points to.
  abbrev pub change_cmc :
      (ClusterMonitoringConfiguration B → Option (ClusterMonitoringConfiguration B))
      → Config B
      → Option (Config B)
  change_cmc f c = do
    cmc ← c.cluster_monitoring
    new ← f cmc
    some (record c { cluster_monitoring = some new })

  abbrev pub change_telemeter :
      (TelemeterClientConfig B → TelemeterClientConfig B) → Config B → Option (Config B)
  change_telemeter f = change_cmc λ cmc.
      Option.map (λ t. record cmc { telemeter_client_config = some (f t) })
        cmc.telemeter_client_config

  abbrev pub telemeter : Config B → Option (TelemeterClientConfig B)
  telemeter c = do cmc ← c.cluster_monitoring; cmc.telemeter_client_config

  abbrev pub http : Config B → Option HttpConfig
  http c = do cmc ← c.cluster_monitoring; cmc.http_config

  unfoldable pub set_telemetry_matches : List String → Config B → Option (Config B)
  set_telemetry_matches matches = change_cmc λ cmc.
      Option.map
        (λ p. record cmc {
          prometheus_k8s_config = some (record p { telemetry_matches = matches });
        })
        cmc.prometheus_k8s_config

  abbrev pub receiver : TelemeterClientConfig B → TelemeterClientConfig B
  receiver t =
      if t.telemeter_server_url == infogw
      then record t { telemeter_server_url = "https://infogw.api.openshift.com/metrics/v1/receive" }
      else t

  unfoldable pub set_remote_write : Bool → Config B → Option (Config B)
  set_remote_write rw c =
      let c' : Config B = record c { remote_write = rw } in
      if rw then change_telemeter receiver c' else some c'

  -- `(cfg *TelemeterClientConfig) IsEnabled()`
  unfoldable pub telemeter_enabled : Option (TelemeterClientConfig B) → Bool
  telemeter_enabled none = false
  telemeter_enabled (some cfg) =
      if is_disabled cfg.enabled || cfg.cluster_id == "" || cfg.token == "" then false else true

  -- `(*Config).IsUserWorkloadEnabled`
  unfoldable pub is_user_workload_enabled : Config B → Option Bool
  is_user_workload_enabled c = do
    cmc ← c.cluster_monitoring
    enabled ← cmc.user_workload_enabled
    if enabled then some true else Option.map deprecated_enabled cmc.user_workload_config
