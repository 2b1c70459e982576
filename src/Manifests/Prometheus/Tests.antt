-- ===== src/Manifests/Prometheus/Tests.antt =====
-- The theorems on Prometheus at a small configuration.
use cluster_monitoring_opera.Base.{
  String, false, none, some, List, [], ◌∷◌, select, string_eq, ok, err, message, ◌≡◌, refl,
}
use cluster_monitoring_opera.Client.{ObjectMeta, Resource}
use cluster_monitoring_opera.Config.{HttpConfig, EtcdConfig, ClusterMonitoringConfiguration, Config}
use cluster_monitoring_opera.Config.Defaults.{no_configuration}
use cluster_monitoring_opera.Config.Settings.{etcd_enabled}
use cluster_monitoring_opera.Manifests.Prometheus.{
  RuleGroup, WriteLibraries, prometheus_k8s_rules, proxy_loop, remote_writes,
}
use cluster_monitoring_opera.Manifests.Prometheus.Laws.{
  with_http, is_kept, remote_writes-with_http, prometheus_k8s_rules-select,
}

abbrev no_etcd : EtcdConfig
no_etcd = record { enabled = none }

abbrev monitoring : ClusterMonitoringConfiguration String
monitoring = record no_configuration {
  etcd_config = some no_etcd;
  prometheus_k8s_config = some (record {
    log_level = "";
    retention = "";
    node_selector = [];
    tolerations = [];
    resources = none;
    external_labels = [];
    volume_claim_template = none;
    remote_write = "https://metrics.example.com" ∷ [];
    telemetry_matches = [];
  });
}

abbrev ibm_config : Config String
ibm_config = record {
  images = none;
  remote_write = false;
  platform = "IBMCloud";
  cluster_monitoring = some monitoring;
  user_workload = none;
}

abbrev libs : WriteLibraries String
libs = record {
  parse_metric_selector = λ s. err (message "no selector");
  encode_token = λ m. "token";
  of_spec = λ s. s.url;
  set_proxy_url = λ url rw. url;
}

abbrev direct : HttpConfig
direct = record { http_proxy = ""; https_proxy = ""; no_proxy = "" }

abbrev proxied : HttpConfig
proxied = record { http_proxy = "http://proxy:3128"; https_proxy = ""; no_proxy = "" }

remote_writes-with_http_example :
    remote_writes libs (with_http libs ibm_config monitoring direct) []
    ≡ remote_writes libs (with_http libs ibm_config monitoring proxied) []
remote_writes-with_http_example =
    remote_writes-with_http libs ibm_config monitoring direct proxied []

-- The write of the configuration, as it is given.
unproxied :
    remote_writes libs (with_http libs ibm_config monitoring proxied) []
    ≡ some (ok ("https://metrics.example.com" ∷ []))
unfolding remote_writes proxy_loop
unproxied = refl

abbrev rule_meta : ObjectMeta
rule_meta = record {
  namespace = "";
  name = "prometheus-k8s-rules";
  resource_version = "";
  annotations = [];
  labels = [];
}

abbrev rules : Resource (List (RuleGroup String))
rules = record {
  meta = rule_meta;
  body =
      record { name = "etcd"; rules = "" }
      ∷ record { name = "kubernetes-system-scheduler"; rules = "" }
      ∷ record { name = "general.rules"; rules = "Watchdog" }
      ∷ [];
}

prometheus_k8s_rules-select_example :
    prometheus_k8s_rules "openshift-monitoring" ibm_config (ok rules)
    ≡ some (
        ok (record {
          meta = record rule_meta { namespace = "openshift-monitoring" };
          body = select (λ g. is_kept (etcd_enabled no_etcd) "IBMCloud" g.name) rules.body;
        }))
prometheus_k8s_rules-select_example =
    prometheus_k8s_rules-select "openshift-monitoring" ibm_config monitoring no_etcd rules refl refl
