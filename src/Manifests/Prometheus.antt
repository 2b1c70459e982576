-- ===== src/Manifests/Prometheus.antt =====
-- pkg/manifests/manifests.go: what the factory decides for Prometheus: the groups of rules, the secret
-- with the certificates of etcd, and where samples are written. `none` is the panic on a nil pointer.
pub mod Laws
mod Tests
use cluster_monitoring_opera.Base.{
  ℕ, String, Bool, true, false, Option, none, some, List, [], ◌∷◌, ◌++◌, ◌==◌, string_eq,
  if◌then◌else◌, ◌&&◌, ◌||◌, not, Error, Result, ok, err, wrap,
}
use cluster_monitoring_opera.Base.Dict.{Dict}
use cluster_monitoring_opera.Client.{Resource, Contents}
use cluster_monitoring_opera.Config.{HttpConfig, TelemeterClientConfig, Config}
use cluster_monitoring_opera.Config.Settings.{etcd_enabled, telemeter_enabled}
use cluster_monitoring_opera.Manifests.Hashing.{add_entries}
use cluster_monitoring_opera.Manifests.Reader.{new_reader, value}
use cluster_monitoring_opera.Promqlgen.{Matcher, RelabelConfig, label_selectors_to_relabel_config}
use cluster_monitoring_opera.Tasks.CaBundle.{trusted_ca_bundle_key}

-- Follow a pointer.
infixl 5 ◌>>=◌
abbrev ◌>>=◌ : {A C : Type 0} → Option A → (A → Option C) → Option C
o >>= f = elim o [ none ↦ none | some a ↦ f a ]

-- A group of rules, with what the code carries of it.
pub record RuleGroup (B : Type 0) : Type 0 where
  pub name : String
  pub rules : B

-- The cases of the switch.
abbrev pub is_control_plane : String → Bool
is_control_plane name =
    name == "kubernetes-system-apiserver"
    || name == "kubernetes-system-controller-manager"
    || name == "kubernetes-system-scheduler"

module _ {B : Type 0} where
  -- The loop that drops the group of etcd.
  unfoldable pub drop_etcd : List (RuleGroup B) → List (RuleGroup B)
  drop_etcd [] = []
  drop_etcd (g ∷ gs) = let groups = drop_etcd gs in if g.name == "etcd" then groups else g ∷ groups

  -- The loop that drops the groups of the control plane.
  unfoldable pub drop_control_plane : List (RuleGroup B) → List (RuleGroup B)
  drop_control_plane [] = []
  drop_control_plane (g ∷ gs) =
      let groups = drop_control_plane gs in if is_control_plane g.name then groups else g ∷ groups

  abbrev pub for_platform : String → List (RuleGroup B) → List (RuleGroup B)
  for_platform platform gs = if platform == "IBMCloud" then drop_control_plane gs else gs

  abbrev pub by_etcd : Bool → List (RuleGroup B) → List (RuleGroup B)
  by_etcd enabled gs = if enabled then gs else drop_etcd gs

  -- `PrometheusK8sRules`, with the rule of the asset as it is read.
  unfoldable pub prometheus_k8s_rules :
      {D : Type 0}
      → String
      → Config D
      → Result (Resource (List (RuleGroup B)))
      → Option (Result (Resource (List (RuleGroup B))))
  prometheus_k8s_rules namespace config (err e) = some (err e)
  prometheus_k8s_rules namespace config (ok r) = do
    cmc ← config.cluster_monitoring
    etcd ← cmc.etcd_config
    some (
        ok (record {
          meta = record r.meta { namespace = namespace };
          body = for_platform config.platform (by_etcd (etcd_enabled etcd) r.body);
        }))

-- The new Secret of `PrometheusK8sEtcdSecret`, whose `StringData` is its data here.
abbrev pub etcd_secret : String → String → String → String → Resource Contents
etcd_secret namespace client_ca client_cert client_key = record {
  meta = record {
    namespace = namespace;
    name = "kube-etcd-client-certs";
    resource_version = "";
    annotations = [];
    labels = [];
  };
  body =
      ("etcd-client-ca.crt", client_ca)
      ∷ ("etcd-client.key", client_key)
      ∷ ("etcd-client.crt", client_cert)
      ∷ [];
}

-- `PrometheusK8sEtcdSecret`, with the namespace of the factory.
unfoldable pub prometheus_k8s_etcd_secret :
    String → Resource Contents → Resource Contents → Result (Resource Contents)
unfolding add_entries value
prometheus_k8s_etcd_secret namespace tls_client ca =
    let data_map = add_entries ca.body (add_entries tls_client.body []) in
    let (client_ca, r) = value trusted_ca_bundle_key (new_reader data_map) in
    let (client_cert, r) = value "tls.crt" r in
    let (client_key, r) = value "tls.key" r in
    elim r.err [
      | none ↦ ok (etcd_secret namespace client_ca client_cert client_key)
      | some e ↦ err (wrap e "couldn't find etcd certificate data")
    ]

-- A `RelabelConfig` of a remote write, with the fields that are set.
pub record WriteRelabelConfig : Type 0 where
  pub action : String
  pub source_labels : List String
  pub regex : String
  pub target_label : String
  pub replacement : String

pub record QueueConfig : Type 0 where
  pub capacity : ℕ
  pub max_samples_per_send : ℕ
  pub batch_send_deadline : String
  pub min_backoff : String
  pub max_backoff : String

-- A `RemoteWriteSpec`, with the fields that the code sets for the telemetry.
pub record RemoteWriteSpec : Type 0 where
  pub url : String
  pub bearer_token : String
  pub proxy_url : String
  pub queue_config : QueueConfig
  pub write_relabel_configs : List WriteRelabelConfig

abbrev pub selected : RelabelConfig → WriteRelabelConfig
selected r = record {
  action = r.action;
  source_labels = r.source_labels;
  regex = r.regex;
  target_label = "";
  replacement = "";
}

-- The spec of the telemetry, with the composite token as it is encoded.
abbrev pub telemetry_spec :
    {B : Type 0} → String → TelemeterClientConfig B → RelabelConfig → RemoteWriteSpec
telemetry_spec token cfg selector = record {
  url = cfg.telemeter_server_url;
  bearer_token = token;
  proxy_url = "";
  queue_config = record {
    capacity = 30000;
    max_samples_per_send = 10000;
    batch_send_deadline = "1m";
    min_backoff = "1s";
    max_backoff = "256s";
  };
  write_relabel_configs =
      selected selector
      ∷ record {
        action = "";
        source_labels = [];
        regex = "";
        target_label = "_id";
        replacement = cfg.cluster_id;
      }
      ∷ record {
        action = "";
        source_labels = "__name__" ∷ [];
        regex = "ALERTS";
        target_label = "__name__";
        replacement = "alerts";
      }
      ∷ [];
}

-- The libraries: the parser of selectors, JSON and base64 for a map of texts with the error dropped,
-- and a value of the configuration's type for a spec.
pub record WriteLibraries (B : Type 0) : Type 0 where
  pub parse_metric_selector : String → Result (List Matcher)
  pub encode_token : Dict String String → String
  pub of_spec : RemoteWriteSpec → B
  pub set_proxy_url : String → B → B

module _ {B : Type 0} (libs : WriteLibraries B) where
  abbrev pub composite_token : TelemeterClientConfig B → String
  composite_token cfg =
      libs.encode_token (("cluster_id", cfg.cluster_id) ∷ ("authorization_token", cfg.token) ∷ [])

  -- The writes of the telemetry, or those of the asset.
  abbrev pub telemetry_writes :
      List String → Option (TelemeterClientConfig B) → Bool → List B → Option (Result (List B))
  telemetry_writes matches none remote_write asset = some (ok [])
  telemetry_writes matches (some cfg) remote_write asset =
      if telemeter_enabled (some cfg) && remote_write
      then elim (label_selectors_to_relabel_config libs.parse_metric_selector matches) [
        | err e ↦ some (err (wrap e "generate label selector relabel config"))
        | ok selector ↦
            some (ok (libs.of_spec (telemetry_spec (composite_token cfg) cfg selector) ∷ []))
      ]
      else if not (telemeter_enabled (some cfg))
      then some (ok [])
      else some (ok asset)

  -- The body of the last loop.
  abbrev pub set_proxies : HttpConfig → B → B
  set_proxies h rw =
      let rw = if h.http_proxy == "" then rw else libs.set_proxy_url h.http_proxy rw in
      if h.https_proxy == "" then rw else libs.set_proxy_url h.https_proxy rw

  -- An element of a slice after a `range` by value: the body changes its copy only.
  abbrev pub after_copy : (B → B) → B → B
  after_copy body rw = rw

  -- The last loop, which follows the pointer to the proxies for each element.
  unfoldable pub proxy_loop : Option HttpConfig → List B → Option (List B)
  proxy_loop http [] = some []
  proxy_loop http (rw ∷ rws) = do
    h ← http
    rest ← proxy_loop http rws
    some (after_copy (set_proxies h) rw ∷ rest)

  abbrev pub with_proxies : Option HttpConfig → List B → Result (List B) → Option (Result (List B))
  with_proxies http own (err e) = some (err e)
  with_proxies http own (ok writes) = do rws ← proxy_loop http (writes ++ own); some (ok rws)

  -- The remote writes of `PrometheusK8s`, from those of the asset.
  unfoldable pub remote_writes : Config B → List B → Option (Result (List B))
  remote_writes config asset = do
    cmc ← config.cluster_monitoring
    k ← cmc.prometheus_k8s_config
    writes ←
        telemetry_writes k.telemetry_matches cmc.telemeter_client_config config.remote_write asset
    with_proxies cmc.http_config k.remote_write writes
