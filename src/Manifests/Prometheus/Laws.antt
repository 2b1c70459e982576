-- ===== src/Manifests/Prometheus/Laws.antt =====
-- Which proxies the remote writes have, and which groups of rules are kept.
use cluster_monitoring_opera.Base.{
  String, Bool, Option, none, some, List, [], ◌∷◌, ◌++◌, ◌==◌, string_eq, ◌&&◌, ◌||◌, not, select,
  Result, ok, err, ◌≡◌, refl, arith,
}
use cluster_monitoring_opera.Client.{Resource}
use cluster_monitoring_opera.Config.Settings.{etcd_enabled}
use cluster_monitoring_opera.Config.{
  HttpConfig, EtcdConfig, PrometheusK8sConfig, ClusterMonitoringConfiguration, Config,
}
use cluster_monitoring_opera.Manifests.Prometheus.{
  RuleGroup, drop_etcd, is_control_plane, drop_control_plane, for_platform, by_etcd,
  prometheus_k8s_rules, WriteLibraries, proxy_loop, with_proxies, telemetry_writes, remote_writes,
}

module _ {B : Type 0} (libs : WriteLibraries B) where
  proxy_loop-same : (h : HttpConfig) (rws : List B) → proxy_loop libs (some h) rws ≡ some rws
  unfolding proxy_loop
  proxy_loop-same h [] = refl
  proxy_loop-same h (x ∷ rws) = rw (proxy_loop-same h rws) refl

  -- The configuration with these proxies.
  abbrev pub with_http : Config B → ClusterMonitoringConfiguration B → HttpConfig → Config B
  with_http config cmc h = record config {
    cluster_monitoring = some (record cmc { http_config = some h });
  }

  with_proxies-same :
      (h h' : HttpConfig) (own : List B) (writes : Result (List B))
      → with_proxies libs (some h) own writes ≡ with_proxies libs (some h') own writes
  with_proxies-same h h' own (err e) = refl
  with_proxies-same h h' own (ok writes) =
      rw (proxy_loop-same h (writes ++ own)) (rw (proxy_loop-same h' (writes ++ own)) refl)

  -- The proxies of the configuration have no effect on the remote writes of Prometheus: with any two
  -- of them the result is the same, since the loop sets the proxy of a copy.
  pub remote_writes-with_http :
      (config : Config B) (cmc : ClusterMonitoringConfiguration B) (h h' : HttpConfig)
      (asset : List B)
      → remote_writes libs (with_http config cmc h) asset
        ≡ remote_writes libs (with_http config cmc h') asset
  unfolding remote_writes
  remote_writes-with_http config cmc h h' asset = go cmc.prometheus_k8s_config
    where
      go :
          (k : Option (PrometheusK8sConfig B))
          → remote_writes libs (with_http config (record cmc { prometheus_k8s_config = k }) h) asset
            ≡ remote_writes libs
                (with_http config (record cmc { prometheus_k8s_config = k }) h')
                asset
      go none = refl
      go (some k) = from_writes (
          telemetry_writes libs k.telemetry_matches cmc.telemeter_client_config config.remote_write
            asset)
        where
          follow : HttpConfig → Option (Result (List B)) → Option (Result (List B))
          follow h w = elim w [
            | none ↦ none
            | some writes ↦ with_proxies libs (some h) k.remote_write writes
          ]

          from_writes : (w : Option (Result (List B))) → follow h w ≡ follow h' w
          from_writes none = refl
          from_writes (some writes) = with_proxies-same h h' k.remote_write writes

-- The groups of rules that are kept: those of etcd where it is enabled, and those of the control plane
-- where the platform is not the IBM cloud.
unfoldable pub is_kept : Bool → String → String → Bool
is_kept etcd platform name =
    (etcd || not (name == "etcd")) && not (platform == "IBMCloud" && is_control_plane name)

-- Both loops keep the groups that are wanted, in their order.
pub for_platform-by_etcd :
    {B : Type 0}
    → (etcd : Bool) (platform : String) (gs : List (RuleGroup B))
    → for_platform platform (by_etcd etcd gs) ≡ select (λ g. is_kept etcd platform g.name) gs
unfolding drop_etcd drop_control_plane is_kept
for_platform-by_etcd etcd platform [] = ground arith
for_platform-by_etcd etcd platform (g ∷ gs) =
    let rest = for_platform-by_etcd etcd platform gs in ground arith

-- With a configuration and its setting for etcd, `PrometheusK8sRules` keeps the groups of the asset in
-- their order, less that of etcd where it is disabled and those of the control plane on the IBM cloud,
-- and changes no other field than the namespace.
pub prometheus_k8s_rules-select :
    {B D : Type 0}
    → (namespace : String) (config : Config D) (cmc : ClusterMonitoringConfiguration D)
      (e : EtcdConfig)
    → (r : Resource (List (RuleGroup B))) → config.cluster_monitoring ≡ some cmc
    → cmc.etcd_config ≡ some e
    → prometheus_k8s_rules namespace config (ok r)
      ≡ some (
          ok (record {
            meta = record r.meta { namespace = namespace };
            body = select (λ g. is_kept (etcd_enabled e) config.platform g.name) r.body;
          }))
unfolding prometheus_k8s_rules
prometheus_k8s_rules-select namespace config cmc e r p q =
    rw p (rw q (rw (for_platform-by_etcd (etcd_enabled e) config.platform r.body) refl))
