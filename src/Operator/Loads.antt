-- ===== src/Operator/Loads.antt =====
-- How pkg/operator/operator.go puts a configuration together.
pub mod Total
pub mod Returns
use cluster_monitoring_opera.Base.{
  String, Bool, true, false, Option, none, some, List, ◌==◌, string_eq, if◌then◌else◌, ◌&&◌, ◌||◌,
  not, Error, Result, ok, err, message, wrap, or_wrap, M, pure, fail, attempt, ◌>>=◌, ◌<>◌,
}
use cluster_monitoring_opera.Base.Dict
use cluster_monitoring_opera.Client.{Resource, Contents}
use cluster_monitoring_opera.Config.{
  ClusterMonitoringConfiguration, UserWorkloadConfiguration, Config, EtcdConfig,
}
use cluster_monitoring_opera.Config.Defaults.{
  new_default_config, new_default_user_workload_monitoring_config, new_config_from_string,
  new_user_config_from_string,
}
use cluster_monitoring_opera.Config.Settings.{telemeter, change_cmc}
use cluster_monitoring_opera.Config.Loading.{
  deref, load_cluster_id, load_token, load_proxy, load_platform,
}
use cluster_monitoring_opera.Operator.{Operator}

-- `found && len(content) > 0`
abbrev pub is_filled : Option String → Bool
is_filled none = false
is_filled (some content) = not (content == "")

abbrev pub enable_etcd :
    {B : Type 0} → ClusterMonitoringConfiguration B → Option (ClusterMonitoringConfiguration B)
enable_etcd cmc = elim cmc.etcd_config [
  | none ↦ none
  | some e ↦ some (record cmc { etcd_config = some (record { enabled = some true }) })
]

module _ {S B : Type 0} (o : Operator S B) where
  abbrev cm_key : String
  cm_key = o.namespace_user_workload <> "/" <> o.user_workload_config_map_name

  -- `errors.Wrapf`, where the parse did not panic.
  abbrev pub parsed : {A : Type 0} → String → Option (Result A) → M S (Result A)
  parsed text r = do u ← deref r; pure (or_wrap text u)

  abbrev pub of_user_content : Option String → M S (Result (UserWorkloadConfiguration B))
  of_user_content none = pure (ok new_default_user_workload_monitoring_config)
  of_user_content (some content) =
      parsed
        ("the User Workload Configuration from \"config.yaml\" key in the \"" <> cm_key
          <> "\" ConfigMap could not be parsed")
        (new_user_config_from_string o.decode_user content)

  abbrev pub of_user_config_map :
      Result (Resource Contents) → M S (Result (UserWorkloadConfiguration B))
  of_user_config_map (err e) =
      if o.is_not_found e
      then pure (ok new_default_user_workload_monitoring_config)
      else pure (
          err (
            wrap e
              ("the User Workload Monitoring \"" <> cm_key <> "\" ConfigMap could not be loaded")))
  of_user_config_map (ok cm) = of_user_content (Dict.lookup "config.yaml" cm.body)

  unfoldable pub load_user_workload_config : M S (Result (UserWorkloadConfiguration B))
  load_user_workload_config = do
    user_cm ← attempt (o.get_config_map o.namespace_user_workload o.user_workload_config_map_name)
    of_user_config_map user_cm

  abbrev pub of_content : Option String → Result (Config B)
  of_content none =
      err (message "the Cluster Monitoring ConfigMap doesn't contain a 'config.yaml' key")
  of_content (some content) =
      or_wrap "the Cluster Monitoring ConfigMap could not be parsed"
        (new_config_from_string o.decode content)

  abbrev pub of_store : Result (Option (Resource Contents)) → Result (Config B)
  of_store (err e) =
      err (wrap e "an error occurred when retrieving the Cluster Monitoring ConfigMap")
  of_store (ok none) = ok new_default_config
  of_store (ok (some cmap)) = of_content (Dict.lookup "config.yaml" cmap.body)

  unfoldable pub load_config : String → M S (Result (Config B))
  load_config key = do obj ← attempt (o.config_map_by_key key); pure (of_store obj)

  abbrev pub by_etcd_secret :
      Config B → Resource Contents → Result (Resource Contents) → M S (Result (Config B))
  by_etcd_secret c cm (err e) = pure (ok c)
  by_etcd_secret c cm (ok s) =
      if is_filled (Dict.lookup "ca-bundle.crt" cm.body)
        && is_filled (Dict.lookup "tls.crt" s.body)
        && is_filled (Dict.lookup "tls.key" s.body)
      then (do c' ← deref (change_cmc enable_etcd c); pure (ok c'))
      else pure (ok c)

  abbrev pub by_etcd_ca : Config B → Result (Resource Contents) → M S (Result (Config B))
  by_etcd_ca c (err e) = pure (ok c)
  by_etcd_ca c (ok cm) = do
    s ← attempt (o.get_secret "openshift-config" "etcd-metric-client")
    by_etcd_secret c cm s

  -- The last part of `Config`.
  unfoldable pub with_etcd : Config B → M S (Result (Config B))
  with_etcd c = do
    cm ← attempt (o.get_config_map "openshift-config" "etcd-metric-serving-ca")
    by_etcd_ca c cm

  -- The cluster ID and the token, where one is missing. Their errors are logged only.
  unfoldable pub with_telemetry : Config B → M S (Config B)
  with_telemetry c = do
    t ← deref (telemeter c)
    if t.cluster_id == "" || t.token == ""
        then (do
          by_version ← load_cluster_id (o.cluster_version "version") c
          by_token ← load_token o.unmarshal o.pull_secret by_version.1
          pure by_token.1)
        else pure c

  -- From the cluster ID on.
  unfoldable pub with_cluster : Config B → M S (Result (Config B))
  with_cluster c = do
    c ← with_telemetry c
    by_proxy ← load_proxy (o.proxy "cluster") c
    by_platform ← load_platform (o.infrastructure "cluster") by_proxy.1
    with_etcd by_platform.1

  abbrev pub with_user : Config B → Result (UserWorkloadConfiguration B) → M S (Result (Config B))
  with_user c (err e) = pure (err e)
  with_user c (ok u) = with_cluster (record c { user_workload = some u })

  -- The test of the deprecated setting only logs.
  abbrev pub by_loaded : Result (Config B) → M S (Result (Config B))
  by_loaded (err e) = pure (err e)
  by_loaded (ok c) = do
    cmc ← deref c.cluster_monitoring
    enabled ← deref cmc.user_workload_enabled
    if enabled then (do u ← load_user_workload_config; with_user c u) else with_cluster c

  -- `(o *Operator) Config(key)`
  unfoldable pub config : String → M S (Result (Config B))
  config key = do c ← load_config key; by_loaded c
