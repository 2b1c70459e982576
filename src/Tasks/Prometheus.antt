-- ===== src/Tasks/Prometheus.antt =====
-- pkg/tasks/prometheus.go: the task of the cluster's Prometheus, as the sequence of its calls, which
-- stops at the first error.
use cluster_monitoring_opera.Base.{
  ◌<>◌, [], ◌∷◌, Bool, if◌then◌else◌, pure, String, Option, none, some, List, Result, M, give,
  wrapped, ◌>>=◌, ◌>>◌,
}
use cluster_monitoring_opera.Client.{
  Resource, Contents, ReplicatedBody, ServiceBody, BindingBody, RouteBody, Client,
}
use mathlib.Core.Option
use cluster_monitoring_opera.Tasks.CaBundle.{hash_of}
use cluster_monitoring_opera.Tasks.Secrets.{
  Datasource, present, server_data, basic_auth_password, for_items,
}
use cluster_monitoring_opera.Config.{Config}
use cluster_monitoring_opera.Config.Settings.{etcd_enabled}
use cluster_monitoring_opera.Client.Apply.{
  create_if_not_exist_config_map, create_if_not_exist_secret, create_or_update_cluster_role,
  create_or_update_cluster_role_binding, create_or_update_config_map, create_or_update_prometheus,
  create_or_update_prometheus_rule, create_or_update_role, create_or_update_role_binding,
  create_or_update_secret, create_or_update_service, create_or_update_service_account,
  create_or_update_service_monitor, create_route_if_not_exists,
}
use cluster_monitoring_opera.Client.Delete.{
  delete_hashed_secret, delete_service_monitor, delete_service_monitor_by_namespace_and_name,
}
use cluster_monitoring_opera.Client.Ready.{wait_for_route_ready, wait_for_secret}
use cluster_monitoring_opera.Client.Wait.{wait_for_prometheus}
use cluster_monitoring_opera.Tasks.CaBundle.{sync_trusted_ca_bundle}

-- The factory's methods that the task calls.
pub record PrometheusFactory (B : Type 0) : Type 0 where
  pub prometheus_k8s_serving_certs_ca_bundle : Result (Resource Contents)
  pub prometheus_k8s_kubelet_serving_ca_bundle : Contents → Result (Resource Contents)
  pub prometheus_k8s_route : Result (Resource RouteBody)
  pub prometheus_k8s_proxy_secret : Result (Resource Contents)
  pub grafana_datasources : Result (Resource Contents)
  pub prometheus_k8s_htpasswd_secret : String → Result (Resource Contents)
  pub prometheus_rbac_proxy_secret : Result (Resource Contents)
  pub prometheus_k8s_service_account : Result (Resource B)
  pub prometheus_k8s_cluster_role : Result (Resource B)
  pub prometheus_k8s_cluster_role_binding : Result (Resource (BindingBody B))
  pub prometheus_k8s_role_config : Result (Resource B)
  pub prometheus_k8s_role_list : Result (List (Resource B))
  pub prometheus_k8s_role_binding_list : Result (List (Resource (BindingBody B)))
  pub prometheus_k8s_role_binding_config : Result (Resource (BindingBody B))
  pub prometheus_k8s_rules : Result (Resource B)
  pub prometheus_k8s_service : Result (Resource (ServiceBody B))
  pub prometheus_k8s_service_thanos_sidecar : Result (Resource (ServiceBody B))
  pub prometheus_k8s_etcd_secret :
      Resource Contents → Resource Contents → Result (Resource Contents)
  pub grpc_secret : Result (Resource Contents)
  pub prometheus_k8s_grpc_tls_secret : Result (Resource Contents)
  pub hash_secret : Resource Contents → List String → Result (Resource Contents)
  pub prometheus_k8s_trusted_ca_bundle : Result (Resource Contents)
  pub hash_trusted_ca : Resource Contents → String → Result (Resource Contents)
  pub prometheus_k8s :
      String → Resource Contents → Option (Resource Contents) → Result (Resource (ReplicatedBody B))
  pub prometheus_k8s_kubelet_service_monitor : Result (Resource B)
  pub prometheus_k8s_etcd_service_monitor : Result (Resource B)
  pub prometheus_k8s_prometheus_service_monitor : Result (Resource B)
  pub prometheus_k8s_thanos_sidecar_service_monitor : Result (Resource B)

-- `config.ClusterMonitoringConfiguration.EtcdConfig.IsEnabled()`
abbrev pub is_etcd_enabled : {K : Type 0} → Config K → Option Bool
is_etcd_enabled config = elim config.cluster_monitoring [
  | none ↦ none
  | some cmc ↦ Option.map etcd_enabled cmc.etcd_config
]

abbrev pub former_service_monitors : List String
former_service_monitors =
    "cluster-version-operator" ∷ "kube-apiserver" ∷ "kube-controller-manager" ∷ "kube-scheduler"
    ∷ "openshift-apiserver" ∷ []

module _ {S B K : Type 0} (c : Client S B) (f : PrometheusFactory B)
    (unmarshal : String → Result (List (Option Datasource))) (config : Config K) where
  -- The block under `EtcdConfig.IsEnabled()`.
  unfoldable pub sync_etcd_secret : M S (Unit {0})
  sync_etcd_secret = do
    etcd_ca ←
        wrapped "failed to load etcd client CA"
          (c.config_maps.get "openshift-config" "etcd-metric-serving-ca")
    etcd_client_secret ←
        wrapped "failed to load etcd client secret"
          (c.secrets.get "openshift-config" "etcd-metric-client")
    prom_etcd_secret ←
        wrapped "initializing prometheus etcd service monitor secret failed"
          (give (f.prometheus_k8s_etcd_secret etcd_client_secret etcd_ca))
    wrapped "reconciling prometheus etcd service monitor secret"
        (create_or_update_secret c prom_etcd_secret)

  -- The loop over the service monitors of former versions.
  unfoldable pub delete_service_monitors : List String → M S (Unit {0})
  delete_service_monitors [] = pure tt
  delete_service_monitors (name ∷ names) =
      wrapped ("deleting Prometheus " <> name <> " ServiceMonitor failed")
        (delete_service_monitor_by_namespace_and_name c c.namespace name)
      >> delete_service_monitors names

  -- The bundles of certificates, the route, and the passwords; gives the host of the route.
  unfoldable pub expose_prometheus : M S String
  expose_prometheus = do
    cacm ←
        wrapped "initializing serving certs CA Bundle ConfigMap failed"
          (give f.prometheus_k8s_serving_certs_ca_bundle)
    existing ←
        wrapped "creating serving certs CA Bundle ConfigMap failed"
          (create_if_not_exist_config_map c cacm)
    kscm ←
        wrapped "openshift-config-managed/kubelet-serving-ca"
          (c.config_maps.get "openshift-config-managed" "kubelet-serving-ca")
    cacm ←
        wrapped "initializing kubelet serving CA Bundle ConfigMap failed"
          (give (f.prometheus_k8s_kubelet_serving_ca_bundle kscm.body))
    wrapped "creating kubelet serving CA Bundle ConfigMap failed"
        (create_or_update_config_map c cacm)
    r ← wrapped "initializing Prometheus Route failed" (give f.prometheus_k8s_route)
    wrapped "creating Prometheus Route failed" (create_route_if_not_exists c r)
    host ← wrapped "waiting for Prometheus Route to become ready failed" (wait_for_route_ready c r)
    ps ← wrapped "initializing Prometheus proxy Secret failed" (give f.prometheus_k8s_proxy_secret)
    wrapped "creating Prometheus proxy Secret failed" (create_if_not_exist_secret c ps)
    gs ← wrapped "initializing Grafana Datasources Secret failed" (give f.grafana_datasources)
    gs ← wrapped "waiting for Grafana Datasources Secret failed" (wait_for_secret c gs)
    password ← basic_auth_password unmarshal gs
    hs ←
        wrapped "initializing Prometheus htpasswd Secret failed"
          (give (f.prometheus_k8s_htpasswd_secret password))
    wrapped "creating Prometheus htpasswd Secret failed" (create_if_not_exist_secret c hs)
    pure host

  -- The service account with its roles.
  unfoldable pub reconcile_prometheus_access : M S (Unit {0})
  reconcile_prometheus_access = do
    rs ←
        wrapped "initializing Prometheus RBAC proxy Secret failed"
          (give f.prometheus_rbac_proxy_secret)
    wrapped "creating Prometheus RBAC proxy Secret failed" (create_if_not_exist_secret c rs)
    sa ←
        wrapped "initializing Prometheus ServiceAccount failed"
          (give f.prometheus_k8s_service_account)
    wrapped "reconciling Prometheus ServiceAccount failed" (create_or_update_service_account c sa)
    cr ← wrapped "initializing Prometheus ClusterRole failed" (give f.prometheus_k8s_cluster_role)
    wrapped "reconciling Prometheus ClusterRole failed" (create_or_update_cluster_role c cr)
    crb ←
        wrapped "initializing Prometheus ClusterRoleBinding failed"
          (give f.prometheus_k8s_cluster_role_binding)
    wrapped "reconciling Prometheus ClusterRoleBinding failed"
        (create_or_update_cluster_role_binding c crb)
    rc ← wrapped "initializing Prometheus Role config failed" (give f.prometheus_k8s_role_config)
    wrapped "reconciling Prometheus Role config failed" (create_or_update_role c rc)
    rl ← wrapped "initializing Prometheus Role failed" (give f.prometheus_k8s_role_list)
    for_items "reconciling Prometheus Role" (create_or_update_role c) rl
    rbl ←
        wrapped "initializing Prometheus RoleBinding failed"
          (give f.prometheus_k8s_role_binding_list)
    for_items "reconciling Prometheus RoleBinding" (create_or_update_role_binding c) rbl
    rbc ←
        wrapped "initializing Prometheus config RoleBinding failed"
          (give f.prometheus_k8s_role_binding_config)
    wrapped "reconciling Prometheus config RoleBinding failed" (create_or_update_role_binding c rbc)

  -- The rules, the services, and the secret for etcd.
  unfoldable pub reconcile_prometheus_services : M S (Unit {0})
  reconcile_prometheus_services = do
    pm ← wrapped "initializing Prometheus rules PrometheusRule failed" (give f.prometheus_k8s_rules)
    wrapped "reconciling Prometheus rules PrometheusRule failed"
        (create_or_update_prometheus_rule c pm)
    svc ← wrapped "initializing Prometheus Service failed" (give f.prometheus_k8s_service)
    wrapped "reconciling Prometheus Service failed" (create_or_update_service c svc)
    svc ←
        wrapped "initializing Thanos sidecar Service failed"
          (give f.prometheus_k8s_service_thanos_sidecar)
    wrapped "reconciling Thanos sidecar Service failed" (create_or_update_service c svc)
    enabled ← present (is_etcd_enabled config)
    (if enabled then sync_etcd_secret else pure tt)

  unfoldable pub run_prometheus : M S (Unit {0})
  run_prometheus = do
    host ← expose_prometheus
    reconcile_prometheus_access
    reconcile_prometheus_services
    grpc_tls ← wrapped "initializing Prometheus GRPC secret failed" (give f.grpc_secret)
    grpc_tls ← wrapped "waiting for Prometheus GRPC secret failed" (wait_for_secret c grpc_tls)
    s ←
        wrapped "error initializing Prometheus Client GRPC TLS secret"
          (give f.prometheus_k8s_grpc_tls_secret)
    grpc_tls ← present grpc_tls
    s ←
        wrapped "error hashing Prometheus Client GRPC TLS secret"
          (give (f.hash_secret s (server_data grpc_tls)))
    wrapped "error creating Prometheus Client GRPC TLS secret" (create_or_update_secret c s)
    wrapped "error creating Prometheus Client GRPC TLS secret"
        (delete_hashed_secret c s.meta.namespace "prometheus-k8s-grpc-tls" (hash_of s))
    trusted_ca ←
        wrapped "initializing Prometheus CA bundle ConfigMap failed"
          (give f.prometheus_k8s_trusted_ca_bundle)
    trusted_ca ←
        wrapped "syncing Prometheus trusted CA bundle ConfigMap failed"
          (sync_trusted_ca_bundle c f.hash_trusted_ca "prometheus" trusted_ca)
    p ←
        wrapped "initializing Prometheus object failed"
          (give (f.prometheus_k8s host s (some trusted_ca)))
    wrapped "reconciling Prometheus object failed" (create_or_update_prometheus c p)
    wrapped "waiting for Prometheus object changes failed" (wait_for_prometheus c p)
    smk ←
        wrapped "initializing Prometheus kubelet ServiceMonitor failed"
          (give f.prometheus_k8s_kubelet_service_monitor)
    wrapped "reconciling Prometheus kubelet ServiceMonitor failed"
        (create_or_update_service_monitor c smk)
    sme ←
        wrapped "initializing Prometheus etcd ServiceMonitor failed"
          (give f.prometheus_k8s_etcd_service_monitor)
    enabled ← present (is_etcd_enabled config)
    (if enabled
        then wrapped "reconciling Prometheus etcd ServiceMonitor failed"
            (create_or_update_service_monitor c sme)
        else wrapped "deleting Prometheus etcd ServiceMonitor failed"
            (delete_service_monitor c sme))
    smp ←
        wrapped "initializing Prometheus Prometheus ServiceMonitor failed"
          (give f.prometheus_k8s_prometheus_service_monitor)
    wrapped "reconciling Prometheus Prometheus ServiceMonitor failed"
        (create_or_update_service_monitor c smp)
    smt ←
        wrapped "initializing Prometheus Thanos sidecar ServiceMonitor failed"
          (give f.prometheus_k8s_thanos_sidecar_service_monitor)
    wrapped "reconciling Prometheus Thanos sidecar ServiceMonitor failed"
        (create_or_update_service_monitor c smt)
    delete_service_monitors former_service_monitors
