-- ===== src/Tasks/PrometheusAdapter.antt =====
-- pkg/tasks/prometheusadapter.go: the task of prometheus-adapter, as the sequence of its calls, which
-- stops at the first error.
use cluster_monitoring_opera.Base.{
  [], ◌∷◌, ◌<>◌, pure, String, List, Result, M, give, wrapped, ◌>>=◌, ◌>>◌,
}
use cluster_monitoring_opera.Client.{
  Resource, Contents, DeploymentBody, ServiceBody, BindingBody, Client,
}
use cluster_monitoring_opera.Client.{ApiServiceBody}
use cluster_monitoring_opera.Tasks.CaBundle.{hash_of}
use cluster_monitoring_opera.Client.Apply.{
  create_or_update_api_service, create_or_update_cluster_role,
  create_or_update_cluster_role_binding, create_or_update_config_map, create_or_update_role_binding,
  create_or_update_secret, create_or_update_service, create_or_update_service_account,
  create_or_update_service_monitor,
}
use cluster_monitoring_opera.Client.Rollout.{create_or_update_deployment}

-- The factory's methods that the task calls.
pub record PrometheusAdapterFactory (B : Type 0) : Type 0 where
  pub prometheus_adapter_cluster_role : Result (Resource B)
  pub prometheus_adapter_cluster_role_server_resources : Result (Resource B)
  pub prometheus_adapter_cluster_role_aggregated_metrics_reader : Result (Resource B)
  pub prometheus_adapter_cluster_role_binding : Result (Resource (BindingBody B))
  pub prometheus_adapter_cluster_role_binding_delegator : Result (Resource (BindingBody B))
  pub prometheus_adapter_cluster_role_binding_view : Result (Resource (BindingBody B))
  pub prometheus_adapter_role_binding_auth_reader : Result (Resource (BindingBody B))
  pub prometheus_adapter_service_account : Result (Resource B)
  pub prometheus_adapter_config_map : Result (Resource Contents)
  pub prometheus_adapter_config_map_prometheus : Result (Resource Contents)
  pub prometheus_adapter_service : Result (Resource (ServiceBody B))
  pub prometheus_adapter_secret : Resource Contents → Resource Contents → Result (Resource Contents)
  pub prometheus_adapter_deployment : String → Contents → Result (Resource (DeploymentBody B))
  pub prometheus_adapter_service_monitor : Result (Resource B)
  pub prometheus_adapter_api_service : Result (Resource (ApiServiceBody B))

module _ {S B : Type 0} (c : Client S B) where
  -- The loop stops at the first error.
  unfoldable pub delete_secrets : String → List (Resource Contents) → M S (Unit {0})
  delete_secrets namespace [] = pure tt
  delete_secrets namespace (s ∷ secrets) =
      wrapped ("error deleting secret: " <> s.meta.name) (c.secrets.delete namespace s.meta.name)
      >> delete_secrets namespace secrets

  unfoldable pub delete_old_prometheus_adapter_secrets : String → String → M S (Unit {0})
  unfolding delete_secrets
  delete_old_prometheus_adapter_secrets namespace new_hash = do
    secrets ← wrapped "error listing prometheus adapter secrets" (
        c.secrets.list namespace (
          "monitoring.openshift.io/name=prometheus-adapter,monitoring.openshift.io/hash!="
          <> new_hash))
    delete_secrets namespace secrets

module _ {S B : Type 0} (c : Client S B) (f : PrometheusAdapterFactory B) (namespace : String) where
  unfoldable pub run_prometheus_adapter : M S (Unit {0})
  run_prometheus_adapter = do
    cr ←
        wrapped "initializing PrometheusAdapter ClusterRole failed"
          (give f.prometheus_adapter_cluster_role)
    wrapped "reconciling PrometheusAdapter ClusterRole failed" (create_or_update_cluster_role c cr)
    cr ←
        wrapped "initializing PrometheusAdapter ClusterRole for server resources failed"
          (give f.prometheus_adapter_cluster_role_server_resources)
    wrapped "reconciling PrometheusAdapter ClusterRole for server resources failed"
        (create_or_update_cluster_role c cr)
    cr ←
        wrapped
          "initializing PrometheusAdapter ClusterRole aggregating resource metrics read permissions failed"
          (give f.prometheus_adapter_cluster_role_aggregated_metrics_reader)
    wrapped
        "reconciling PrometheusAdapter ClusterRole aggregating resource metrics read permissions failed"
        (create_or_update_cluster_role c cr)
    crb ←
        wrapped "initializing PrometheusAdapter ClusterRoleBinding failed"
          (give f.prometheus_adapter_cluster_role_binding)
    wrapped "reconciling PrometheusAdapter ClusterRoleBinding failed"
        (create_or_update_cluster_role_binding c crb)
    crb ←
        wrapped "initializing PrometheusAdapter ClusterRoleBinding for delegator failed"
          (give f.prometheus_adapter_cluster_role_binding_delegator)
    wrapped "reconciling PrometheusAdapter ClusterRoleBinding for delegator failed"
        (create_or_update_cluster_role_binding c crb)
    crb ←
        wrapped "initializing PrometheusAdapter ClusterRoleBinding for view failed"
          (give f.prometheus_adapter_cluster_role_binding_view)
    wrapped "reconciling PrometheusAdapter ClusterRoleBinding for view failed"
        (create_or_update_cluster_role_binding c crb)
    rb ←
        wrapped "initializing PrometheusAdapter RoleBinding for auth-reader failed"
          (give f.prometheus_adapter_role_binding_auth_reader)
    wrapped "reconciling PrometheusAdapter RoleBinding for auth-reader failed"
        (create_or_update_role_binding c rb)
    sa ←
        wrapped "initializing PrometheusAdapter ServiceAccount failed"
          (give f.prometheus_adapter_service_account)
    wrapped "reconciling PrometheusAdapter ServiceAccount failed"
        (create_or_update_service_account c sa)
    cm ←
        wrapped "initializing PrometheusAdapter ConfigMap failed"
          (give f.prometheus_adapter_config_map)
    wrapped "reconciling PrometheusAdapter ConfigMap failed" (create_or_update_config_map c cm)
    cm ←
        wrapped "initializing PrometheusAdapter ConfigMap for Prometheus failed"
          (give f.prometheus_adapter_config_map_prometheus)
    wrapped "reconciling PrometheusAdapter ConfigMap for Prometheus failed"
        (create_or_update_config_map c cm)
    s ← wrapped "initializing PrometheusAdapter Service failed" (give f.prometheus_adapter_service)
    wrapped "reconciling PrometheusAdapter Service failed" (create_or_update_service c s)
    tls_secret ←
        wrapped "failed to load prometheus-adapter-tls secret"
          (c.secrets.get namespace "prometheus-adapter-tls")
    api_auth_configmap ←
        wrapped "failed to load kube-system/extension-apiserver-authentication configmap"
          (c.config_maps.get "kube-system" "extension-apiserver-authentication")
    secret ←
        wrapped "failed to create prometheus adapter secret"
          (give (f.prometheus_adapter_secret tls_secret api_auth_configmap))
    wrapped "deleting old prometheus adapter secrets failed"
        (delete_old_prometheus_adapter_secrets c namespace (hash_of secret))
    wrapped "reconciling PrometheusAdapter Secret failed" (create_or_update_secret c secret)
    dep ←
        wrapped "initializing PrometheusAdapter Deployment failed"
          (give (f.prometheus_adapter_deployment secret.meta.name api_auth_configmap.body))
    wrapped "reconciling PrometheusAdapter Deployment failed" (create_or_update_deployment c dep)
    sm ←
        wrapped "initializing PrometheusAdapter ServiceMonitor failed"
          (give f.prometheus_adapter_service_monitor)
    wrapped "reconciling PrometheusAdapter ServiceMonitor failed"
        (create_or_update_service_monitor c sm)
    api ←
        wrapped "initializing PrometheusAdapter APIService failed"
          (give f.prometheus_adapter_api_service)
    wrapped "reconciling PrometheusAdapter APIService failed" (create_or_update_api_service c api)
