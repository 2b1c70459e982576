-- ===== src/Tasks/ThanosQuerier.antt =====
-- pkg/tasks/thanos_querier.go: the task of the Thanos querier, as the sequence of its calls, which
-- stops at the first error.
use cluster_monitoring_opera.Base.{
  Bool, String, Option, some, List, Result, M, give, wrapped, ◌>>=◌, ◌>>◌,
}
use cluster_monitoring_opera.Client.{
  Resource, Contents, DeploymentBody, ServiceBody, BindingBody, RouteBody, Client,
}
use cluster_monitoring_opera.Tasks.CaBundle.{hash_of}
use cluster_monitoring_opera.Tasks.Secrets.{Datasource, present, client_data, basic_auth_password}
use cluster_monitoring_opera.Config.{Config}
use cluster_monitoring_opera.Config.Settings.{is_user_workload_enabled}
use cluster_monitoring_opera.Client.Apply.{
  create_if_not_exist_secret, create_or_update_cluster_role, create_or_update_cluster_role_binding,
  create_or_update_prometheus_rule, create_or_update_secret, create_or_update_service,
  create_or_update_service_account, create_or_update_service_monitor, create_route_if_not_exists,
}
use cluster_monitoring_opera.Client.Delete.{delete_hashed_secret}
use cluster_monitoring_opera.Client.Ready.{wait_for_route_ready, wait_for_secret}
use cluster_monitoring_opera.Client.Rollout.{create_or_update_deployment}
use cluster_monitoring_opera.Tasks.CaBundle.{sync_trusted_ca_bundle}

-- The factory's methods that the task calls.
pub record ThanosQuerierFactory (B : Type 0) : Type 0 where
  pub thanos_querier_service : Result (Resource (ServiceBody B))
  pub thanos_querier_route : Result (Resource RouteBody)
  pub thanos_querier_oauth_cookie_secret : Result (Resource Contents)
  pub grafana_datasources : Result (Resource Contents)
  pub thanos_querier_htpasswd_secret : String → Result (Resource Contents)
  pub thanos_querier_rbac_proxy_secret : Result (Resource Contents)
  pub thanos_querier_rbac_proxy_rules_secret : Result (Resource Contents)
  pub thanos_querier_service_account : Result (Resource B)
  pub thanos_querier_cluster_role : Result (Resource B)
  pub thanos_querier_cluster_role_binding : Result (Resource (BindingBody B))
  pub grpc_secret : Result (Resource Contents)
  pub thanos_querier_grpc_tls_secret : Result (Resource Contents)
  pub hash_secret : Resource Contents → List String → Result (Resource Contents)
  pub thanos_querier_trusted_ca_bundle : Result (Resource Contents)
  pub hash_trusted_ca : Resource Contents → String → Result (Resource Contents)
  pub thanos_querier_deployment :
      Resource Contents → Bool → Option (Resource Contents) → Result (Resource (DeploymentBody B))
  pub thanos_querier_service_monitor : Result (Resource B)
  pub thanos_querier_prometheus_rule : Result (Resource B)

module _ {S B K : Type 0} (c : Client S B) (f : ThanosQuerierFactory B)
    (unmarshal : String → Result (List (Option Datasource))) (config : Config K) where
  -- The service, the route and the passwords.
  unfoldable pub expose_thanos_querier : M S (Unit {0})
  expose_thanos_querier = do
    svc ← wrapped "initializing Thanos Querier Service failed" (give f.thanos_querier_service)
    wrapped "reconciling Thanos Querier Service failed" (create_or_update_service c svc)
    r ← wrapped "initializing Thanos Querier Route failed" (give f.thanos_querier_route)
    wrapped "creating Thanos Querier Route failed" (create_route_if_not_exists c r)
    host ←
        wrapped "waiting for Thanos Querier Route to become ready failed" (wait_for_route_ready c r)
    s ←
        wrapped "initializing Thanos Querier OAuth Cookie Secret failed"
          (give f.thanos_querier_oauth_cookie_secret)
    wrapped "creating Thanos Querier OAuth Cookie Secret failed" (create_if_not_exist_secret c s)
    gs ← wrapped "initializing Grafana Datasources Secret failed" (give f.grafana_datasources)
    gs ← wrapped "waiting for Grafana Datasources Secret failed" (wait_for_secret c gs)
    password ← basic_auth_password unmarshal gs
    hs ←
        wrapped "initializing Thanos Querier htpasswd Secret failed"
          (give (f.thanos_querier_htpasswd_secret password))
    wrapped "creating Thanos Querier htpasswd Secret failed" (create_if_not_exist_secret c hs)
    rs ←
        wrapped "initializing Thanos Querier RBAC proxy Secret failed"
          (give f.thanos_querier_rbac_proxy_secret)
    wrapped "creating Thanos Querier RBAC proxy Secret failed" (create_if_not_exist_secret c rs)
    rs ←
        wrapped "initializing Thanos Querier RBAC proxy rules Secret failed"
          (give f.thanos_querier_rbac_proxy_rules_secret)
    wrapped "creating Thanos Querier RBAC proxy rules Secret failed"
        (create_if_not_exist_secret c rs)

  unfoldable pub run_thanos_querier : M S (Unit {0})
  run_thanos_querier = do
    expose_thanos_querier
    sa ←
        wrapped "initializing Thanos Querier ServiceAccount failed"
          (give f.thanos_querier_service_account)
    wrapped "reconciling Thanos Querier ServiceAccount failed"
        (create_or_update_service_account c sa)
    cr ←
        wrapped "initializing Thanos Querier ClusterRole failed"
          (give f.thanos_querier_cluster_role)
    wrapped "reconciling Thanos Querier ClusterRole failed" (create_or_update_cluster_role c cr)
    crb ←
        wrapped "initializing Thanos Querier ClusterRoleBinding failed"
          (give f.thanos_querier_cluster_role_binding)
    wrapped "reconciling Thanos Querier ClusterRoleBinding failed"
        (create_or_update_cluster_role_binding c crb)
    grpc_tls ← wrapped "initializing Thanos Querier GRPC secret failed" (give f.grpc_secret)
    grpc_tls ← wrapped "waiting for Thanos Querier GRPC secret failed" (wait_for_secret c grpc_tls)
    s ←
        wrapped "error initializing Thanos Querier Client GRPC TLS secret"
          (give f.thanos_querier_grpc_tls_secret)
    grpc_tls ← present grpc_tls
    s ←
        wrapped "error hashing Thanos Querier Client GRPC TLS secret"
          (give (f.hash_secret s (client_data grpc_tls)))
    wrapped "error creating Thanos Querier Client GRPC TLS secret" (create_or_update_secret c s)
    wrapped "error creating Thanos Querier Client GRPC TLS secret"
        (delete_hashed_secret c s.meta.namespace "thanos-querier-grpc-tls" (hash_of s))
    trusted_ca ←
        wrapped "initializing Thanos Querier trusted CA bundle ConfigMap failed"
          (give f.thanos_querier_trusted_ca_bundle)
    trusted_ca ←
        wrapped "syncing Thanos Querier trusted CA bundle ConfigMap failed"
          (sync_trusted_ca_bundle c f.hash_trusted_ca "thanos-querier" trusted_ca)
    enabled ← present (is_user_workload_enabled config)
    dep ←
        wrapped "initializing Thanos Querier Deployment failed"
          (give (f.thanos_querier_deployment s enabled (some trusted_ca)))
    wrapped "reconciling Thanos Querier Deployment failed" (create_or_update_deployment c dep)
    tqsm ←
        wrapped "initializing Thanos Querier ServiceMonitor failed"
          (give f.thanos_querier_service_monitor)
    wrapped "reconciling Thanos Querier ServiceMonitor failed"
        (create_or_update_service_monitor c tqsm)
    tqpr ←
        wrapped "initializing Thanos Querier PrometheusRule failed"
          (give f.thanos_querier_prometheus_rule)
    wrapped "reconciling Thanos Querier PrometheusRule failed"
        (create_or_update_prometheus_rule c tqpr)
