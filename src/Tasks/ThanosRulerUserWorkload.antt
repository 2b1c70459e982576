-- ===== src/Tasks/ThanosRulerUserWorkload.antt =====
-- pkg/tasks/thanos_ruler_user_workload.go: the task of the Thanos ruler for user workloads.
use cluster_monitoring_opera.Base.{
  ◌&&◌, ◌||◌, ◌==◌, string_eq, starts_with, ◌<>◌, Bool, if◌then◌else◌, attempt, String, Option,
  some, List, Result, M, give, wrapped, ◌>>=◌, ◌>>◌,
}
use cluster_monitoring_opera.Client.{
  Resource, Contents, ReplicatedBody, ServiceBody, BindingBody, RouteBody, Client,
}
use cluster_monitoring_opera.Tasks.CaBundle.{hash_of}
use cluster_monitoring_opera.Tasks.Secrets.{present, value_of, server_data}
use cluster_monitoring_opera.Client.Apply.{
  create_if_not_exist_secret, create_or_update_cluster_role, create_or_update_cluster_role_binding,
  create_or_update_prometheus_rule, create_or_update_secret, create_or_update_service,
  create_or_update_service_account, create_or_update_service_monitor, create_or_update_thanos_ruler,
  create_route_if_not_exists,
}
use cluster_monitoring_opera.Client.Delete.{
  delete_cluster_role, delete_cluster_role_binding, delete_config_map, delete_hashed_config_map,
  delete_hashed_secret, delete_prometheus_rule, delete_route, delete_secret, delete_service,
  delete_service_account, delete_service_monitor,
}
use cluster_monitoring_opera.Client.Ready.{
  Url, get_route_url, delete_thanos_ruler, wait_for_route_ready, wait_for_secret,
}
use cluster_monitoring_opera.Client.Wait.{wait_for_thanos_ruler}
use cluster_monitoring_opera.Tasks.CaBundle.{sync_trusted_ca_bundle}

-- The factory's methods that the task calls.
pub record ThanosRulerUserWorkloadFactory (B : Type 0) : Type 0 where
  pub thanos_ruler_service : Result (Resource (ServiceBody B))
  pub thanos_ruler_route : Result (Resource RouteBody)
  pub thanos_ruler_cluster_role : Result (Resource B)
  pub thanos_ruler_cluster_role_binding : Result (Resource (BindingBody B))
  pub thanos_ruler_monitoring_cluster_role_binding : Result (Resource (BindingBody B))
  pub thanos_ruler_service_account : Result (Resource B)
  pub thanos_ruler_oauth_cookie_secret : Result (Resource Contents)
  pub thanos_ruler_query_config_secret : Result (Resource Contents)
  pub thanos_ruler_alertmanager_config_secret : Result (Resource Contents)
  pub thanos_ruler_trusted_ca_bundle : Result (Resource Contents)
  pub hash_trusted_ca : Resource Contents → String → Result (Resource Contents)
  pub grpc_secret : Result (Resource Contents)
  pub thanos_ruler_grpc_tls_secret : Result (Resource Contents)
  pub hash_secret : Resource Contents → List String → Result (Resource Contents)
  pub thanos_querier_route : Result (Resource RouteBody)
  pub thanos_ruler_custom_resource :
      String → Option (Resource Contents) → Resource Contents → Result (Resource (ReplicatedBody B))
  pub thanos_ruler_service_monitor : Result (Resource B)
  pub thanos_ruler_prometheus_rule : Result (Resource B)

-- `(*url.URL).String()` of a URL with a scheme, whose host and path need no escape.
abbrev pub url_text : Url → String
url_text u =
    if u.host == "" && u.path == ""
    then u.scheme <> ":"
    else u.scheme
      <> "://"
      <> u.host
      <> (if u.host == "" || u.path == "" || starts_with u.path "/" then "" else "/")
      <> u.path

module _ {S B : Type 0} (c : Client S B) (f : ThanosRulerUserWorkloadFactory B) where
  -- The service, the route, the roles and the passwords.
  unfoldable pub expose_thanos_ruler : M S (Unit {0})
  expose_thanos_ruler = do
    svc ← wrapped "initializing Thanos Ruler Service failed" (give f.thanos_ruler_service)
    wrapped "reconciling Thanos Ruler Service failed" (create_or_update_service c svc)
    r ← wrapped "initializing Thanos Ruler Route failed" (give f.thanos_ruler_route)
    wrapped "creating Thanos Ruler Route failed" (create_route_if_not_exists c r)
    host ←
        wrapped "waiting for Thanos Ruler Route to become ready failed" (wait_for_route_ready c r)
    cr ← wrapped "initializing Thanos Ruler ClusterRole failed" (give f.thanos_ruler_cluster_role)
    wrapped "reconciling Thanos Ruler ClusterRole failed" (create_or_update_cluster_role c cr)
    crb ←
        wrapped "initializing Thanos Ruler ClusterRoleBinding failed"
          (give f.thanos_ruler_cluster_role_binding)
    wrapped "reconciling Thanos Ruler ClusterRoleBinding failed"
        (create_or_update_cluster_role_binding c crb)
    moncrb ←
        wrapped "initializing Thanos Ruler monitoring ClusterRoleBinding failed"
          (give f.thanos_ruler_monitoring_cluster_role_binding)
    wrapped "reconciling Thanos Ruler monitoring ClusterRoleBinding failed"
        (create_or_update_cluster_role_binding c moncrb)
    sa ←
        wrapped "initializing Thanos Ruler ServiceAccount failed"
          (give f.thanos_ruler_service_account)
    wrapped "reconciling Thanos Ruler ServiceAccount failed" (create_or_update_service_account c sa)
    s ←
        wrapped "initializing Thanos Ruler OAuth Cookie Secret failed"
          (give f.thanos_ruler_oauth_cookie_secret)
    wrapped "creating Thanos Ruler OAuth Cookie Secret failed" (create_if_not_exist_secret c s)
    qcs ←
        wrapped "initializing Thanos Ruler query config Secret failed"
          (give f.thanos_ruler_query_config_secret)
    wrapped "creating Thanos Ruler query config Secret failed" (create_if_not_exist_secret c qcs)
    acs ←
        wrapped "initializing Thanos Ruler Alertmanager config Secret failed"
          (give f.thanos_ruler_alertmanager_config_secret)
    wrapped "creating Thanos Ruler alertmanager config Secret failed"
        (create_if_not_exist_secret c acs)

  unfoldable pub create_thanos_ruler_user_workload : M S (Unit {0})
  create_thanos_ruler_user_workload = do
    expose_thanos_ruler
    trusted_ca ←
        wrapped "initializing Thanos Ruler trusted CA bundle ConfigMap failed"
          (give f.thanos_ruler_trusted_ca_bundle)
    trusted_ca ←
        wrapped "syncing Thanos Ruler trusted CA bundle ConfigMap failed"
          (sync_trusted_ca_bundle c f.hash_trusted_ca "thanos-ruler" trusted_ca)
    grpc_tls ←
        wrapped "initializing UserWorkload Thanos Ruler GRPC secret failed" (give f.grpc_secret)
    grpc_tls ←
        wrapped "waiting for UserWorkload Thanos Ruler GRPC secret failed"
          (wait_for_secret c grpc_tls)
    grpc_secret ←
        wrapped "error initializing UserWorkload Thanos Ruler GRPC TLS secret"
          (give f.thanos_ruler_grpc_tls_secret)
    grpc_tls ← present grpc_tls
    grpc_secret ←
        wrapped "error hashing UserWorkload Thanos Ruler GRPC TLS secret"
          (give (f.hash_secret grpc_secret (server_data grpc_tls)))
    wrapped "error creating UserWorkload Thanos Ruler GRPC TLS secret"
        (create_or_update_secret c grpc_secret)
    wrapped "error deleting expired UserWorkload Thanos Ruler GRPC TLS secret" (
        delete_hashed_secret c grpc_secret.meta.namespace "thanos-ruler-grpc-tls"
          (hash_of grpc_secret))
    querier_route ← wrapped "initializing Thanos Querier Route failed" (give f.thanos_querier_route)
    found ← attempt (get_route_url c querier_route)
    query_url ← present (value_of found)
    tr ←
        wrapped "initializing ThanosRuler object failed"
          (give (f.thanos_ruler_custom_resource (url_text query_url) (some trusted_ca) grpc_secret))
    wrapped "reconciling ThanosRuler object failed" (create_or_update_thanos_ruler c tr)
    wrapped "waiting for ThanosRuler object changes failed" (wait_for_thanos_ruler c tr)
    trsm ←
        wrapped "initializing Thanos Ruler ServiceMonitor failed"
          (give f.thanos_ruler_service_monitor)
    wrapped "reconciling Thanos Ruler ServiceMonitor failed"
        (create_or_update_service_monitor c trsm)
    pm ←
        wrapped "initializing Thanos Ruler PrometheusRule failed"
          (give f.thanos_ruler_prometheus_rule)
    wrapped "reconciling Thanos Ruler PrometheusRule failed" (create_or_update_prometheus_rule c pm)

  -- The rule, the route, the service, the roles and the cookie.
  unfoldable pub delete_thanos_ruler_access : M S (Unit {0})
  delete_thanos_ruler_access = do
    prmrl ←
        wrapped "initializing Thanos Ruler PrometheusRule failed"
          (give f.thanos_ruler_prometheus_rule)
    wrapped "deleting Thanos Ruler PrometheusRule failed" (delete_prometheus_rule c prmrl)
    route ← wrapped "initializing Thanos Ruler Route failed" (give f.thanos_ruler_route)
    wrapped "deleting Thanos Ruler Route failed" (delete_route c route)
    svc ← wrapped "initializing Thanos Ruler Service failed" (give f.thanos_ruler_service)
    wrapped "deleting Thanos Ruler Service failed" (delete_service c svc)
    cr ← wrapped "initializing Thanos Ruler ClusterRole failed" (give f.thanos_ruler_cluster_role)
    wrapped "deleting Thanos Ruler ClusterRole failed" (delete_cluster_role c cr)
    crb ←
        wrapped "initializing Thanos Ruler ClusterRoleBinding failed"
          (give f.thanos_ruler_cluster_role_binding)
    wrapped "deleting Thanos Ruler ClusterRoleBinding failed" (delete_cluster_role_binding c crb)
    sa ←
        wrapped "initializing Thanos Ruler ServiceAccount failed"
          (give f.thanos_ruler_service_account)
    wrapped "deleting Thanos Ruler ServiceAccount failed" (delete_service_account c sa)
    oauth_secret ←
        wrapped "initializing Thanos Ruler OAuth Cookie Secret failed"
          (give f.thanos_ruler_oauth_cookie_secret)
    wrapped "deleting Thanos Ruler OAuth Cookie Secret failed" (delete_secret c oauth_secret)

  unfoldable pub destroy_thanos_ruler_user_workload : M S (Unit {0})
  destroy_thanos_ruler_user_workload = do
    delete_thanos_ruler_access
    trusted_ca ←
        wrapped "initializing Thanos Ruler trusted CA bundle ConfigMap failed"
          (give f.thanos_ruler_trusted_ca_bundle)
    wrapped "deleting Thanos Ruler trusted CA bundle ConfigMap failed"
        (delete_config_map c trusted_ca)
    wrapped "deleting all hashed Thanos Ruler trusted CA bundle ConfigMap failed"
        (delete_hashed_config_map c trusted_ca.meta.namespace "thanos-ruler" "")
    grpc_tls ←
        wrapped "initializing UserWorkload Thanos Ruler GRPC secret failed" (give f.grpc_secret)
    grpc_tls ←
        wrapped "waiting for UserWorkload Thanos Ruler GRPC secret failed"
          (wait_for_secret c grpc_tls)
    grpc_secret ←
        wrapped "error initializing UserWorkload Thanos Ruler GRPC TLS secret"
          (give f.thanos_ruler_grpc_tls_secret)
    grpc_tls ← present grpc_tls
    grpc_secret ←
        wrapped "error hashing UserWorkload Thanos Ruler GRPC TLS secret"
          (give (f.hash_secret grpc_secret (server_data grpc_tls)))
    tr ←
        wrapped "initializing ThanosRuler object failed"
          (give (f.thanos_ruler_custom_resource "" (some trusted_ca) grpc_secret))
    wrapped "deleting ThanosRuler object failed" (delete_thanos_ruler c tr)
    wrapped "error deleting UserWorkload Thanos Ruler GRPC TLS secret" (delete_secret c grpc_secret)
    qcs ←
        wrapped "initializing Thanos Ruler query config Secret failed"
          (give f.thanos_ruler_query_config_secret)
    wrapped "deleting Thanos Ruler query config Secret failed" (delete_secret c qcs)
    acs ←
        wrapped "initializing Thanos Ruler Alertmanager config Secret failed"
          (give f.thanos_ruler_alertmanager_config_secret)
    wrapped "creating Thanos Ruler alertmanager config Secret failed" (delete_secret c acs)
    trsm ←
        wrapped "initializing Thanos Ruler ServiceMonitor failed"
          (give f.thanos_ruler_service_monitor)
    wrapped "deleting Thanos Ruler ServiceMonitor failed" (delete_service_monitor c trsm)

  -- The setting of the configuration; a nil pointer on the way to it is a panic.
  unfoldable pub run_thanos_ruler_user_workload : Option Bool → M S (Unit {0})
  run_thanos_ruler_user_workload setting = do
    enabled ← present setting
    if enabled then create_thanos_ruler_user_workload else destroy_thanos_ruler_user_workload
