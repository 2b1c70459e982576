-- ===== src/Tasks/PrometheusUserWorkload.antt =====
-- pkg/tasks/prometheus_user_workload.go: the task of the Prometheus for user workloads.
use cluster_monitoring_opera.Base.{
  Bool, if◌then◌else◌, attempt, String, Option, some, List, Result, M, give, wrapped, ◌>>=◌, ◌>>◌,
}
use cluster_monitoring_opera.Client.{
  Resource, Contents, ReplicatedBody, ServiceBody, BindingBody, Client,
}
use cluster_monitoring_opera.Tasks.CaBundle.{hash_of}
use cluster_monitoring_opera.Tasks.Secrets.{present, value_of, server_data, for_items}
use cluster_monitoring_opera.Client.Apply.{
  create_if_not_exist_config_map, create_or_update_cluster_role,
  create_or_update_cluster_role_binding, create_or_update_prometheus, create_or_update_role,
  create_or_update_role_binding, create_or_update_secret, create_or_update_service,
  create_or_update_service_account, create_or_update_service_monitor,
}
use cluster_monitoring_opera.Client.Delete.{
  delete_cluster_role, delete_cluster_role_binding, delete_config_map, delete_hashed_secret,
  delete_role, delete_role_binding, delete_secret, delete_service, delete_service_account,
  delete_service_monitor,
}
use cluster_monitoring_opera.Client.Ready.{delete_prometheus, wait_for_secret}
use cluster_monitoring_opera.Client.Wait.{wait_for_prometheus}

-- The factory's methods that the task calls.
pub record PrometheusUserWorkloadFactory (B : Type 0) : Type 0 where
  pub prometheus_user_workload_serving_certs_ca_bundle : Result (Resource Contents)
  pub prometheus_user_workload_service_account : Result (Resource B)
  pub prometheus_user_workload_cluster_role : Result (Resource B)
  pub prometheus_user_workload_cluster_role_binding : Result (Resource (BindingBody B))
  pub prometheus_user_workload_role_config : Result (Resource B)
  pub prometheus_user_workload_role_list : Result (List (Resource B))
  pub prometheus_user_workload_role_binding_list : Result (List (Resource (BindingBody B)))
  pub prometheus_user_workload_role_binding_config : Result (Resource (BindingBody B))
  pub prometheus_user_workload_service : Result (Resource (ServiceBody B))
  pub prometheus_user_workload_service_thanos_sidecar : Result (Resource (ServiceBody B))
  pub grpc_secret : Result (Resource Contents)
  pub prometheus_user_workload_grpc_tls_secret : Result (Resource Contents)
  pub hash_secret : Resource Contents → List String → Result (Resource Contents)
  pub prometheus_user_workload : Option (Resource Contents) → Result (Resource (ReplicatedBody B))
  pub prometheus_user_workload_prometheus_service_monitor : Result (Resource B)
  pub prometheus_user_workload_thanos_sidecar_service_monitor : Result (Resource B)

module _ {S B : Type 0} (c : Client S B) (f : PrometheusUserWorkloadFactory B) where
  -- The bundle of certificates, and the service account with its roles.
  unfoldable pub reconcile_user_workload_access : M S (Unit {0})
  reconcile_user_workload_access = do
    cacm ←
        wrapped "initializing UserWorkload serving certs CA Bundle ConfigMap failed"
          (give f.prometheus_user_workload_serving_certs_ca_bundle)
    existing ←
        wrapped "creating UserWorkload serving certs CA Bundle ConfigMap failed"
          (create_if_not_exist_config_map c cacm)
    sa ←
        wrapped "initializing UserWorkload Prometheus ServiceAccount failed"
          (give f.prometheus_user_workload_service_account)
    wrapped "reconciling UserWorkload Prometheus ServiceAccount failed"
        (create_or_update_service_account c sa)
    cr ←
        wrapped "initializing UserWorkload Prometheus ClusterRole failed"
          (give f.prometheus_user_workload_cluster_role)
    wrapped "reconciling UserWorkload Prometheus ClusterRole failed"
        (create_or_update_cluster_role c cr)
    crb ←
        wrapped "initializing UserWorkload Prometheus ClusterRoleBinding failed"
          (give f.prometheus_user_workload_cluster_role_binding)
    wrapped "reconciling UserWorkload Prometheus ClusterRoleBinding failed"
        (create_or_update_cluster_role_binding c crb)
    rc ←
        wrapped "initializing UserWorkload Prometheus Role config failed"
          (give f.prometheus_user_workload_role_config)
    wrapped "reconciling UserWorkload Prometheus Role config failed" (create_or_update_role c rc)
    rl ←
        wrapped "initializing UserWorkload Prometheus Role failed"
          (give f.prometheus_user_workload_role_list)
    for_items "reconciling UserWorkload Prometheus Role" (create_or_update_role c) rl
    rbl ←
        wrapped "initializing UserWorkload Prometheus RoleBinding failed"
          (give f.prometheus_user_workload_role_binding_list)
    for_items "reconciling UserWorkload Prometheus RoleBinding" (create_or_update_role_binding c)
        rbl
    rbc ←
        wrapped "initializing UserWorkload Prometheus config RoleBinding failed"
          (give f.prometheus_user_workload_role_binding_config)
    wrapped "reconciling UserWorkload Prometheus config RoleBinding failed"
        (create_or_update_role_binding c rbc)

  unfoldable pub create_prometheus_user_workload : M S (Unit {0})
  create_prometheus_user_workload = do
    reconcile_user_workload_access
    svc ←
        wrapped "initializing UserWorkload Prometheus Service failed"
          (give f.prometheus_user_workload_service)
    wrapped "reconciling UserWorkload Prometheus Service failed" (create_or_update_service c svc)
    svc ←
        wrapped "initializing UserWorkload Thanos sidecar Service failed"
          (give f.prometheus_user_workload_service_thanos_sidecar)
    wrapped "reconciling UserWorkload Thanos sidecar Service failed"
        (create_or_update_service c svc)
    grpc_tls ←
        wrapped "initializing UserWorkload Prometheus GRPC secret failed" (give f.grpc_secret)
    grpc_tls ←
        wrapped "waiting for UserWorkload Prometheus GRPC secret failed"
          (wait_for_secret c grpc_tls)
    s ←
        wrapped "error initializing UserWorkload Prometheus Client GRPC TLS secret"
          (give f.prometheus_user_workload_grpc_tls_secret)
    grpc_tls ← present grpc_tls
    s ←
        wrapped "error hashing UserWorkload Prometheus Client GRPC TLS secret"
          (give (f.hash_secret s (server_data grpc_tls)))
    wrapped "error creating UserWorkload Prometheus Client GRPC TLS secret"
        (create_or_update_secret c s)
    wrapped "error creating UserWorkload Prometheus Client GRPC TLS secret"
        (delete_hashed_secret c s.meta.namespace "prometheus-user-workload-grpc-tls" (hash_of s))
    p ←
        wrapped "initializing UserWorkload Prometheus object failed"
          (give (f.prometheus_user_workload (some s)))
    wrapped "reconciling UserWorkload Prometheus object failed" (create_or_update_prometheus c p)
    wrapped "waiting for UserWorkload Prometheus object changes failed" (wait_for_prometheus c p)
    smp ←
        wrapped "initializing UserWorkload Prometheus ServiceMonitor failed"
          (give f.prometheus_user_workload_prometheus_service_monitor)
    wrapped "reconciling UserWorkload Prometheus ServiceMonitor failed"
        (create_or_update_service_monitor c smp)
    smt ←
        wrapped "initializing UserWorkload Thanos sidecar ServiceMonitor failed"
          (give f.prometheus_user_workload_thanos_sidecar_service_monitor)
    wrapped "reconciling UserWorkload Thanos sidecar ServiceMonitor failed"
        (create_or_update_service_monitor c smt)

  -- The service monitors, the Prometheus and its secret.
  unfoldable pub delete_user_workload_prometheus : M S (Unit {0})
  delete_user_workload_prometheus = do
    smt ←
        wrapped "initializing UserWorkload Thanos sidecar ServiceMonitor failed"
          (give f.prometheus_user_workload_thanos_sidecar_service_monitor)
    wrapped "deleting UserWorkload Thanos sidecar ServiceMonitor failed"
        (delete_service_monitor c smt)
    smp ←
        wrapped "initializing UserWorkload Prometheus ServiceMonitor failed"
          (give f.prometheus_user_workload_prometheus_service_monitor)
    wrapped "deleting UserWorkload Prometheus ServiceMonitor failed" (delete_service_monitor c smp)
    grpc_tls ←
        wrapped "initializing UserWorkload Prometheus GRPC secret failed" (give f.grpc_secret)
    grpc_tls ←
        wrapped "waiting for UserWorkload Prometheus GRPC secret failed"
          (wait_for_secret c grpc_tls)
    s ←
        wrapped "error initializing Prometheus Client GRPC TLS secret"
          (give f.prometheus_user_workload_grpc_tls_secret)
    grpc_tls ← present grpc_tls
    hashed ← attempt (give (f.hash_secret s (server_data grpc_tls)))
    let s : Option (Resource Contents) = value_of hashed
    p ←
        wrapped "initializing UserWorkload Prometheus object failed"
          (give (f.prometheus_user_workload s))
    wrapped "deleting UserWorkload Prometheus object failed" (delete_prometheus c p)
    s ← present s
    wrapped "deleting UserWorkload Prometheus TLS secret failed" (delete_secret c s)

  unfoldable pub destroy_prometheus_user_workload : M S (Unit {0})
  destroy_prometheus_user_workload = do
    delete_user_workload_prometheus
    svc ←
        wrapped "initializing UserWorkload Prometheus Service failed"
          (give f.prometheus_user_workload_service)
    wrapped "deleting UserWorkload Prometheus Service failed" (delete_service c svc)
    svc ←
        wrapped "initializing UserWorkload Thanos sidecar Service failed"
          (give f.prometheus_user_workload_service_thanos_sidecar)
    wrapped "deleting UserWorkload Prometheus Service failed" (delete_service c svc)
    rbc ←
        wrapped "initializing UserWorkload Prometheus config RoleBinding failed"
          (give f.prometheus_user_workload_role_binding_config)
    wrapped "deleting UserWorkload Prometheus Service failed" (delete_role_binding c rbc)
    rbl ←
        wrapped "initializing UserWorkload Prometheus RoleBinding failed"
          (give f.prometheus_user_workload_role_binding_list)
    for_items "deleting UserWorkload Prometheus RoleBinding" (delete_role_binding c) rbl
    rl ←
        wrapped "initializing UserWorkload Prometheus Role failed"
          (give f.prometheus_user_workload_role_list)
    for_items "deleting UserWorkload Prometheus Role" (delete_role c) rl
    rc ←
        wrapped "initializing UserWorkload Prometheus Role config failed"
          (give f.prometheus_user_workload_role_config)
    wrapped "deleting UserWorkload Prometheus Role config failed" (delete_role c rc)
    crb ←
        wrapped "initializing UserWorkload Prometheus ClusterRoleBinding failed"
          (give f.prometheus_user_workload_cluster_role_binding)
    wrapped "deleting UserWorkload Prometheus ClusterRoleBinding failed"
        (delete_cluster_role_binding c crb)
    cr ←
        wrapped "initializing UserWorkload Prometheus ClusterRole failed"
          (give f.prometheus_user_workload_cluster_role)
    wrapped "deleting UserWorkload Prometheus ClusterRole failed" (delete_cluster_role c cr)
    sa ←
        wrapped "initializing UserWorkload Prometheus ServiceAccount failed"
          (give f.prometheus_user_workload_service_account)
    wrapped "deleting UserWorkload Prometheus ServiceAccount failed" (delete_service_account c sa)
    cacm ←
        wrapped "initializing UserWorkload serving certs CA Bundle ConfigMap failed"
          (give f.prometheus_user_workload_serving_certs_ca_bundle)
    wrapped "deleting UserWorkload serving certs CA Bundle ConfigMap failed"
        (delete_config_map c cacm)

  -- The setting of the configuration; a nil pointer on the way to it is a panic.
  unfoldable pub run_prometheus_user_workload : Option Bool → M S (Unit {0})
  run_prometheus_user_workload setting = do
    enabled ← present setting
    if enabled then create_prometheus_user_workload else destroy_prometheus_user_workload
