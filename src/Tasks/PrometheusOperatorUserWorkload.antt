-- ===== src/Tasks/PrometheusOperatorUserWorkload.antt =====
-- pkg/tasks/prometheusoperator_user_workload.go: the Prometheus operator for user workloads, which is made
-- where user workload monitoring is enabled and else taken away.
use cluster_monitoring_opera.Base.{
  Bool, [], if◌then◌else◌, String, List, Result, M, give, wrapped, ◌>>=◌, ◌>>◌,
}
use cluster_monitoring_opera.Client.{Resource, DeploymentBody, ServiceBody, BindingBody, Client}
use cluster_monitoring_opera.Client.Apply.{
  create_or_update_cluster_role, create_or_update_cluster_role_binding, create_or_update_service,
  create_or_update_service_account, create_or_update_service_monitor,
}
use cluster_monitoring_opera.Client.Delete.{
  delete_cluster_role, delete_cluster_role_binding, delete_deployment, delete_service,
  delete_service_account, delete_service_monitor,
}
use cluster_monitoring_opera.Client.Ready.{
  assure_prometheus_operator_crs_exist, namespaces_to_monitor,
}
use cluster_monitoring_opera.Client.Rollout.{create_or_update_deployment}

-- The factory's methods that the task calls.
pub record PrometheusOperatorUserWorkloadFactory (B : Type 0) : Type 0 where
  pub prometheus_operator_user_workload_service_account : Result (Resource B)
  pub prometheus_operator_user_workload_cluster_role : Result (Resource B)
  pub prometheus_operator_user_workload_cluster_role_binding : Result (Resource (BindingBody B))
  pub prometheus_operator_user_workload_service : Result (Resource (ServiceBody B))
  pub prometheus_operator_user_workload_deployment :
      List String → Result (Resource (DeploymentBody B))
  pub prometheus_operator_user_workload_service_monitor : Result (Resource B)

module _ {S B : Type 0} (c : Client S B) (f : PrometheusOperatorUserWorkloadFactory B) where
  unfoldable pub create_prometheus_operator_user_workload : M S (Unit {0})
  create_prometheus_operator_user_workload = do
    sa ←
        wrapped "initializing UserWorkload Prometheus Operator ServiceAccount failed"
          (give f.prometheus_operator_user_workload_service_account)
    wrapped "reconciling UserWorkload Prometheus Operator ServiceAccount failed"
        (create_or_update_service_account c sa)
    cr ←
        wrapped "initializing UserWorkload Prometheus Operator ClusterRole failed"
          (give f.prometheus_operator_user_workload_cluster_role)
    wrapped "reconciling UserWorkload Prometheus Operator ClusterRole failed"
        (create_or_update_cluster_role c cr)
    crb ←
        wrapped "initializing UserWorkload Prometheus Operator ClusterRoleBinding failed"
          (give f.prometheus_operator_user_workload_cluster_role_binding)
    wrapped "reconciling UserWorkload Prometheus Operator ClusterRoleBinding failed"
        (create_or_update_cluster_role_binding c crb)
    svc ←
        wrapped "initializing UserWorkload Prometheus Operator Service failed"
          (give f.prometheus_operator_user_workload_service)
    wrapped "reconciling UserWorkload Prometheus Operator Service failed"
        (create_or_update_service c svc)
    deny_namespaces ←
        wrapped "initializing UserWorkload denied namespaces list failed" (namespaces_to_monitor c)
    d ←
        wrapped "initializing UserWorkload Prometheus Operator Deployment failed"
          (give (f.prometheus_operator_user_workload_deployment deny_namespaces))
    wrapped "reconciling UserWorkload Prometheus Operator Deployment failed"
        (create_or_update_deployment c d)
    wrapped "waiting for Prometheus Operator CRs to become available failed"
        (assure_prometheus_operator_crs_exist c)
    smpo ←
        wrapped "initializing UserWorkload Prometheus Operator ServiceMonitor failed"
          (give f.prometheus_operator_user_workload_service_monitor)
    wrapped "reconciling UserWorkload Prometheus Operator ServiceMonitor failed"
        (create_or_update_service_monitor c smpo)

  unfoldable pub destroy_prometheus_operator_user_workload : M S (Unit {0})
  destroy_prometheus_operator_user_workload = do
    dep ←
        wrapped "initializing UserWorkload Prometheus Operator Deployment failed"
          (give (f.prometheus_operator_user_workload_deployment []))
    wrapped "deleting UserWorkload Prometheus Operator Deployment failed" (delete_deployment c dep)
    sm ←
        wrapped "initializing UserWorkload Prometheus Operator ServiceMonitor failed"
          (give f.prometheus_operator_user_workload_service_monitor)
    wrapped "deleting UserWorkload Prometheus Operator ServiceMonitor failed"
        (delete_service_monitor c sm)
    svc ←
        wrapped "initializing UserWorkload Prometheus Operator Service failed"
          (give f.prometheus_operator_user_workload_service)
    wrapped "deleting UserWorkload Prometheus Operator Service failed" (delete_service c svc)
    crb ←
        wrapped "initializing UserWorkload Prometheus Operator ClusterRoleBinding failed"
          (give f.prometheus_operator_user_workload_cluster_role_binding)
    wrapped "deleting UserWorkload Prometheus Operator ClusterRoleBinding failed"
        (delete_cluster_role_binding c crb)
    cr ←
        wrapped "initializing UserWorkload Prometheus Operator ClusterRole failed"
          (give f.prometheus_operator_user_workload_cluster_role)
    wrapped "deleting UserWorkload Prometheus Operator ClusterRoleBinding failed"
        (delete_cluster_role c cr)
    sa ←
        wrapped "initializing UserWorkload Prometheus Operator ServiceAccount failed"
          (give f.prometheus_operator_user_workload_service_account)
    wrapped "deleting Telemeter client ServiceAccount failed" (delete_service_account c sa)

  unfoldable pub run_prometheus_operator_user_workload : Bool → M S (Unit {0})
  run_prometheus_operator_user_workload enabled =
      if enabled
      then create_prometheus_operator_user_workload
      else destroy_prometheus_operator_user_workload
