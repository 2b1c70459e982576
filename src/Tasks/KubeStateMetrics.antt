-- ===== src/Tasks/KubeStateMetrics.antt =====
-- pkg/tasks/kubestatemetrics.go: the task of kube-state-metrics, as the sequence of its
-- calls, which stops at the first error.
use cluster_monitoring_opera.Base.{Result, M, give, wrapped, ◌>>=◌, ◌>>◌}
use cluster_monitoring_opera.Client.{Resource, DeploymentBody, ServiceBody, BindingBody, Client}
use cluster_monitoring_opera.Client.Apply.{
  create_or_update_cluster_role, create_or_update_cluster_role_binding, create_or_update_service,
  create_or_update_service_account, create_or_update_service_monitor,
}
use cluster_monitoring_opera.Client.Rollout.{create_or_update_deployment}

-- The factory's methods that the task calls.
pub record KubeStateMetricsFactory (B : Type 0) : Type 0 where
  pub kube_state_metrics_service_account : Result (Resource B)
  pub kube_state_metrics_cluster_role : Result (Resource B)
  pub kube_state_metrics_cluster_role_binding : Result (Resource (BindingBody B))
  pub kube_state_metrics_service : Result (Resource (ServiceBody B))
  pub kube_state_metrics_deployment : Result (Resource (DeploymentBody B))
  pub kube_state_metrics_service_monitor : Result (Resource B)

module _ {S B : Type 0} (c : Client S B) (f : KubeStateMetricsFactory B) where
  unfoldable pub run_kube_state_metrics : M S (Unit {0})
  run_kube_state_metrics = do
    sa ←
        wrapped "initializing kube-state-metrics Service failed"
          (give f.kube_state_metrics_service_account)
    wrapped "reconciling kube-state-metrics ServiceAccount failed"
        (create_or_update_service_account c sa)
    cr ←
        wrapped "initializing kube-state-metrics ClusterRole failed"
          (give f.kube_state_metrics_cluster_role)
    wrapped "reconciling kube-state-metrics ClusterRole failed" (create_or_update_cluster_role c cr)
    crb ←
        wrapped "initializing kube-state-metrics ClusterRoleBinding failed"
          (give f.kube_state_metrics_cluster_role_binding)
    wrapped "reconciling kube-state-metrics ClusterRoleBinding failed"
        (create_or_update_cluster_role_binding c crb)
    svc ←
        wrapped "initializing kube-state-metrics Service failed" (give f.kube_state_metrics_service)
    wrapped "reconciling kube-state-metrics Service failed" (create_or_update_service c svc)
    dep ←
        wrapped "initializing kube-state-metrics Deployment failed"
          (give f.kube_state_metrics_deployment)
    wrapped "reconciling kube-state-metrics Deployment failed" (create_or_update_deployment c dep)
    sm ←
        wrapped "initializing kube-state-metrics ServiceMonitor failed"
          (give f.kube_state_metrics_service_monitor)
    wrapped "reconciling kube-state-metrics ServiceMonitor failed"
        (create_or_update_service_monitor c sm)
