-- ===== src/Tasks/PrometheusOperator.antt =====
-- pkg/tasks/prometheusoperator.go: the task of the Prometheus operator, as the sequence of its
-- calls, which stops at the first error.
use cluster_monitoring_opera.Base.{String, List, Result, M, give, wrapped, ◌>>=◌, ◌>>◌}
use cluster_monitoring_opera.Client.{
  Resource, Contents, DeploymentBody, ServiceBody, BindingBody, Client,
}
use cluster_monitoring_opera.Client.Apply.{
  create_if_not_exist_config_map, create_or_update_cluster_role,
  create_or_update_cluster_role_binding, create_or_update_service, create_or_update_service_account,
  create_or_update_service_monitor, create_or_update_validating_webhook_configuration,
}
use cluster_monitoring_opera.Client.Ready.{
  assure_prometheus_operator_crs_exist, namespaces_to_monitor,
}
use cluster_monitoring_opera.Client.Rollout.{create_or_update_deployment}

-- The factory's methods that the task calls.
pub record PrometheusOperatorFactory (B : Type 0) : Type 0 where
  pub prometheus_operator_certs_ca_bundle : Result (Resource Contents)
  pub prometheus_operator_service_account : Result (Resource B)
  pub prometheus_operator_cluster_role : Result (Resource B)
  pub prometheus_operator_cluster_role_binding : Result (Resource (BindingBody B))
  pub prometheus_operator_service : Result (Resource (ServiceBody B))
  pub prometheus_operator_deployment : List String → Result (Resource (DeploymentBody B))
  pub prometheus_rule_validating_webhook : Result (Resource B)
  pub prometheus_operator_service_monitor : Result (Resource B)

module _ {S B : Type 0} (c : Client S B) (f : PrometheusOperatorFactory B) where
  unfoldable pub run_prometheus_operator : M S (Unit {0})
  run_prometheus_operator = do
    cacm ←
        wrapped "initializing serving certs CA Bundle ConfigMap failed"
          (give f.prometheus_operator_certs_ca_bundle)
    existing ←
        wrapped "creating serving certs CA Bundle ConfigMap failed"
          (create_if_not_exist_config_map c cacm)
    sa ←
        wrapped "initializing Prometheus Operator ServiceAccount failed"
          (give f.prometheus_operator_service_account)
    wrapped "reconciling Prometheus Operator ServiceAccount failed"
        (create_or_update_service_account c sa)
    cr ←
        wrapped "initializing Prometheus Operator ClusterRole failed"
          (give f.prometheus_operator_cluster_role)
    wrapped "reconciling Prometheus Operator ClusterRole failed"
        (create_or_update_cluster_role c cr)
    crb ←
        wrapped "initializing Prometheus Operator ClusterRoleBinding failed"
          (give f.prometheus_operator_cluster_role_binding)
    wrapped "reconciling Prometheus Operator ClusterRoleBinding failed"
        (create_or_update_cluster_role_binding c crb)
    svc ←
        wrapped "initializing Prometheus Operator Service failed"
          (give f.prometheus_operator_service)
    wrapped "reconciling Prometheus Operator Service failed" (create_or_update_service c svc)
    cluster_namespaces ← wrapped "listing namespaces to monitor failed" (namespaces_to_monitor c)
    d ←
        wrapped "initializing Prometheus Operator Deployment failed"
          (give (f.prometheus_operator_deployment cluster_namespaces))
    wrapped "reconciling Prometheus Operator Deployment failed" (create_or_update_deployment c d)
    wrapped "waiting for Prometheus Operator CRs to become available failed"
        (assure_prometheus_operator_crs_exist c)
    w ←
        wrapped "initializing Prometheus Rule Validating Webhook failed"
          (give f.prometheus_rule_validating_webhook)
    wrapped "reconciling Prometheus Rule Validating Webhook failed"
        (create_or_update_validating_webhook_configuration c w)
    smpo ←
        wrapped "initializing Prometheus Operator ServiceMonitor failed"
          (give f.prometheus_operator_service_monitor)
    wrapped "reconciling Prometheus Operator ServiceMonitor failed"
        (create_or_update_service_monitor c smpo)
