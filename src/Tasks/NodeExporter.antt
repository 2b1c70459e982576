-- ===== src/Tasks/NodeExporter.antt =====
-- pkg/tasks/nodeexporter.go: the task of node-exporter, as the sequence of its
-- calls, which stops at the first error.
use cluster_monitoring_opera.Base.{Result, M, give, wrapped, ◌>>=◌, ◌>>◌}
use cluster_monitoring_opera.Client.{Resource, DaemonSetBody, ServiceBody, BindingBody, Client}
use cluster_monitoring_opera.Client.Apply.{
  create_or_update_cluster_role, create_or_update_cluster_role_binding,
  create_or_update_security_context_constraints, create_or_update_service,
  create_or_update_service_account, create_or_update_service_monitor,
}
use cluster_monitoring_opera.Client.Rollout.{create_or_update_daemon_set}

-- The factory's methods that the task calls.
pub record NodeExporterFactory (B : Type 0) : Type 0 where
  pub node_exporter_security_context_constraints : Result (Resource B)
  pub node_exporter_service_account : Result (Resource B)
  pub node_exporter_cluster_role : Result (Resource B)
  pub node_exporter_cluster_role_binding : Result (Resource (BindingBody B))
  pub node_exporter_service : Result (Resource (ServiceBody B))
  pub node_exporter_daemon_set : Result (Resource (DaemonSetBody B))
  pub node_exporter_service_monitor : Result (Resource B)

module _ {S B : Type 0} (c : Client S B) (f : NodeExporterFactory B) where
  unfoldable pub run_node_exporter : M S (Unit {0})
  run_node_exporter = do
    scc ←
        wrapped "initializing node-exporter SecurityContextConstraints failed"
          (give f.node_exporter_security_context_constraints)
    wrapped "reconciling node-exporter SecurityContextConstraints failed"
        (create_or_update_security_context_constraints c scc)
    sa ← wrapped "initializing node-exporter Service failed" (give f.node_exporter_service_account)
    wrapped "reconciling node-exporter ServiceAccount failed"
        (create_or_update_service_account c sa)
    cr ← wrapped "initializing node-exporter ClusterRole failed" (give f.node_exporter_cluster_role)
    wrapped "reconciling node-exporter ClusterRole failed" (create_or_update_cluster_role c cr)
    crb ←
        wrapped "initializing node-exporter ClusterRoleBinding failed"
          (give f.node_exporter_cluster_role_binding)
    wrapped "reconciling node-exporter ClusterRoleBinding failed"
        (create_or_update_cluster_role_binding c crb)
    svc ← wrapped "initializing node-exporter Service failed" (give f.node_exporter_service)
    wrapped "reconciling node-exporter Service failed" (create_or_update_service c svc)
    ds ← wrapped "initializing node-exporter DaemonSet failed" (give f.node_exporter_daemon_set)
    wrapped "reconciling node-exporter DaemonSet failed" (create_or_update_daemon_set c ds)
    smn ←
        wrapped "initializing node-exporter ServiceMonitor failed"
          (give f.node_exporter_service_monitor)
    wrapped "reconciling node-exporter ServiceMonitor failed"
        (create_or_update_service_monitor c smn)
