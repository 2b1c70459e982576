-- ===== src/Tasks/ClusterMonitoringOperator.antt =====
-- pkg/tasks/clustermonitoringoperator.go: the task of the operator itself.
pub mod Laws
mod Tests
use cluster_monitoring_opera.Base.{
  Option, none, some, wrap, ◌<>◌, [], ◌∷◌, if◌then◌else◌, ok, err, pure, fail, attempt, String,
  List, Result, M, give, wrapped, ◌>>=◌, ◌>>◌,
}
use cluster_monitoring_opera.Client.{Resource, Contents, ServiceBody, Client}
use cluster_monitoring_opera.Manifests.Rotation.{Crypto, entries_of, rotate_grpc_secret}
use cluster_monitoring_opera.Tasks.Secrets.{wrap_unless_panic}
use cluster_monitoring_opera.Client.Apply.{
  create_or_update_cluster_role, create_or_update_role, create_or_update_secret,
  create_or_update_service, create_or_update_service_monitor,
}

-- The factory's methods that the task calls.
pub record ClusterMonitoringOperatorFactory (B : Type 0) : Type 0 where
  pub cluster_monitoring_operator_service : Result (Resource (ServiceBody B))
  pub cluster_monitoring_edit_user_workload_config_role : Result (Resource B)
  pub cluster_monitoring_operator_service_monitor : Result (Resource B)
  pub cluster_monitoring_cluster_role : Result (Resource B)
  pub cluster_monitoring_rules_edit_cluster_role : Result (Resource B)
  pub cluster_monitoring_rules_view_cluster_role : Result (Resource B)
  pub cluster_monitoring_edit_cluster_role : Result (Resource B)
  pub grpc_secret : Result (Resource Contents)

-- `GRPCSecret` makes the map of the data, and the API server gives none for a secret without data.
abbrev pub as_made : Resource Contents → Resource (Option Contents)
as_made s = record { meta = s.meta; body = some s.body }

abbrev pub as_read : Resource Contents → Resource (Option Contents)
as_read s = record {
  meta = s.meta;
  body = elim s.body [ [] ↦ none | entry ∷ rest ↦ some (entry ∷ rest) ];
}

abbrev pub as_written : Resource (Option Contents) → Resource Contents
as_written s = record { meta = s.meta; body = entries_of s.body }

module _ {S B X K : Type 0} (c : Client S B) (f : ClusterMonitoringOperatorFactory B)
    (cr : Crypto S X K) where
  -- The map of names and methods, in the order of the source. Go takes the entries in any order.
  abbrev pub cluster_role_methods : List (String × Result (Resource B))
  cluster_role_methods =
      ("cluster-monitoring-view", f.cluster_monitoring_cluster_role)
      ∷ ("monitoring-rules-edit", f.cluster_monitoring_rules_edit_cluster_role)
      ∷ ("monitoring-rules-view", f.cluster_monitoring_rules_view_cluster_role)
      ∷ ("monitoring-edit", f.cluster_monitoring_edit_cluster_role)
      ∷ []

  unfoldable pub reconcile_cluster_roles : List (String × Result (Resource B)) → M S (Unit {0})
  reconcile_cluster_roles [] = pure tt
  reconcile_cluster_roles ((name, crf) ∷ rest) =
      (wrapped ("initializing " <> name <> " ClusterRole failed") (give crf) >>= λ cr.
      wrapped ("reconciling " <> name <> " ClusterRole failed")
        (create_or_update_cluster_role c cr))
      >> reconcile_cluster_roles rest

  -- The secret of the manifests where the cluster has none, and else the one that it has.
  unfoldable pub choose_secret :
      Resource Contents → Result (Resource Contents) → M S (Resource (Option Contents))
  choose_secret s (ok loaded) = pure (as_read loaded)
  choose_secret s (err e) =
      if c.is_not_found e
      then pure (as_made s)
      else fail (wrap e "error reading Cluster Monitoring Operator GRPC TLS secret")

  unfoldable pub run_cluster_monitoring_operator : M S (Unit {0})
  run_cluster_monitoring_operator = do
    svc ←
        wrapped "initializing Cluster Monitoring Operator Service failed"
          (give f.cluster_monitoring_operator_service)
    wrapped "reconciling Cluster Monitoring Operator Service failed"
        (create_or_update_service c svc)
    reconcile_cluster_roles cluster_role_methods
    uwcr ←
        wrapped "initializing UserWorkloadConfigEdit Role failed"
          (give f.cluster_monitoring_edit_user_workload_config_role)
    wrapped "reconciling UserWorkloadConfigEdit Role failed" (create_or_update_role c uwcr)
    smcmo ←
        wrapped "initializing Cluster Monitoring Operator ServiceMonitor failed"
          (give f.cluster_monitoring_operator_service_monitor)
    wrapped "reconciling Cluster Monitoring Operator ServiceMonitor failed"
        (create_or_update_service_monitor c smcmo)
    s ←
        wrapped "error initializing Cluster Monitoring Operator GRPC TLS secret"
          (give f.grpc_secret)
    read ← attempt (c.secrets.get s.meta.namespace s.meta.name)
    s ← choose_secret s read
    rotated ← attempt (rotate_grpc_secret cr s)
    s ←
        give
          (wrap_unless_panic "error rotating Cluster Monitoring Operator GRPC TLS secret" rotated)
    wrapped "error creating Cluster Monitoring Operator GRPC TLS secret"
        (create_or_update_secret c (as_written s))
