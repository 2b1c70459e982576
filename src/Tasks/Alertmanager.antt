-- ===== src/Tasks/Alertmanager.antt =====
-- pkg/tasks/alertmanager.go: the task of Alertmanager, as the sequence of its
-- calls, which stops at the first error.
use cluster_monitoring_opera.Base.{String, Option, some, Result, M, give, wrapped, ◌>>=◌, ◌>>◌}
use cluster_monitoring_opera.Client.{
  Resource, Contents, ReplicatedBody, ServiceBody, BindingBody, RouteBody, Client,
}
use cluster_monitoring_opera.Client.Apply.{
  create_if_not_exist_secret, create_or_update_alertmanager, create_or_update_cluster_role,
  create_or_update_cluster_role_binding, create_or_update_service, create_or_update_service_account,
  create_or_update_service_monitor, create_route_if_not_exists,
}
use cluster_monitoring_opera.Client.Ready.{wait_for_route_ready}
use cluster_monitoring_opera.Client.Wait.{wait_for_alertmanager}
use cluster_monitoring_opera.Tasks.CaBundle.{sync_trusted_ca_bundle}

-- The factory's methods that the task calls.
pub record AlertmanagerFactory (B : Type 0) : Type 0 where
  pub alertmanager_route : Result (Resource RouteBody)
  pub alertmanager_config : Result (Resource Contents)
  pub alertmanager_rbac_proxy_secret : Result (Resource Contents)
  pub alertmanager_cluster_role : Result (Resource B)
  pub alertmanager_cluster_role_binding : Result (Resource (BindingBody B))
  pub alertmanager_service_account : Result (Resource B)
  pub alertmanager_proxy_secret : Result (Resource Contents)
  pub alertmanager_service : Result (Resource (ServiceBody B))
  pub alertmanager_trusted_ca_bundle : Result (Resource Contents)
  pub hash_trusted_ca : Resource Contents → String → Result (Resource Contents)
  pub alertmanager_main : String → Option (Resource Contents) → Result (Resource (ReplicatedBody B))
  pub alertmanager_service_monitor : Result (Resource B)

module _ {S B : Type 0} (c : Client S B) (f : AlertmanagerFactory B) where
  unfoldable pub run_alertmanager : M S (Unit {0})
  run_alertmanager = do
    r ← wrapped "initializing Alertmanager Route failed" (give f.alertmanager_route)
    wrapped "creating Alertmanager Route failed" (create_route_if_not_exists c r)
    host ←
        wrapped "waiting for Alertmanager Route to become ready failed" (wait_for_route_ready c r)
    s ← wrapped "initializing Alertmanager configuration Secret failed" (give f.alertmanager_config)
    wrapped "creating Alertmanager configuration Secret failed" (create_if_not_exist_secret c s)
    rs ←
        wrapped "initializing Alertmanager RBAC proxy Secret failed"
          (give f.alertmanager_rbac_proxy_secret)
    wrapped "creating Alertmanager RBAC proxy Secret failed" (create_if_not_exist_secret c rs)
    cr ← wrapped "initializing Alertmanager ClusterRole failed" (give f.alertmanager_cluster_role)
    wrapped "reconciling Alertmanager ClusterRole failed" (create_or_update_cluster_role c cr)
    crb ←
        wrapped "initializing Alertmanager ClusterRoleBinding failed"
          (give f.alertmanager_cluster_role_binding)
    wrapped "reconciling Alertmanager ClusterRoleBinding failed"
        (create_or_update_cluster_role_binding c crb)
    sa ←
        wrapped "initializing Alertmanager ServiceAccount failed"
          (give f.alertmanager_service_account)
    wrapped "reconciling Alertmanager ServiceAccount failed" (create_or_update_service_account c sa)
    ps ← wrapped "initializing Alertmanager proxy Secret failed" (give f.alertmanager_proxy_secret)
    wrapped "creating Alertmanager proxy Secret failed" (create_if_not_exist_secret c ps)
    svc ← wrapped "initializing Alertmanager Service failed" (give f.alertmanager_service)
    wrapped "reconciling Alertmanager Service failed" (create_or_update_service c svc)
    trusted_ca ←
        wrapped "initializing Alertmanager CA bundle ConfigMap failed"
          (give f.alertmanager_trusted_ca_bundle)
    trusted_ca ←
        wrapped "syncing Thanos Querier trusted CA bundle ConfigMap failed"
          (sync_trusted_ca_bundle c f.hash_trusted_ca "alertmanager" trusted_ca)
    a ←
        wrapped "initializing Alertmanager object failed"
          (give (f.alertmanager_main host (some trusted_ca)))
    wrapped "reconciling Alertmanager object failed" (create_or_update_alertmanager c a)
    wrapped "waiting for Alertmanager object changes failed" (wait_for_alertmanager c a)
    smam ←
        wrapped "initializing Alertmanager ServiceMonitor failed"
          (give f.alertmanager_service_monitor)
    wrapped "reconciling Alertmanager ServiceMonitor failed"
        (create_or_update_service_monitor c smam)
