-- ===== src/Tasks/Grafana.antt =====
-- pkg/tasks/grafana.go: the task of Grafana, as the sequence of its
-- calls, which stops at the first error.
use cluster_monitoring_opera.Base.{
  String, Option, some, List, Result, M, give, wrapped, ◌>>=◌, ◌>>◌,
}
use cluster_monitoring_opera.Client.{
  Resource, Contents, DeploymentBody, ServiceBody, BindingBody, RouteBody, Client,
}
use cluster_monitoring_opera.Client.Apply.{
  create_if_not_exist_secret, create_or_update_cluster_role, create_or_update_cluster_role_binding,
  create_or_update_config_map, create_or_update_config_map_list, create_or_update_secret,
  create_or_update_service, create_or_update_service_account, create_or_update_service_monitor,
  create_route_if_not_exists,
}
use cluster_monitoring_opera.Client.Ready.{wait_for_route_ready}
use cluster_monitoring_opera.Client.Rollout.{create_or_update_deployment}
use cluster_monitoring_opera.Tasks.CaBundle.{sync_trusted_ca_bundle}

-- The factory's methods that the task calls.
pub record GrafanaFactory (B : Type 0) : Type 0 where
  pub grafana_cluster_role : Result (Resource B)
  pub grafana_cluster_role_binding : Result (Resource (BindingBody B))
  pub grafana_route : Result (Resource RouteBody)
  pub grafana_proxy_secret : Result (Resource Contents)
  pub grafana_config : Result (Resource Contents)
  pub grafana_datasources : Result (Resource Contents)
  pub grafana_dashboard_definitions : Result (List (Resource Contents))
  pub grafana_dashboard_sources : Result (Resource Contents)
  pub grafana_service_account : Result (Resource B)
  pub grafana_service : Result (Resource (ServiceBody B))
  pub grafana_trusted_ca_bundle : Result (Resource Contents)
  pub hash_trusted_ca : Resource Contents → String → Result (Resource Contents)
  pub grafana_deployment : Option (Resource Contents) → Result (Resource (DeploymentBody B))
  pub grafana_service_monitor : Result (Resource B)

module _ {S B : Type 0} (c : Client S B) (f : GrafanaFactory B) where
  unfoldable pub run_grafana : M S (Unit {0})
  run_grafana = do
    cr ← wrapped "initializing Grafana ClusterRole failed" (give f.grafana_cluster_role)
    wrapped "reconciling Grafana ClusterRole failed" (create_or_update_cluster_role c cr)
    crb ←
        wrapped "initializing Grafana ClusterRoleBinding failed"
          (give f.grafana_cluster_role_binding)
    wrapped "reconciling Grafana ClusterRoleBinding failed"
        (create_or_update_cluster_role_binding c crb)
    r ← wrapped "initializing Grafana Route failed" (give f.grafana_route)
    wrapped "creating Grafana Route failed" (create_route_if_not_exists c r)
    host ← wrapped "waiting for Grafana Route to become ready failed" (wait_for_route_ready c r)
    ps ← wrapped "initializing Grafana proxy Secret failed" (give f.grafana_proxy_secret)
    wrapped "creating Grafana proxy Secret failed" (create_if_not_exist_secret c ps)
    smc ← wrapped "initializing Grafana Config Secret failed" (give f.grafana_config)
    wrapped "reconciling Grafana Config Secret failed" (create_or_update_secret c smc)
    sds ← wrapped "initializing Grafana Datasources Secret failed" (give f.grafana_datasources)
    wrapped "reconciling Grafana Datasources Secret failed" (create_if_not_exist_secret c sds)
    cmdds ←
        wrapped "initializing Grafana Dashboard Definitions ConfigMaps failed"
          (give f.grafana_dashboard_definitions)
    wrapped "reconciling Grafana Dashboard Definitions ConfigMaps failed"
        (create_or_update_config_map_list c cmdds)
    cmdbs ←
        wrapped "initializing Grafana Dashboard Sources ConfigMap failed"
          (give f.grafana_dashboard_sources)
    wrapped "reconciling Grafana Dashboard Sources ConfigMap failed"
        (create_or_update_config_map c cmdbs)
    sa ← wrapped "initializing Grafana ServiceAccount failed" (give f.grafana_service_account)
    wrapped "reconciling Grafana ServiceAccount failed" (create_or_update_service_account c sa)
    svc ← wrapped "initializing Grafana Service failed" (give f.grafana_service)
    wrapped "reconciling Grafana Service failed" (create_or_update_service c svc)
    trusted_ca ←
        wrapped "initializing Grafana CA bundle ConfigMap failed" (give f.grafana_trusted_ca_bundle)
    trusted_ca ←
        wrapped "syncing Grafana CA bundle ConfigMap failed"
          (sync_trusted_ca_bundle c f.hash_trusted_ca "grafana" trusted_ca)
    d ←
        wrapped "initializing Grafana Deployment failed"
          (give (f.grafana_deployment (some trusted_ca)))
    wrapped "reconciling Grafana Deployment failed" (create_or_update_deployment c d)
    sm ← wrapped "initializing Grafana ServiceMonitor failed" (give f.grafana_service_monitor)
    wrapped "reconciling Grafana ServiceMonitor failed" (create_or_update_service_monitor c sm)
