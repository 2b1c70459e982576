-- ===== src/Tasks/ConfigSharing.antt =====
-- pkg/tasks/configsharing.go: the ConfigMap that tells the console the URLs of the stack.
use cluster_monitoring_opera.Base.{◌<>◌, Result, M, give, wrapped, ◌>>=◌}
use cluster_monitoring_opera.Client.{Resource, Contents, RouteBody, Client}
use cluster_monitoring_opera.Client.Apply.{create_or_update_config_map}
use cluster_monitoring_opera.Client.Ready.{Url, get_route_url}
use cluster_monitoring_opera.Client.Wait.{full_name}

-- The factory's methods that the task calls.
pub record ConfigSharingFactory : Type 0 where
  pub prometheus_k8s_route : Result (Resource RouteBody)
  pub alertmanager_route : Result (Resource RouteBody)
  pub grafana_route : Result (Resource RouteBody)
  pub thanos_querier_route : Result (Resource RouteBody)
  pub sharing_config : Url → Url → Url → Url → Resource Contents

module _ {S B : Type 0} (c : Client S B) (f : ConfigSharingFactory) where
  unfoldable pub run_config_sharing : M S (Unit {0})
  run_config_sharing = do
    prom_route ← wrapped "initializing Prometheus Route failed" (give f.prometheus_k8s_route)
    prom_url ← wrapped "failed to retrieve Prometheus host" (get_route_url c prom_route)
    am_route ← wrapped "initializing Alertmanager Route failed" (give f.alertmanager_route)
    am_url ← wrapped "failed to retrieve Alertmanager host" (get_route_url c am_route)
    grafana_route ← wrapped "initializing Grafana Route failed" (give f.grafana_route)
    grafana_url ← wrapped "failed to retrieve Grafana host" (get_route_url c grafana_route)
    thanos_route ← wrapped "initializing Thanos Querier Route failed" (give f.thanos_querier_route)
    thanos_url ← wrapped "failed to retrieve Thanos Querier host" (get_route_url c thanos_route)
    let cm : Resource Contents = f.sharing_config prom_url am_url grafana_url thanos_url
    wrapped ("reconciling " <> full_name cm <> " Config ConfigMap failed")
        (create_or_update_config_map c cm)
