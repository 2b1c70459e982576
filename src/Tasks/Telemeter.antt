-- ===== src/Tasks/Telemeter.antt =====
-- pkg/tasks/telemeter.go: the task of the telemeter client, as the sequence of its
-- calls, which stops at the first error.
use cluster_monitoring_opera.Base.{
  Bool, ◌&&◌, ◌||◌, not, if◌then◌else◌, pure, ok, err, ◌<>◌, String, Option, none, some, List,
  Result, M, give, wrapped, ◌>>=◌, ◌>>◌,
}
use cluster_monitoring_opera.Config.{TelemeterClientConfig}
use cluster_monitoring_opera.Config.Settings.{telemeter_enabled}
use cluster_monitoring_opera.Client.{
  Resource, Contents, DeploymentBody, ServiceBody, BindingBody, Client,
}
use cluster_monitoring_opera.Client.Apply.{
  create_if_not_exist_config_map, create_or_update_cluster_role,
  create_or_update_cluster_role_binding, create_or_update_prometheus_rule, create_or_update_secret,
  create_or_update_service, create_or_update_service_account, create_or_update_service_monitor,
}
use cluster_monitoring_opera.Client.Delete.{
  delete_cluster_role, delete_cluster_role_binding, delete_config_map, delete_deployment,
  delete_secret, delete_service, delete_service_account, delete_service_monitor,
}
use cluster_monitoring_opera.Client.Rollout.{create_or_update_deployment}
use cluster_monitoring_opera.Tasks.CaBundle.{sync_trusted_ca_bundle}

-- The factory's methods that the task calls.
pub record TelemeterFactory (B : Type 0) : Type 0 where
  pub telemeter_client_serving_certs_ca_bundle : Result (Resource Contents)
  pub telemeter_client_service_account : Result (Resource B)
  pub telemeter_client_cluster_role : Result (Resource B)
  pub telemeter_client_cluster_role_binding : Result (Resource (BindingBody B))
  pub telemeter_client_cluster_role_binding_view : Result (Resource (BindingBody B))
  pub telemeter_client_service : Result (Resource (ServiceBody B))
  pub telemeter_client_secret : Result (Resource Contents)
  pub telemeter_trusted_ca_bundle : Result (Resource Contents)
  pub hash_trusted_ca : Resource Contents → String → Result (Resource Contents)
  pub telemeter_client_deployment :
      Option (Resource Contents) → Result (Resource (DeploymentBody B))
  pub new_telemeter_prometheus_rec_rule_from_string : String → Result (Resource B)
  pub telemeter_client_service_monitor : Result (Resource B)

-- `fmt.Sprintf("count(%s)", expr)`; an error of the selectors is dropped, and gives the empty text.
abbrev pub counted : Result String → Result String
counted (err e) = ok ""
counted (ok expr) = ok ("count(" <> expr <> ")")

unfoldable pub generate_telemeter_whitelist_rec :
    (List String → Result String) → List String → Result String
generate_telemeter_whitelist_rec selectors matches = counted (selectors matches)

module _ {S B : Type 0} (c : Client S B) (f : TelemeterFactory B) where
  -- With `promqlgen.GroupLabelSelectors` and the matches of the configuration.
  unfoldable pub create_telemeter_client :
      (List String → Result String) → List String → M S (Unit {0})
  create_telemeter_client selectors matches = do
    cacm ←
        wrapped "initializing Telemeter Client serving certs CA Bundle ConfigMap failed"
          (give f.telemeter_client_serving_certs_ca_bundle)
    existing ←
        wrapped "creating Telemeter Client serving certs CA Bundle ConfigMap failed"
          (create_if_not_exist_config_map c cacm)
    sa ←
        wrapped "initializing Telemeter client Service failed"
          (give f.telemeter_client_service_account)
    wrapped "reconciling Telemeter client ServiceAccount failed"
        (create_or_update_service_account c sa)
    cr ←
        wrapped "initializing Telemeter client ClusterRole failed"
          (give f.telemeter_client_cluster_role)
    wrapped "reconciling Telemeter client ClusterRole failed" (create_or_update_cluster_role c cr)
    crb ←
        wrapped "initializing Telemeter client ClusterRoleBinding failed"
          (give f.telemeter_client_cluster_role_binding)
    wrapped "reconciling Telemeter client ClusterRoleBinding failed"
        (create_or_update_cluster_role_binding c crb)
    crb ←
        wrapped "initializing Telemeter client cluster monitoring view ClusterRoleBinding failed"
          (give f.telemeter_client_cluster_role_binding_view)
    wrapped "reconciling Telemeter client cluster monitoring view ClusterRoleBinding failed"
        (create_or_update_cluster_role_binding c crb)
    svc ← wrapped "initializing Telemeter client Service failed" (give f.telemeter_client_service)
    wrapped "reconciling Telemeter client Service failed" (create_or_update_service c svc)
    s ← wrapped "initializing Telemeter client Secret failed" (give f.telemeter_client_secret)
    wrapped "reconciling Telemeter client Secret failed" (create_or_update_secret c s)
    trusted_ca ←
        wrapped "initializing Telemeter client trusted CA bundle ConfigMap failed"
          (give f.telemeter_trusted_ca_bundle)
    trusted_ca ←
        wrapped "syncing Telemeter client CA bundle ConfigMap failed"
          (sync_trusted_ca_bundle c f.hash_trusted_ca "telemeter" trusted_ca)
    dep ←
        wrapped "initializing Telemeter client Deployment failed"
          (give (f.telemeter_client_deployment (some trusted_ca)))
    wrapped "reconciling Telemeter client Deployment failed" (create_or_update_deployment c dep)
    rec ←
        wrapped "generating Telemeter client Prometheus Rule failed"
          (give (generate_telemeter_whitelist_rec selectors matches))
    rule ←
        wrapped "initializing Telemeter client Prometheus Rule failed"
          (give (f.new_telemeter_prometheus_rec_rule_from_string rec))
    wrapped "reconciling Telemeter client Prometheus Rule failed"
        (create_or_update_prometheus_rule c rule)
    sm ←
        wrapped "initializing Telemeter client ServiceMonitor failed"
          (give f.telemeter_client_service_monitor)
    wrapped "reconciling Telemeter client ServiceMonitor failed"
        (create_or_update_service_monitor c sm)

  unfoldable pub destroy_telemeter_client : M S (Unit {0})
  destroy_telemeter_client = do
    dep ←
        wrapped "initializing Telemeter client Deployment failed"
          (give (f.telemeter_client_deployment none))
    wrapped "deleting Telemeter client Deployment failed" (delete_deployment c dep)
    s ← wrapped "initializing Telemeter client Secret failed" (give f.telemeter_client_secret)
    wrapped "deleting Telemeter client Secret failed" (delete_secret c s)
    svc ← wrapped "initializing Telemeter client Service failed" (give f.telemeter_client_service)
    wrapped "deleting Telemeter client Service failed" (delete_service c svc)
    crb ←
        wrapped "initializing Telemeter client ClusterRoleBinding failed"
          (give f.telemeter_client_cluster_role_binding)
    wrapped "deleting Telemeter client ClusterRoleBinding failed"
        (delete_cluster_role_binding c crb)
    cr ←
        wrapped "initializing Telemeter client ClusterRole failed"
          (give f.telemeter_client_cluster_role)
    wrapped "deleting Telemeter client ClusterRole failed" (delete_cluster_role c cr)
    sa ←
        wrapped "initializing Telemeter client Service failed"
          (give f.telemeter_client_service_account)
    wrapped "deleting Telemeter client ServiceAccount failed" (delete_service_account c sa)
    sm ←
        wrapped "initializing Telemeter client ServiceMonitor failed"
          (give f.telemeter_client_service_monitor)
    wrapped "deleting Telemeter client ServiceMonitor failed" (delete_service_monitor c sm)
    cacm ←
        wrapped "initializing Telemeter Client serving certs CA Bundle ConfigMap failed"
          (give f.telemeter_client_serving_certs_ca_bundle)
    wrapped "creating Telemeter Client serving certs CA Bundle ConfigMap failed"
        (delete_config_map c cacm)

  -- Two tests that the code makes one after the other; where both are false it does nothing.
  unfoldable pub run_telemeter_client :
      (List String → Result String)
      → List String
      → Option (TelemeterClientConfig B)
      → Bool
      → M S (Unit {0})
  run_telemeter_client selectors matches cfg remote_write =
      if telemeter_enabled cfg && not remote_write
      then create_telemeter_client selectors matches
      else if not (telemeter_enabled cfg) || telemeter_enabled cfg && remote_write
      then destroy_telemeter_client
      else pure tt
