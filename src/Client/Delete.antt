-- ===== src/Client/Delete.antt =====
-- The `Delete…` functions of pkg/client/client.go that do not wait.
pub mod Laws
use cluster_monitoring_opera.Base.{
  String, ◌<>◌, Bool, true, false, List, [], ◌∷◌, if◌then◌else◌, Error, Result, ok, err, wrap, M,
  pure, fail, wrapped, attempt, ◌>>=◌, ◌>>◌,
}
use cluster_monitoring_opera.Client.{
  Resource, Contents, ServiceBody, BindingBody, RouteBody, DeploymentBody, DaemonSetBody, Endpoint,
  Client,
}

module _ {S B : Type 0} (c : Client S B) where
  open c use {is_not_found}

  -- `if IsNotFound(err) { return nil }; return err`
  abbrev pub unless_missing : Result (Unit {0}) → M S (Unit {0})
  unless_missing (ok u) = pure u
  unless_missing (err e) = if is_not_found e then pure tt else fail e

  -- Delete an object by its name; one that is gone already is no error.
  unfoldable pub delete_named : {A : Type 0} → Endpoint S A → String → String → M S (Unit {0})
  delete_named ep namespace name = do
    deleted ← attempt (ep.delete namespace name)
    unless_missing deleted

  unfoldable pub delete_object : {A : Type 0} → Endpoint S A → Resource A → M S (Unit {0})
  unfolding delete_named
  delete_object ep o = delete_named ep o.meta.namespace o.meta.name

  unfoldable pub delete_config_map : Resource Contents → M S (Unit {0})
  unfolding delete_object
  delete_config_map = delete_object c.config_maps

  unfoldable pub delete_validating_webhook : Resource B → M S (Unit {0})
  unfolding delete_object
  delete_validating_webhook = delete_object c.validating_webhooks

  unfoldable pub delete_deployment : Resource (DeploymentBody B) → M S (Unit {0})
  unfolding delete_object
  delete_deployment = delete_object c.deployments

  unfoldable pub delete_daemon_set : Resource (DaemonSetBody B) → M S (Unit {0})
  unfolding delete_object
  delete_daemon_set = delete_object c.daemon_sets

  unfoldable pub delete_service_account : Resource B → M S (Unit {0})
  unfolding delete_object
  delete_service_account = delete_object c.service_accounts

  unfoldable pub delete_cluster_role : Resource B → M S (Unit {0})
  unfolding delete_object
  delete_cluster_role = delete_object c.cluster_roles

  unfoldable pub delete_cluster_role_binding : Resource (BindingBody B) → M S (Unit {0})
  unfolding delete_object
  delete_cluster_role_binding = delete_object c.cluster_role_bindings

  unfoldable pub delete_service : Resource (ServiceBody B) → M S (Unit {0})
  unfolding delete_object
  delete_service = delete_object c.services

  unfoldable pub delete_route : Resource RouteBody → M S (Unit {0})
  unfolding delete_object
  delete_route = delete_object c.routes

  unfoldable pub delete_prometheus_rule : Resource B → M S (Unit {0})
  unfolding delete_object
  delete_prometheus_rule = delete_object c.prometheus_rules

  unfoldable pub delete_secret : Resource Contents → M S (Unit {0})
  unfolding delete_object
  delete_secret = delete_object c.secrets

  unfoldable pub delete_role_binding : Resource (BindingBody B) → M S (Unit {0})
  unfolding delete_object
  delete_role_binding = delete_object c.role_bindings

  unfoldable pub delete_role : Resource B → M S (Unit {0})
  unfolding delete_object
  delete_role = delete_object c.roles

  unfoldable pub delete_service_monitor_by_namespace_and_name : String → String → M S (Unit {0})
  unfolding delete_named
  delete_service_monitor_by_namespace_and_name namespace name =
      wrapped "deleting ServiceMonitor object failed"
        (delete_named c.service_monitors namespace name)

  unfoldable pub delete_service_monitor : Resource B → M S (Unit {0})
  unfolding delete_service_monitor_by_namespace_and_name
  delete_service_monitor sm =
      delete_service_monitor_by_namespace_and_name sm.meta.namespace sm.meta.name

  abbrev pub if_found : String → Result (Resource B) → M S (Unit {0})
  if_found name (ok _) = wrapped "deleting ConfigMap object failed" (c.namespaces.delete "" name)
  if_found name (err e) =
      if is_not_found e then pure tt else fail (wrap e "retrieving Namespace object failed")

  -- `DeleteIfExists`, of a namespace.
  unfoldable pub delete_if_exists : String → M S (Unit {0})
  delete_if_exists name = do existing ← attempt (c.namespaces.get "" name); if_found name existing

  -- The loops of `DeleteHashedConfigMap` and `DeleteHashedSecret`, which stop at the first error.
  unfoldable pub delete_all :
      {A : Type 0} → Endpoint S A → String → String → List (Resource A) → M S (Unit {0})
  delete_all ep text namespace [] = pure tt
  delete_all ep text namespace (o ∷ os) =
      wrapped (text <> namespace <> "/" <> o.meta.name) (ep.delete namespace o.meta.name)
      >> delete_all ep text namespace os

  abbrev pub hash_selector : String → String → String
  hash_selector prefix new_hash =
      "monitoring.openshift.io/name=" <> prefix <> ",monitoring.openshift.io/hash!=" <> new_hash

  unfoldable pub delete_hashed_config_map : String → String → String → M S (Unit {0})
  unfolding delete_all
  delete_hashed_config_map namespace prefix new_hash = do
    let ls = hash_selector prefix new_hash
    items ←
        wrapped
          ("error listing configmaps in namespace " <> namespace <> " with label selector " <> ls)
          (c.config_maps.list namespace ls)
    delete_all c.config_maps "error deleting configmap: " namespace items

  unfoldable pub delete_hashed_secret : String → String → String → M S (Unit {0})
  unfolding delete_all
  delete_hashed_secret namespace prefix new_hash = do
    let ls = hash_selector prefix new_hash
    items ←
        wrapped
          ("error listing secrets in namespace " <> namespace <> " with label selector " <> ls)
          (c.secrets.list namespace ls)
    delete_all c.secrets "error deleting secret: " namespace items
