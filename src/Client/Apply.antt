-- ===== src/Client/Apply.antt =====
-- The `CreateOrUpdate…` and `CreateIfNotExist…` functions of pkg/client/client.go that make no
-- further calls.
pub mod Laws
use cluster_monitoring_opera.Base.{
  String, ◌<>◌, Bool, true, false, ◌&&◌, not, List, [], ◌∷◌, ◌==◌, string_eq, if◌then◌else◌, Error,
  Result, ok, err, wrap, M, pure, fail, wrapped, ignore, attempt, ◌>>=◌, ◌>>◌,
}
use cluster_monitoring_opera.Client.{
  Labels, ObjectMeta, Resource, Contents, ServiceBody, BindingBody, ApiServiceBody, ReplicatedBody,
  RouteBody, Endpoint, Client,
}
use cluster_monitoring_opera.Client.Metadata.{merge_metadata}

module _ {S A : Type 0} (is_not_found : Error → Bool) where
  -- `if IsNotFound(err) { … }; if err != nil { return Wrap(err, …) }; …`
  abbrev pub on_get : {C : Type 0} → Result A → M S C → String → (A → M S C) → M S C
  on_get (ok existing) missing text found = found existing
  on_get (err e) missing text found = if is_not_found e then missing else fail (wrap e text)

module _ {S B : Type 0} (is_not_found : Error → Bool) (kind : String) (ep : Endpoint S B) where
  -- Get the object by the name of the desired one; create it if there is none; else do `found`.
  unfoldable pub create_or : Resource B → (Resource B → M S (Unit {0})) → M S (Unit {0})
  create_or o found = do
    existing ← attempt (ep.get o.meta.namespace o.meta.name)
    on_get is_not_found existing
        (wrapped ("creating " <> kind <> " object failed") (ignore (ep.create o)))
        ("retrieving " <> kind <> " object failed") found

  abbrev pub update : Resource B → M S (Unit {0})
  update required = wrapped ("updating " <> kind <> " object failed") (ignore (ep.update required))

  -- The body that most of the functions share, with what they change in the copy of the object.
  unfoldable pub create_or_update :
      (Resource B → Resource B → Resource B) → Resource B → M S (Unit {0})
  unfolding create_or
  create_or_update change o = create_or o λ existing. update (change o existing)

-- `required.ResourceVersion = existing.ResourceVersion`
abbrev pub at_version : {B : Type 0} → Resource B → Resource B → Resource B
at_version required existing = record required {
  meta = record required.meta { resource_version = existing.meta.resource_version };
}

module _ {S B : Type 0} (c : Client S B) where
  open c use {is_not_found, same}

  -- `mergeMetadata(&required.ObjectMeta, existing.ObjectMeta)`
  abbrev pub merged : {A : Type 0} → Resource A → Resource A → Resource A
  merged required existing = record required {
    meta = merge_metadata c.merge required.meta existing.meta;
  }

  abbrev pub merged_at_version : {A : Type 0} → Resource A → Resource A → Resource A
  merged_at_version required existing = at_version (merged required existing) existing

  unfoldable pub create_or_update_validating_webhook_configuration : Resource B → M S (Unit {0})
  unfolding create_or_update
  create_or_update_validating_webhook_configuration =
      create_or_update is_not_found "ValidatingWebhookConfiguration" c.validating_webhooks
        at_version

  unfoldable pub create_or_update_security_context_constraints : Resource B → M S (Unit {0})
  unfolding create_or_update
  create_or_update_security_context_constraints =
      create_or_update is_not_found "SecurityContextConstraints" c.security_context_constraints
        merged_at_version

  unfoldable pub create_or_update_prometheus : Resource (ReplicatedBody B) → M S (Unit {0})
  unfolding create_or_update
  create_or_update_prometheus =
      create_or_update is_not_found "Prometheus" c.prometheuses merged_at_version

  unfoldable pub create_or_update_prometheus_rule : Resource B → M S (Unit {0})
  unfolding create_or_update
  create_or_update_prometheus_rule =
      create_or_update is_not_found "PrometheusRule" c.prometheus_rules merged_at_version

  unfoldable pub create_or_update_alertmanager : Resource (ReplicatedBody B) → M S (Unit {0})
  unfolding create_or_update
  create_or_update_alertmanager =
      create_or_update is_not_found "Alertmanager" c.alertmanagers merged_at_version

  unfoldable pub create_or_update_thanos_ruler : Resource (ReplicatedBody B) → M S (Unit {0})
  unfolding create_or_update
  create_or_update_thanos_ruler =
      create_or_update is_not_found "Thanos Ruler" c.thanos_rulers merged_at_version

  unfoldable pub create_or_update_service_monitor : Resource B → M S (Unit {0})
  unfolding create_or_update
  create_or_update_service_monitor =
      create_or_update is_not_found "ServiceMonitor" c.service_monitors merged_at_version

  unfoldable pub create_or_update_secret : Resource Contents → M S (Unit {0})
  unfolding create_or_update
  create_or_update_secret = create_or_update is_not_found "Secret" c.secrets merged

  unfoldable pub create_or_update_config_map : Resource Contents → M S (Unit {0})
  unfolding create_or_update
  create_or_update_config_map = create_or_update is_not_found "ConfigMap" c.config_maps merged

  unfoldable pub create_or_update_config_map_list : List (Resource Contents) → M S (Unit {0})
  create_or_update_config_map_list [] = pure tt
  create_or_update_config_map_list (cm ∷ items) =
      create_or_update_config_map cm >> create_or_update_config_map_list items

  unfoldable pub create_or_update_role : Resource B → M S (Unit {0})
  unfolding create_or_update
  create_or_update_role = create_or_update is_not_found "Role" c.roles merged

  unfoldable pub create_or_update_cluster_role : Resource B → M S (Unit {0})
  unfolding create_or_update
  create_or_update_cluster_role = create_or_update is_not_found "ClusterRole" c.cluster_roles merged

  -- A CA bundle that the cluster has put into the existing object is kept.
  abbrev pub with_ca_bundle :
      Resource (ApiServiceBody B) → Resource (ApiServiceBody B) → Resource (ApiServiceBody B)
  with_ca_bundle required existing =
      let r = at_version required existing in
      if existing.body.ca_bundle == ""
      then r
      else record r { body = record r.body { ca_bundle = existing.body.ca_bundle } }

  unfoldable pub create_or_update_api_service : Resource (ApiServiceBody B) → M S (Unit {0})
  unfolding create_or_update
  create_or_update_api_service =
      create_or_update is_not_found "APIService" c.api_services with_ca_bundle

  abbrev pub service_type_cluster_ip : String
  service_type_cluster_ip = "ClusterIP"

  -- `required`, before its metadata is merged: an assigned cluster IP is kept.
  abbrev pub with_cluster_ip :
      Resource (ServiceBody B) → Resource (ServiceBody B) → Resource (ServiceBody B)
  with_cluster_ip svc existing =
      let r = at_version svc existing in
      if svc.body.type == service_type_cluster_ip
      then record r { body = record r.body { cluster_ip = existing.body.cluster_ip } }
      else r

  abbrev pub same_service : ServiceBody B → ServiceBody B → Bool
  same_service a b = a.type == b.type && a.cluster_ip == b.cluster_ip && same a.rest b.rest

  unfoldable pub create_or_update_service : Resource (ServiceBody B) → M S (Unit {0})
  unfolding create_or
  create_or_update_service svc = create_or is_not_found "Service" c.services svc λ existing.
      let required = with_cluster_ip svc existing in
      if same_service required.body existing.body
      then pure tt
      else update is_not_found "Service" c.services (merged required existing)

  abbrev pub same_binding : BindingBody B → BindingBody B → Bool
  same_binding a b = same a.role_ref b.role_ref && same a.subjects b.subjects

  unfoldable pub create_or_update_role_binding : Resource (BindingBody B) → M S (Unit {0})
  unfolding create_or
  create_or_update_role_binding rb =
      create_or is_not_found "RoleBinding" c.role_bindings rb λ existing.
        if same_binding rb.body existing.body
        then pure tt
        else update is_not_found "RoleBinding" c.role_bindings (merged rb existing)

  -- A role reference cannot be changed, so the binding is deleted and made anew.
  unfoldable pub create_or_update_cluster_role_binding : Resource (BindingBody B) → M S (Unit {0})
  unfolding create_or
  create_or_update_cluster_role_binding crb =
      create_or is_not_found "ClusterRoleBinding" c.cluster_role_bindings crb λ existing.
        if same_binding crb.body existing.body then pure tt else do
          wrapped "deleting ClusterRoleBinding object failed"
              (c.cluster_role_bindings.delete "" crb.meta.name)
          wrapped "updating ClusterRoleBinding object failed"
              (ignore (c.cluster_role_bindings.create (merged crb existing)))

  -- An existing ServiceAccount is left alone.
  unfoldable pub create_or_update_service_account : Resource B → M S (Unit {0})
  unfolding create_or
  create_or_update_service_account sa =
      create_or is_not_found "ServiceAccount" c.service_accounts sa λ _. pure tt

  unfoldable pub create_if_not_exist_secret : Resource Contents → M S (Unit {0})
  unfolding create_or
  create_if_not_exist_secret s = create_or is_not_found "Secret" c.secrets s λ _. pure tt

  unfoldable pub create_if_not_exist_config_map : Resource Contents → M S (Resource Contents)
  create_if_not_exist_config_map cm = do
    existing ← attempt (c.config_maps.get cm.meta.namespace cm.meta.name)
    on_get is_not_found existing
        (wrapped "creating ConfigMap object failed" (c.config_maps.create cm))
        "retrieving ConfigMap object failed" pure

  abbrev pub missing_route : Resource RouteBody → Result (Resource RouteBody) → M S (Unit {0})
  missing_route r (ok existing) = pure tt
  missing_route r (err e) =
      if is_not_found e
      then wrapped "creating Route object failed" (ignore (c.routes.create r))
      else pure tt

  -- Any error of the read but "not found" is passed over.
  unfoldable pub create_route_if_not_exists : Resource RouteBody → M S (Unit {0})
  create_route_if_not_exists r = do
    existing ← attempt (c.routes.get r.meta.namespace r.meta.name)
    missing_route r existing
