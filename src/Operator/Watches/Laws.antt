-- ===== src/Operator/Watches/Laws.antt =====
-- What the informers put into the queue, and which objects they hear of.
use cluster_monitoring_opera.Base.{
  ℕ, zero, String, Bool, true, Option, none, some, List, [], ◌∷◌, length, select, Some, Some-map,
  length-select, string_eq, if◌then◌else◌, ◌&&◌, ◌<>◌, Result, ok, err, false, ◌==◌, ◌||◌, ◌⊎◌, ◌≢◌,
  sym, ◌∙◌, ◌≡◌, inl, inr, ◌<◌, refl, ap, arith,
}
use cluster_monitoring_opera.Operator.{Operator}
use cluster_monitoring_opera.Operator.Events.{
  cmo_config_map, uwm_config_map, triggers, enqueue, handle_event, api_authentication_config_map,
  kubelet_serving_ca_config_map, prometheus_adapter_tls_secret, etcd_client_ca_config_map,
  telemeter_ca_bundle_config_map, alertmanager_ca_bundle_config_map, grpc_tls,
}
use cluster_monitoring_opera.Operator.Events.Laws.{add_times, is_trigger}
use cluster_monitoring_opera.Operator.Watches.{
  Kind, secret, config_map, Change, updated, kind_eq, Informer, Object, key_func, hears, deliver_to,
  deliver, cmap_inf, informers,
}

-- The cases of the switch in `handleEvent`.
data Case : Type 0 where
  cmo : Case
  api_authentication : Case
  kubelet_serving_ca : Case
  prometheus_adapter_tls : Case
  etcd_client_ca : Case
  telemeter_ca_bundle : Case
  alertmanager_ca_bundle : Case
  grpc : Case
  uwm : Case

kind_eq_refl : (k : Kind) → kind_eq k k ≡ true
unfolding kind_eq
kind_eq_refl secret = refl
kind_eq_refl config_map = refl

or_true : (a b : Bool) → (a || b) ≡ true → (a ≡ true) ⊎ (b ≡ true)
or_true true b h = inl refl
or_true false b h = inr h

eq_true : (x y : String) → (x == y) ≡ true → y ≡ x
eq_true x y h = ground arith

-- An informer for objects of this kind and namespace.
abbrev Watches : Object → Informer → Type 0
Watches obj i = (i.kind ≡ obj.kind) × (i.namespace ≡ obj.namespace)

module _ {S B : Type 0} (o : Operator S B) where
  -- The object that has the key of a case.
  unfoldable object : Case → Object
  object cmo = record { kind = config_map; namespace = o.namespace; name = o.config_map_name }
  object api_authentication = record {
    kind = config_map;
    namespace = "kube-system";
    name = "extension-apiserver-authentication";
  }
  object kubelet_serving_ca = record {
    kind = config_map;
    namespace = "openshift-config-managed";
    name = "kubelet-serving-ca";
  }
  object prometheus_adapter_tls = record {
    kind = secret;
    namespace = "openshift-monitoring";
    name = "prometheus-adapter-tls";
  }
  object etcd_client_ca = record {
    kind = config_map;
    namespace = "openshift-config";
    name = "etcd-metrics-serving-ca";
  }
  object telemeter_ca_bundle = record {
    kind = config_map;
    namespace = "openshift-monitoring";
    name = "telemeter-trusted-ca-bundle";
  }
  object alertmanager_ca_bundle = record {
    kind = config_map;
    namespace = "openshift-monitoring";
    name = "alertmanager-trusted-ca-bundle";
  }
  object grpc = record { kind = secret; namespace = "openshift-monitoring"; name = "grpc-tls" }
  object uwm = record {
    kind = config_map;
    namespace = o.namespace_user_workload;
    name = o.user_workload_config_map_name;
  }

  handle_event-is_trigger :
      (k : Option String) (s : S)
      → handle_event o k s ≡ (if is_trigger o k then enqueue o (cmo_config_map o) s else s)
  unfolding handle_event
  handle_event-is_trigger none s = refl
  handle_event-is_trigger (some k) s = refl

  triggers-object : (c : Case) → triggers o ((object c).namespace <> "/" <> (object c).name) ≡ true
  unfolding triggers object
  triggers-object cmo = ground arith
  triggers-object api_authentication = ground arith
  triggers-object kubelet_serving_ca = ground arith
  triggers-object prometheus_adapter_tls = ground arith
  triggers-object etcd_client_ca = ground arith
  triggers-object telemeter_ca_bundle = ground arith
  triggers-object alertmanager_ca_bundle = ground arith
  triggers-object grpc = ground arith
  triggers-object uwm = ground arith

  -- The key of a namespaced object.
  abbrev meta_key : Object → String
  meta_key obj = obj.namespace <> "/" <> obj.name

  -- A key that triggers an update is that of a case.
  case_of : (key : String) → triggers o key ≡ true → (c : Case) × (meta_key (object c) ≡ key)
  unfolding triggers object
  case_of key h =
      let b₀ : Bool = key == cmo_config_map o in
      let b₁ : Bool = b₀ || key == api_authentication_config_map in
      let b₂ : Bool = b₁ || key == kubelet_serving_ca_config_map in
      let b₃ : Bool = b₂ || key == prometheus_adapter_tls_secret in
      let b₄ : Bool = b₃ || key == etcd_client_ca_config_map in
      let b₅ : Bool = b₄ || key == telemeter_ca_bundle_config_map in
      let b₆ : Bool = b₅ || key == alertmanager_ca_bundle_config_map in
      let b₇ : Bool = b₆ || key == grpc_tls in
      elim (or_true b₇ (key == uwm_config_map o) h) [
        | inr e ↦ (uwm, eq_true key (uwm_config_map o) e)
        | inl h ↦ elim (or_true b₆ (key == grpc_tls) h) [
          | inr e ↦ (grpc, eq_true key grpc_tls e)
          | inl h ↦ elim (or_true b₅ (key == alertmanager_ca_bundle_config_map) h) [
            | inr e ↦ (alertmanager_ca_bundle, eq_true key alertmanager_ca_bundle_config_map e)
            | inl h ↦ elim (or_true b₄ (key == telemeter_ca_bundle_config_map) h) [
              | inr e ↦ (telemeter_ca_bundle, eq_true key telemeter_ca_bundle_config_map e)
              | inl h ↦ elim (or_true b₃ (key == etcd_client_ca_config_map) h) [
                | inr e ↦ (etcd_client_ca, eq_true key etcd_client_ca_config_map e)
                | inl h ↦ elim (or_true b₂ (key == prometheus_adapter_tls_secret) h) [
                  | inr e ↦ (prometheus_adapter_tls, eq_true key prometheus_adapter_tls_secret e)
                  | inl h ↦ elim (or_true b₁ (key == kubelet_serving_ca_config_map) h) [
                    | inr e ↦ (kubelet_serving_ca, eq_true key kubelet_serving_ca_config_map e)
                    | inl h ↦ elim (or_true b₀ (key == api_authentication_config_map) h) [
                      | inr e ↦ (api_authentication, eq_true key api_authentication_config_map e)
                      | inl e ↦ (cmo, eq_true key (cmo_config_map o) e)
                    ]
                  ]
                ]
              ]
            ]
          ]
        ]
      ]

  module _ (meta_namespace_key : Object → Result String) where
    -- Whether a change of an object triggers an update at an informer.
    abbrev pub fires : Change → Object → Informer → Bool
    fires change obj i = hears i change obj && is_trigger o (key_func o meta_namespace_key obj)

    -- How many informers put the operator's key into the queue at a change of an object.
    abbrev pub deliveries : List Informer → Change → Object → ℕ
    deliveries is change obj = length (select (fires change obj) is)

    pub deliver_to-add_times :
        (is : List Informer) (change : Change) (obj : Object) (s : S)
        → deliver_to o meta_namespace_key is change obj s ≡ add_times o (deliveries is change obj) s
    unfolding deliver_to add_times
    deliver_to-add_times [] change obj s = refl
    deliver_to-add_times (i ∷ is) change obj s =
        rw (handle_event-is_trigger (key_func o meta_namespace_key obj) s) (
          ground (
            arith,
            deliver_to-add_times is change obj s,
            deliver_to-add_times is change obj (enqueue o (cmo_config_map o) s),
          ))

    module _ (in_monitoring : o.namespace ≡ "openshift-monitoring")
        (user_workload_set : o.namespace_user_workload ≢ "")
        (key_of : (obj : Object)
          → obj.namespace ≢ ""
          → meta_namespace_key obj ≡ ok (meta_key obj)) where
      namespace_set : (c : Case) → (object c).namespace ≢ ""
      unfolding object
      namespace_set cmo = λ e. let p : "openshift-monitoring" ≡ "" = sym in_monitoring ∙ e in cc
      namespace_set api_authentication = λ e. cc
      namespace_set kubelet_serving_ca = λ e. cc
      namespace_set prometheus_adapter_tls = λ e. cc
      namespace_set etcd_client_ca = λ e. cc
      namespace_set telemeter_ca_bundle = λ e. cc
      namespace_set alertmanager_ca_bundle = λ e. cc
      namespace_set grpc = λ e. cc
      namespace_set uwm = user_workload_set

      key_func-object :
          (c : Case) → key_func o meta_namespace_key (object c) ≡ some (meta_key (object c))
      unfolding key_func
      key_func-object c = ap found (key_of (object c) (namespace_set c))
        where
          found : Result String → Option String
          found r = elim r [ ok k ↦ some k | err e ↦ none ]

      hears-object :
          (i : Informer) (c : Case)
          → i.kind ≡ (object c).kind
          → i.namespace ≡ (object c).namespace
          → hears i updated (object c) ≡ true
      unfolding hears
      hears-object i c h n = rw h (rw n (rw (kind_eq_refl (object c).kind) (ground arith)))

      fires-eq-true :
          (i : Informer) (c : Case)
          → i.kind ≡ (object c).kind
          → i.namespace ≡ (object c).namespace
          → fires updated (object c) i ≡ true
      fires-eq-true i c h n = rw (hears-object i c h n) (rw (key_func-object c) (triggers-object c))

      -- The informer that hears of the object of a case.
      heard : (c : Case) → Some (Watches (object c)) (cmap_inf o ∷ informers o)
      unfolding object
      heard cmo = inl (refl, refl)
      heard api_authentication = inr (inr (inr (inl (refl, refl))))
      heard kubelet_serving_ca = inr (inr (inr (inr (inl (refl, refl)))))
      heard prometheus_adapter_tls = inr (inl (refl, in_monitoring))
      heard etcd_client_ca = inr (inr (inr (inr (inr (inl (refl, refl))))))
      heard telemeter_ca_bundle = inl (refl, in_monitoring)
      heard alertmanager_ca_bundle = inl (refl, in_monitoring)
      heard grpc = inr (inl (refl, in_monitoring))
      heard uwm = inr (inr (inl (refl, refl)))

      deliver-case :
          (c : Case) (s : S)
          → (n : ℕ) × (zero < n)
            × (deliver o meta_namespace_key updated (object c) s ≡ add_times o n s)
      deliver-case c s = (
        deliveries (cmap_inf o ∷ informers o) updated (object c),
        length-select (fires updated (object c)) (cmap_inf o ∷ informers o) (
            Some-map {P = Watches (object c)} (λ i h. fires-eq-true i c h.0 h.1)
              (cmap_inf o ∷ informers o) (heard c)),
        deliver_to-add_times (cmap_inf o ∷ informers o) updated (object c) s,
      )

      pub deliver-add_times :
          (key : String)
          → triggers o key ≡ true
          → (s : S)
          → (obj : Object) × (meta_namespace_key obj ≡ ok key)
            × (n : ℕ) × (zero < n)
            × (deliver o meta_namespace_key updated obj s ≡ add_times o n s)
      deliver-add_times key h s =
          let (c, e) = case_of key h in
          let (n, p, q) = deliver-case c s in
          (object c, key_of (object c) (namespace_set c) ∙ ap (λ k. ok k) e, n, p, q)
