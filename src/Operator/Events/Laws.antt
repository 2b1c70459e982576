-- ===== src/Operator/Events/Laws.antt =====
-- What events put into the queue.
use cluster_monitoring_opera.Base.{
  ℕ, zero, suc, String, Bool, false, Option, none, some, List, [], ◌∷◌, length, ◌==◌, string_eq,
  ◌<>◌, ◌≡◌, refl, ◌≢◌, arith, select,
}
use cluster_monitoring_opera.Config.{Config}
use cluster_monitoring_opera.Operator.{Operator}
use cluster_monitoring_opera.Operator.Loads.{with_etcd, by_etcd_ca}
use cluster_monitoring_opera.Operator.Events.{
  cmo_config_map, uwm_config_map, triggers, enqueue, handle_event, api_authentication_config_map,
  kubelet_serving_ca_config_map, prometheus_adapter_tls_secret, etcd_client_ca_config_map,
  telemeter_ca_bundle_config_map, alertmanager_ca_bundle_config_map, grpc_tls,
}

-- The ConfigMap that `Config` reads.
abbrev pub etcd_ca_namespace : String
etcd_ca_namespace = "openshift-config"

abbrev pub etcd_ca_name : String
etcd_ca_name = "etcd-metric-serving-ca"

-- Its key.
abbrev pub etcd_ca : String
etcd_ca = etcd_ca_namespace <> "/" <> etcd_ca_name

etcd_ca_other :
    ((etcd_ca == api_authentication_config_map) ≡ false)
    × ((etcd_ca == kubelet_serving_ca_config_map) ≡ false)
    × ((etcd_ca == prometheus_adapter_tls_secret) ≡ false)
    × ((etcd_ca == etcd_client_ca_config_map) ≡ false)
    × ((etcd_ca == telemeter_ca_bundle_config_map) ≡ false)
    × ((etcd_ca == alertmanager_ca_bundle_config_map) ≡ false)
    × ((etcd_ca == grpc_tls) ≡ false)
unfolding string_eq
etcd_ca_other = (refl, refl, refl, refl, refl, refl, refl)

module _ {S B : Type 0} (o : Operator S B) where
  -- The handler at each of a sequence of events.
  unfoldable pub handle_events : List (Option String) → S → S
  handle_events [] s = s
  handle_events (event ∷ events) s = handle_events events (handle_event o event s)

  -- The operator's own key, added so many times.
  unfoldable pub add_times : ℕ → S → S
  add_times zero s = s
  add_times (suc n) s = add_times n (enqueue o (cmo_config_map o) s)

  abbrev pub is_trigger : Option String → Bool
  is_trigger none = false
  is_trigger (some key) = triggers o key

  -- Whatever events come, the queue gets the key of the operator's ConfigMap and no other, once for
  -- each event whose object triggers an update.
  pub handle_events-add_times :
      (events : List (Option String)) (s : S)
      → handle_events events s ≡ add_times (length (select is_trigger events)) s
  unfolding handle_events add_times handle_event
  handle_events-add_times [] s = refl
  handle_events-add_times (none ∷ events) s = handle_events-add_times events s
  handle_events-add_times (some key ∷ events) s = ground (
    arith,
    handle_events-add_times events s,
    handle_events-add_times events (enqueue o (cmo_config_map o) s),
  )

  pub handle_event-etcd_ca :
      (c : Config B) (s : S)
      → cmo_config_map o ≢ etcd_ca
      → uwm_config_map o ≢ etcd_ca
      → (let (read, s') = o.get_config_map etcd_ca_namespace etcd_ca_name s in
          with_etcd o c s ≡ by_etcd_ca o c read s')
        × (handle_event o (some etcd_ca) s ≡ s)
  unfolding handle_event triggers with_etcd
  handle_event-etcd_ca c s p q =
      let (x₁, x₂, x₃, x₄, x₅, x₆, x₇) = etcd_ca_other in
      (refl, rw x₁ (rw x₂ (rw x₃ (rw x₄ (rw x₅ (rw x₆ (rw x₇ (ground arith))))))))
