-- ===== src/Config/Laws.antt =====
-- What a configuration holds after its defaults, and what is loaded into it.
use cluster_monitoring_opera.Base.{
  String, true, false, Option, none, some, ◌≡◌, refl, ◌≢◌, ◌↔◌, ap, arith, string_eq, Result, ok,
  err,
}
use cluster_monitoring_opera.Config.{
  TelemeterClientConfig, ClusterMonitoringConfiguration, UserWorkloadConfiguration, Config,
  PrometheusK8sConfig,
}
use cluster_monitoring_opera.Config.Defaults.{
  value_or, with_retention, with_defaults, apply_defaults, no_prometheus, no_configuration,
  new_user_config_from_string,
}
use cluster_monitoring_opera.Config.Settings.{telemeter_enabled}

module _ {B : Type 0} where
  with_retention_idem :
      (p : PrometheusK8sConfig B) → with_retention (with_retention p) ≡ with_retention p
  unfolding with_retention
  with_retention_idem p = ground arith

  with_defaults_idem :
      (c : ClusterMonitoringConfiguration B) → with_defaults (with_defaults c) ≡ with_defaults c
  unfolding with_defaults value_or
  with_defaults_idem c =
      ap (λ p. record (with_defaults c) { prometheus_k8s_config = some p })
        (with_retention_idem (value_or no_prometheus c.prometheus_k8s_config))

  -- Applying the defaults a second time changes nothing: they only fill what is missing.
  pub apply_defaults_idem : (c : Config B) → apply_defaults (apply_defaults c) ≡ apply_defaults c
  unfolding apply_defaults value_or
  apply_defaults_idem c =
      ap (λ cmc. record (apply_defaults c) { cluster_monitoring = some cmc })
        (with_defaults_idem (value_or no_configuration c.cluster_monitoring))

  -- The user configuration of a text follows a nil pointer exactly if the text is not empty and is
  -- decoded to nil, as a document that is null is.
  pub new_user_config_from_string-eq-none :
      (decode : String → Result (Option (UserWorkloadConfiguration B))) (content : String)
      → (new_user_config_from_string decode content ≡ none)
        ↔ ((content ≢ "") × (decode content ≡ ok none))
  unfolding new_user_config_from_string
  new_user_config_from_string-eq-none decode content = go (decode content) refl
    where
      go :
          (r : Result (Option (UserWorkloadConfiguration B)))
          → decode content ≡ r
          → (new_user_config_from_string decode content ≡ none)
            ↔ ((content ≢ "") × (decode content ≡ ok none))
      go (err e) p = ground arith
      go (ok none) p = ground arith
      go (ok (some u)) p = ground arith

  -- The telemeter client is on exactly if it has a cluster ID and a token and is not switched off.
  pub telemeter_enabled-eq-true :
      (cfg : TelemeterClientConfig B)
      → (telemeter_enabled (some cfg) ≡ true)
        ↔ ((cfg.enabled ≢ some false) × (cfg.cluster_id ≢ "") × (cfg.token ≢ ""))
  unfolding telemeter_enabled
  telemeter_enabled-eq-true cfg = ground arith
