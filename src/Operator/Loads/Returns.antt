-- ===== src/Operator/Loads/Returns.antt =====
-- When `Config` returns: it follows a nil pointer only where the user's configuration is null.
use cluster_monitoring_opera.Base.{
  String, Bool, true, false, Option, none, some, refl, ◌≢◌, ◌==◌, string_eq, if◌then◌else◌, ◌||◌,
  Result, ok, err, or_wrap, attempt,
}
use cluster_monitoring_opera.Base.Dict
use cluster_monitoring_opera.Base.Dict.{Dict}
use cluster_monitoring_opera.Client.{Resource, Contents}
use cluster_monitoring_opera.Config.{
  ClusterMonitoringConfiguration, UserWorkloadConfiguration, Config,
}
use cluster_monitoring_opera.Config.Defaults.{
  new_default_config, new_default_user_workload_monitoring_config, new_config, of_decoded,
  of_decoded_user, new_config_from_string, new_user_config_from_string,
}
use cluster_monitoring_opera.Config.Settings.{telemeter, change_cmc}
use cluster_monitoring_opera.Config.Loading.{
  deref, load_cluster_id, load_token, load_proxy, load_platform,
}
use cluster_monitoring_opera.Operator.{Operator}
use cluster_monitoring_opera.Operator.Loads.{
  of_user_content, of_user_config_map, of_content, of_store, load_user_workload_config, load_config,
  enable_etcd, by_etcd_secret, by_etcd_ca, with_etcd, with_telemetry, with_cluster, with_user,
  by_loaded, config,
}
use cluster_monitoring_opera.Operator.Loads.Total.{
  IsSome, HasDefaults, deref-Gives, if-Gives, apply_defaults-HasDefaults, enable_etcd-HasDefaults,
  telemeter_of, load_cluster_id-Gives, load_token-Gives, load_proxy-Gives, load_platform-Gives,
}
use cluster_monitoring_opera.Base.{
  M, ◌≡◌, ap, ◌>>=◌, GivesAt, >>=-GivesAt, Gives, pure-Gives, attempt-Gives, >>=-Gives,
}

-- A configuration that was loaded has its pointers set.
abbrev pub IsReady : {B : Type 0} → Result (Config B) → Type 0
IsReady (ok c) = HasDefaults c
IsReady (err e) = Unit

with_user_HasDefaults :
    {B : Type 0} (c : Config B) (u : Option (UserWorkloadConfiguration B))
    → HasDefaults c
    → HasDefaults (record c { user_workload = u })
with_user_HasDefaults c u d = record {
  images_set = d.images_set;
  cmc = d.cmc;
  cmc_set = d.cmc_set;
  all_set = d.all_set;
}

module _ {S B : Type 0} (o : Operator S B) where
  by_etcd_secret-Gives :
      (c : Config B)
      → HasDefaults c
      → (cm : Resource Contents) (r : Result (Resource Contents))
      → Gives (by_etcd_secret o c cm r) IsReady
  by_etcd_secret-Gives c d cm (err e) = pure-Gives _ _ d
  by_etcd_secret-Gives c d cm (ok s) =
      let (c', e, d') = enable_etcd-HasDefaults c d in
      if-Gives _ _ _ _
        (>>=-Gives (deref (change_cmc enable_etcd c)) _ HasDefaults _ (deref-Gives _ _ c' e d')
          λ x dx. pure-Gives _ _ dx)
        (pure-Gives _ _ d)

  by_etcd_ca-Gives :
      (c : Config B)
      → HasDefaults c
      → (r : Result (Resource Contents)) → Gives (by_etcd_ca o c r) IsReady
  by_etcd_ca-Gives c d (err e) = pure-Gives _ _ d
  by_etcd_ca-Gives c d (ok cm) =
      >>=-Gives (attempt (o.get_secret "openshift-config" "etcd-metric-client"))
        (by_etcd_secret o c cm) _ _ (attempt-Gives _) λ r _. by_etcd_secret-Gives c d cm r

  with_etcd-Gives : (c : Config B) → HasDefaults c → Gives (with_etcd o c) IsReady
  unfolding with_etcd
  with_etcd-Gives c d =
      >>=-Gives (attempt (o.get_config_map "openshift-config" "etcd-metric-serving-ca"))
        (by_etcd_ca o c) _ _ (attempt-Gives _) λ r _. by_etcd_ca-Gives c d r

  with_telemetry-Gives : (c : Config B) → HasDefaults c → Gives (with_telemetry o c) HasDefaults
  unfolding with_telemetry
  with_telemetry-Gives c d =
      let (t, e) = telemeter_of c d in
      >>=-Gives (deref (telemeter c)) _ (λ _. Unit {0}) _ (deref-Gives _ _ t e tt)
        λ t _.
          if-Gives (t.cluster_id == "" || t.token == "") _ _ _
            (>>=-Gives (load_cluster_id (o.cluster_version "version") c) _ _ _
              (load_cluster_id-Gives _ c d)
              λ p dp.
                >>=-Gives (load_token o.unmarshal o.pull_secret p.1) _ _ _
                  (load_token-Gives o.unmarshal p.1 dp o.pull_secret) λ q dq. pure-Gives _ _ dq)
            (pure-Gives _ _ d)

  with_cluster-Gives : (c : Config B) → HasDefaults c → Gives (with_cluster o c) IsReady
  unfolding with_cluster
  with_cluster-Gives c d = >>=-Gives (with_telemetry o c) _ _ _ (with_telemetry-Gives c d) λ c d.
      >>=-Gives (load_proxy (o.proxy "cluster") c) _ _ _ (load_proxy-Gives _ c d) λ p dp.
        >>=-Gives (load_platform (o.infrastructure "cluster") p.1) _ _ _
          (load_platform-Gives _ p.1 dp) λ q dq. with_etcd-Gives q.1 dq

  of_decoded-IsReady :
      (text : String) (r : Result (ClusterMonitoringConfiguration B))
      → IsReady (or_wrap text (of_decoded o.decode r))
  of_decoded-IsReady text (err e) = tt
  of_decoded-IsReady text (ok cmc) = with_user_HasDefaults _ _ (apply_defaults-HasDefaults _)

  new_config_from_string-IsReady :
      (text content : String) → IsReady (or_wrap text (new_config_from_string o.decode content))
  unfolding new_config_from_string new_config new_default_config
  new_config_from_string-IsReady text content = go (content == "")
    where
      go :
          (b : Bool)
          → IsReady
              (or_wrap text (if b then ok new_default_config else new_config o.decode content))
      go true = apply_defaults-HasDefaults _
      go false = of_decoded-IsReady text (o.decode content)

  of_content-IsReady : (content : Option String) → IsReady (of_content o content)
  of_content-IsReady none = tt
  of_content-IsReady (some content) = new_config_from_string-IsReady _ content

  of_store-IsReady : (r : Result (Option (Resource Contents))) → IsReady (of_store o r)
  unfolding new_default_config
  of_store-IsReady (err e) = tt
  of_store-IsReady (ok none) = apply_defaults-HasDefaults _
  of_store-IsReady (ok (some cmap)) = of_content-IsReady (Dict.lookup "config.yaml" cmap.body)

  -- No content of the user's ConfigMap, as a state has it, is decoded to a nil pointer. A YAML
  -- document that is null would be.
  abbrev pub NotNull : S → Type 0
  NotNull s =
      (cm : Resource Contents) (t : S) (content : String)
      → o.get_config_map o.namespace_user_workload o.user_workload_config_map_name s ≡ (ok cm, t)
      → Dict.lookup "config.yaml" cm.body ≡ some content
      → o.decode_user content ≢ ok none

  -- The state in which `Config` reads the user's ConfigMap, after the look-up of its own.
  abbrev pub NotNullAfter : String → S → Type 0
  NotNullAfter key s = NotNull (o.config_map_by_key key s).1

  new_user_config_from_string-IsSome :
      (content : String)
      → o.decode_user content ≢ ok none
      → IsSome (new_user_config_from_string o.decode_user content)
  unfolding new_user_config_from_string
  new_user_config_from_string-IsSome content = go (content == "") (o.decode_user content)
    where
      go :
          (b : Bool) (r : Result (Option (UserWorkloadConfiguration B)))
          → r ≢ ok none
          → IsSome (
              if b
              then some (ok new_default_user_workload_monitoring_config)
              else of_decoded_user o.decode_user r)
      go true r h = (_, refl)
      go false (err e) h = (_, refl)
      go false (ok none) h = absurd (h refl)
      go false (ok (some u)) h = (_, refl)

  of_user_content-Gives :
      (content : Option String)
      → ((c : String) → content ≡ some c → o.decode_user c ≢ ok none)
      → Gives (of_user_content o content) (λ _. Unit {0})
  of_user_content-Gives none h = pure-Gives _ _ tt
  of_user_content-Gives (some content) h =
      let (r, e) = new_user_config_from_string-IsSome content (h content refl) in
      >>=-Gives (deref (new_user_config_from_string o.decode_user content)) _ (λ _. Unit {0}) _
        (deref-Gives _ _ r e tt) λ r _. pure-Gives _ _ tt

  load_user_workload_config-GivesAt :
      (s : S) → NotNull s → GivesAt (load_user_workload_config o) (λ _. Unit {0}) s
  unfolding load_user_workload_config
  load_user_workload_config-GivesAt s h =
      >>=-GivesAt (attempt read) (of_user_config_map o) _ (read s).0 s (read s).1 refl
        (from_read (read s).0 (read s).1 refl)
    where
      read : M S (Resource Contents)
      read = o.get_config_map o.namespace_user_workload o.user_workload_config_map_name

      from_read :
          (r : Result (Resource Contents)) (t : S)
          → read s ≡ (r, t)
          → GivesAt (of_user_config_map o r) (λ _. Unit {0}) t
      from_read (err e) t p =
          if-Gives (o.is_not_found e) _ _ _ (pure-Gives _ _ tt) (pure-Gives _ _ tt) t
      from_read (ok cm) t p =
          of_user_content-Gives (Dict.lookup "config.yaml" cm.body) (λ c q. h cm t c p q) t

  with_user-Gives :
      (c : Config B)
      → HasDefaults c
      → (r : Result (UserWorkloadConfiguration B)) → Gives (with_user o c r) IsReady
  with_user-Gives c d (err e) = pure-Gives _ _ tt
  with_user-Gives c d (ok u) =
      with_cluster-Gives (record c { user_workload = some u }) (with_user_HasDefaults c (some u) d)

  by_loaded-GivesAt :
      (r : Result (Config B)) (s : S) → IsReady r → NotNull s → GivesAt (by_loaded o r) IsReady s
  by_loaded-GivesAt (err e) s d h = pure-Gives _ _ tt s
  by_loaded-GivesAt (ok c) s d h =
      let (_, _, _, _, (b, e)) = d.all_set in
      >>=-GivesAt (deref c.cluster_monitoring) _ _ d.cmc s s (ap (λ x. deref x s) d.cmc_set) (
        >>=-GivesAt (deref d.cmc.user_workload_enabled) _ _ b s s (ap (λ x. deref x s) e)
          (by_setting b))
    where
      by_setting :
          (b : Bool)
          → GivesAt
              (if b then (load_user_workload_config o >>= with_user o c) else with_cluster o c)
              IsReady
              s
      by_setting true =
          let (u, t, p, _) = load_user_workload_config-GivesAt s h in
          >>=-GivesAt (load_user_workload_config o) (with_user o c) IsReady u s t p
            (with_user-Gives c d u t)
      by_setting false = with_cluster-Gives c d s

  -- Where the user's ConfigMap, as `Config` finds it, holds nothing that is decoded to null: `Config`
  -- returns, whatever else the cluster holds, and a configuration that it returns has the pointers set
  -- that the operator follows.
  pub config-GivesAt :
      (key : String) (s : S) → NotNullAfter key s → GivesAt (config o key) IsReady s
  unfolding config load_config
  config-GivesAt key s h =
      let r = of_store o (o.config_map_by_key key s).0 in
      >>=-GivesAt (load_config o key) (by_loaded o) IsReady r s (o.config_map_by_key key s).1 refl (
        by_loaded-GivesAt r (o.config_map_by_key key s).1
          (of_store-IsReady (o.config_map_by_key key s).0) h)
