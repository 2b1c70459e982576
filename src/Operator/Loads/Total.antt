-- ===== src/Operator/Loads/Total.antt =====
-- The pointers that the defaults set, which the later parts of `Config` follow.
use cluster_monitoring_opera.Base.{
  String, Bool, true, false, Option, some, ◌≡◌, refl, if◌then◌else◌, not, ◌==◌, string_eq, Result,
  ok, err, M, pure, attempt, ◌>>=◌, Gives, pure-Gives, attempt-Gives, >>=-Gives,
}
use cluster_monitoring_opera.Config.{
  HttpConfig, EtcdConfig, TelemeterClientConfig, ClusterMonitoringConfiguration, Config,
}
use cluster_monitoring_opera.Config.Defaults.{
  value_or, apply_defaults, with_defaults, no_configuration,
}
use cluster_monitoring_opera.Config.Settings.{image, telemeter, http, change_telemeter, change_cmc}
use cluster_monitoring_opera.Config.Loading.{
  docker_config_json, PullSecret, deref, Loaded, done, with_cluster_id, with_token, with_secret,
  with_proxy, with_platform, load_cluster_id, load_token, load_proxy, load_platform,
}
use cluster_monitoring_opera.Operator.Loads.{enable_etcd}

-- A pointer that is not nil.
abbrev pub IsSome {ℓ} : {A : Type ℓ} → Option A → Type ℓ
IsSome {A} o = (a : A) × (o ≡ some a)

-- The pointers of a configuration that the operator follows are set.
abbrev pub HasPointers : {B : Type 0} → ClusterMonitoringConfiguration B → Type 0
HasPointers cmc =
    IsSome cmc.prometheus_k8s_config
    × IsSome cmc.etcd_config
    × IsSome cmc.http_config
    × IsSome cmc.telemeter_client_config
    × IsSome cmc.user_workload_enabled

pub record HasDefaults {B : Type 0} (c : Config B) : Type 0 where
  pub images_set : IsSome c.images
  pub cmc : ClusterMonitoringConfiguration B
  pub cmc_set : c.cluster_monitoring ≡ some cmc
  pub all_set : HasPointers cmc

module _ {S A : Type 0} where
  pub deref-Gives :
      (P : A → Type 0) (x : Option A) (a : A) → x ≡ some a → P a → Gives {S = S} (deref x) P
  deref-Gives P x a e p s = (a, s, rw e refl, p)

pub apply_defaults-HasDefaults : {B : Type 0} (c : Config B) → HasDefaults (apply_defaults c)
unfolding apply_defaults with_defaults
apply_defaults-HasDefaults c = record {
  images_set = (_, refl);
  cmc = with_defaults (value_or no_configuration c.cluster_monitoring);
  cmc_set = refl;
  all_set = ((_, refl), (_, refl), (_, refl), (_, refl), (_, refl));
}

module _ {B : Type 0} where
  -- A change of the configuration that keeps its pointers set.
  pub change_cmc-HasDefaults :
      (f : ClusterMonitoringConfiguration B → Option (ClusterMonitoringConfiguration B))
      (c : Config B)
      → ((cmc : ClusterMonitoringConfiguration B)
          → HasPointers cmc
          → (new : ClusterMonitoringConfiguration B) × (f cmc ≡ some new) × HasPointers new)
      → HasDefaults c
      → (c' : Config B) × (change_cmc f c ≡ some c') × HasDefaults c'
  change_cmc-HasDefaults f c g d =
      let (new, e, i) = g d.cmc d.all_set in
      (
        record c { cluster_monitoring = some new },
        rw d.cmc_set (rw e refl),
        record { images_set = d.images_set; cmc = new; cmc_set = refl; all_set = i },
      )

  pub change_telemeter-HasDefaults :
      (f : TelemeterClientConfig B → TelemeterClientConfig B) (c : Config B)
      → HasDefaults c
      → (c' : Config B) × (change_telemeter f c ≡ some c') × HasDefaults c'
  change_telemeter-HasDefaults f c = change_cmc-HasDefaults _ c λ cmc (p, e, h, (t, t_set), u). (
    record cmc { telemeter_client_config = some (f t) },
    rw t_set refl,
    (p, e, h, (f t, refl), u),
  )

  set_http-HasDefaults :
      (status : HttpConfig) (c : Config B)
      → HasDefaults c
      → (c' : Config B) × (change_cmc (λ cmc. some (record cmc { http_config = some status })) c
          ≡ some c')
        × HasDefaults c'
  set_http-HasDefaults status c = change_cmc-HasDefaults _ c λ cmc (p, e, h, t, u).
      (record cmc { http_config = some status }, refl, (p, e, (status, refl), t, u))

  pub enable_etcd-HasDefaults :
      (c : Config B)
      → HasDefaults c
      → (c' : Config B) × (change_cmc enable_etcd c ≡ some c') × HasDefaults c'
  enable_etcd-HasDefaults c = change_cmc-HasDefaults _ c λ cmc (p, (e, e_set), h, t, u).
      let etcd : EtcdConfig = record { enabled = some true } in
      (record cmc { etcd_config = some etcd }, rw e_set refl, (p, (etcd, refl), h, t, u))

module _ {S A : Type 0} where
  pub if-Gives :
      (b : Bool) (m n : M S A) (Q : A → Type 0)
      → Gives m Q
      → Gives n Q
      → Gives (if b then m else n) Q
  if-Gives true m n Q g h = g
  if-Gives false m n Q g h = h

pub telemeter_of : {B : Type 0} (c : Config B) → HasDefaults c → IsSome (telemeter c)
telemeter_of c d = let (_, _, _, (t, e), _) = d.all_set in (t, rw d.cmc_set e)

http_of : {B : Type 0} (c : Config B) → HasDefaults c → IsSome (http c)
http_of c d = let (_, _, (h, e), _, _) = d.all_set in (h, rw d.cmc_set e)

abbrev Kept : {B : Type 0} → Loaded B → Type 0
Kept p = HasDefaults p.1

module _ {S B : Type 0} where
  -- Keep what a pointer holds, or load it.
  keep_or_load-Gives :
      {T R : Type 0} (x : Option T) (is_there : T → Bool) (load : M S R)
      (f : Result R → M S (Loaded B)) (c : Config B)
      → IsSome x
      → HasDefaults c
      → ((r : Result R) → Gives (f r) Kept)
      → Gives (deref x >>= λ t. if is_there t then pure (ok tt, c) else (attempt load >>= f)) Kept
  keep_or_load-Gives x is_there load f c (t, e) d g =
      >>=-Gives (deref x) _ (λ _. Unit {0}) _ (deref-Gives _ x t e tt)
        λ t _.
          if-Gives (is_there t) _ _ _ (pure-Gives _ _ d)
            (>>=-Gives (attempt load) f _ _ (attempt-Gives load) λ r _. g r)

  done-Gives :
      (o : Option (Config B))
      → ((c' : Config B) × (o ≡ some c') × HasDefaults c')
      → Gives {S = S} (done o) Kept
  done-Gives o (c', e, d) s = ((ok tt, c'), s, rw e refl, d)

  with_cluster_id-Gives :
      (c : Config B)
      → HasDefaults c
      → (r : Result String) → Gives {S = S} (with_cluster_id c r) Kept
  with_cluster_id-Gives c d (err e) = pure-Gives _ _ d
  with_cluster_id-Gives c d (ok id) = done-Gives _ (change_telemeter-HasDefaults _ c d)

  pub load_cluster_id-Gives :
      (load : M S String) (c : Config B) → HasDefaults c → Gives (load_cluster_id load c) Kept
  unfolding load_cluster_id
  load_cluster_id-Gives load c d =
      keep_or_load-Gives (telemeter c) _ load (with_cluster_id c) c (telemeter_of c d) d
        (with_cluster_id-Gives c d)

  module _ (unmarshal : String → Result String) (c : Config B) (d : HasDefaults c) where
    with_token-Gives : (r : Result String) → Gives {S = S} (with_token unmarshal c r) Kept
    with_token-Gives (err e) = pure-Gives _ _ d
    with_token-Gives (ok token) = done-Gives _ (change_telemeter-HasDefaults _ c d)

    with_secret-Gives : (r : Result PullSecret) → Gives {S = S} (with_secret unmarshal c r) Kept
    with_secret-Gives (err e) = pure-Gives _ _ d
    with_secret-Gives (ok secret) =
        if-Gives (not (secret.type == docker_config_json)) _ _ _ (pure-Gives _ _ d)
          (with_token-Gives (unmarshal (image secret.content ".dockerconfigjson")))

    pub load_token-Gives : (load : M S PullSecret) → Gives (load_token unmarshal load c) Kept
    unfolding load_token
    load_token-Gives load =
        keep_or_load-Gives (telemeter c) _ load (with_secret unmarshal c) c (telemeter_of c d) d
          with_secret-Gives

  with_proxy-Gives :
      (c : Config B) → HasDefaults c → (r : Result HttpConfig) → Gives {S = S} (with_proxy c r) Kept
  with_proxy-Gives c d (err e) = pure-Gives _ _ d
  with_proxy-Gives c d (ok status) = done-Gives _ (set_http-HasDefaults status c d)

  pub load_proxy-Gives :
      (load : M S HttpConfig) (c : Config B) → HasDefaults c → Gives (load_proxy load c) Kept
  unfolding load_proxy
  load_proxy-Gives load c d =
      keep_or_load-Gives (http c) _ load (with_proxy c) c (http_of c d) d (with_proxy-Gives c d)

  with_platform-Gives :
      (c : Config B) → HasDefaults c → (r : Result String) → Gives {S = S} (with_platform c r) Kept
  with_platform-Gives c d (err e) = pure-Gives _ _ d
  with_platform-Gives c d (ok platform) =
      pure-Gives _ _ (record {
        images_set = d.images_set;
        cmc = d.cmc;
        cmc_set = d.cmc_set;
        all_set = d.all_set;
      })

  pub load_platform-Gives :
      (load : M S String) (c : Config B) → HasDefaults c → Gives (load_platform load c) Kept
  unfolding load_platform
  load_platform-Gives load c d =
      >>=-Gives (attempt load) (with_platform c) _ _ (attempt-Gives load)
        λ r _. with_platform-Gives c d r
