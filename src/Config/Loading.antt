-- ===== src/Config/Loading.antt =====
-- The `Load…` functions of pkg/manifests/config.go: what the configuration does not say is read from
-- the cluster. The Go error is a value of the result; a call that fails has panicked on a nil pointer.
use cluster_monitoring_opera.Base.{
  String, Option, none, some, ◌==◌, string_eq, if◌then◌else◌, ◌||◌, not, Error, Result, ok, err,
  message, wrap, nil_dereference, M, pure, fail, attempt, ◌>>=◌, ◌<>◌,
}
use cluster_monitoring_opera.Base.Dict.{Dict}
use cluster_monitoring_opera.Config.{HttpConfig, Config}
use cluster_monitoring_opera.Config.Settings.{change_telemeter, change_cmc, telemeter, http, image}

-- A Secret with its type, and its `Data`.
pub record PullSecret : Type 0 where
  pub type : String
  pub content : Dict String String

abbrev pub docker_config_json : String
docker_config_json = "kubernetes.io/dockerconfigjson"

abbrev pub deref : {S A : Type 0} → Option A → M S A
deref none = fail nil_dereference
deref (some a) = pure a

abbrev pub Loaded : Type 0 → Type 0
Loaded B = Result (Unit {0}) × Config B

module _ {S B : Type 0} where
  -- Return an error and leave the configuration.
  abbrev pub failed : Config B → Error → String → M S (Loaded B)
  failed c e text = pure (err (wrap e text), c)

  abbrev pub done : Option (Config B) → M S (Loaded B)
  done none = fail nil_dereference
  done (some c) = pure (ok tt, c)

  abbrev pub with_cluster_id : Config B → Result String → M S (Loaded B)
  with_cluster_id c (err e) = failed c e "error loading cluster version"
  with_cluster_id c (ok id) = done (change_telemeter (λ t. record t { cluster_id = id }) c)

  unfoldable pub load_cluster_id : M S String → Config B → M S (Loaded B)
  load_cluster_id load c = do
    t ← deref (telemeter c)
    if not (t.cluster_id == "")
        then pure (ok tt, c)
        else (do cv ← attempt load; with_cluster_id c cv)

  -- `json.Unmarshal` of the pull secret, down to the token.
  module _ (unmarshal : String → Result String) where
    abbrev pub with_token : Config B → Result String → M S (Loaded B)
    with_token c (err e) = failed c e "unmarshaling pull secret failed"
    with_token c (ok token) = done (change_telemeter (λ t. record t { token = token }) c)

    abbrev pub with_secret : Config B → Result PullSecret → M S (Loaded B)
    with_secret c (err e) = failed c e "error loading secret"
    with_secret c (ok secret) =
        if not (secret.type == docker_config_json)
        then pure (
          err (
              message
                ("error expecting secret type " <> docker_config_json <> " got " <> secret.type)),
          c,
        )
        else with_token c (unmarshal (image secret.content ".dockerconfigjson"))

    unfoldable pub load_token : M S PullSecret → Config B → M S (Loaded B)
    load_token load c = do
      t ← deref (telemeter c)
      if not (t.token == "")
          then pure (ok tt, c)
          else (do secret ← attempt load; with_secret c secret)

  abbrev pub with_proxy : Config B → Result HttpConfig → M S (Loaded B)
  with_proxy c (err e) = failed c e "error loading proxy"
  with_proxy c (ok status) =
      done (change_cmc (λ cmc. some (record cmc { http_config = some status })) c)

  unfoldable pub load_proxy : M S HttpConfig → Config B → M S (Loaded B)
  load_proxy load c = do
    h ← deref (http c)
    if not (h.http_proxy == "") || not (h.https_proxy == "") || not (h.no_proxy == "")
        then pure (ok tt, c)
        else (do p ← attempt load; with_proxy c p)

  abbrev pub with_platform : Config B → Result String → M S (Loaded B)
  with_platform c (err e) = failed c e "error loading platform"
  with_platform c (ok platform) = pure (ok tt, record c { platform = platform })

  unfoldable pub load_platform : M S String → Config B → M S (Loaded B)
  load_platform load c = do i ← attempt load; with_platform c i
