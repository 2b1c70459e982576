-- ===== src/Tasks/CaBundle/Tests.antt =====
-- The sync of a bundle on the API server in memory.
use cluster_monitoring_opera.Base.{String, List, [], ◌∷◌, ◌<>◌, string_eq, ◌≡◌, refl, Result, ok}
use cluster_monitoring_opera.Base.Dict
use cluster_monitoring_opera.Client.{Resource, ObjectMeta, Contents, Client}
use cluster_monitoring_opera.Client.Apply.{
  create_or_update_config_map, create_if_not_exist_config_map,
}
use cluster_monitoring_opera.Client.Delete.{delete_hashed_config_map}
use cluster_monitoring_opera.Client.Memory.{list_store, sample_client, find, put, remove}
use cluster_monitoring_opera.Client.Wait.Polling.{rounds}
use cluster_monitoring_opera.Tasks.CaBundle.{sync_trusted_ca_bundle, hash_of}
use cluster_monitoring_opera.Tasks.CaBundle.Synced.{
  IsPollImmediate, HasBundle, sync_trusted_ca_bundle-HasBundle,
}

abbrev configs : Client (List (Resource Contents)) String
configs = record (sample_client (List (Resource Contents))) { config_maps = list_store }

abbrev meta : String → ObjectMeta
meta name = record {
  namespace = "openshift-monitoring";
  name = name;
  resource_version = "";
  annotations = [];
  labels = [];
}

-- The cluster has put a bundle into the root ConfigMap.
abbrev root : Resource Contents
root = record { meta = meta "telemeter-trusted-ca-bundle"; body = ("ca-bundle.crt", "CA") ∷ [] }

abbrev hash : Resource Contents → String → Result (Resource Contents)
hash cm prefix = ok (record {
  meta = record (meta (prefix <> "-trusted-ca-bundle-5e")) {
    labels = ("monitoring.openshift.io/hash", "5e") ∷ [];
  };
  body = cm.body;
})

abbrev hashed : Resource Contents
hashed = record {
  meta = record (meta "telemeter-trusted-ca-bundle-5e") {
    labels = ("monitoring.openshift.io/hash", "5e") ∷ [];
  };
  body = ("ca-bundle.crt", "CA") ∷ [];
}

configs-IsPollImmediate : IsPollImmediate configs
configs-IsPollImmediate = record { poll_rounds = λ L interval seconds condition t. (4, refl) }

abbrev after : List (Resource Contents)
after = (sync_trusted_ca_bundle configs hash "telemeter" root (root ∷ [])).1

synced : sync_trusted_ca_bundle configs hash "telemeter" root (root ∷ []) ≡ (ok hashed, after)
unfolding sync_trusted_ca_bundle string_eq create_if_not_exist_config_map find rounds Dict.lookup
    create_or_update_config_map delete_hashed_config_map put remove
synced = refl

sync_trusted_ca_bundle-HasBundle_example :
    (ca cm : Resource Contents) × (t u v : List (Resource Contents)) × HasBundle cm
    × (configs.config_maps.get ca.meta.namespace ca.meta.name t ≡ (ok cm, u))
    × (hash cm "telemeter" ≡ ok hashed)
    × (create_or_update_config_map configs hashed u ≡ (ok tt, v))
    × (delete_hashed_config_map configs ca.meta.namespace "telemeter" (hash_of hashed) v
        ≡ (ok tt, after))
sync_trusted_ca_bundle-HasBundle_example =
    sync_trusted_ca_bundle-HasBundle configs configs-IsPollImmediate hash "telemeter" root hashed
      (root ∷ []) after synced
