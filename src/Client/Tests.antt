-- ===== src/Client/Tests.antt =====
-- The theorems on the client at concrete objects, on the API server in memory.
use cluster_monitoring_opera.Base.{
  String, true, some, or_else, List, [], ◌∷◌, ◌==◌, string_eq, nat_eq, ◌≡◌, refl, ok, All, ◌⊎◌,
}
use cluster_monitoring_opera.Base.Dict
use cluster_monitoring_opera.Client.{
  Labels, Resource, ObjectMeta, Contents, DeploymentBody, ReplicatedBody, ReplicaStatus, Client,
}
use cluster_monitoring_opera.Client.Metadata.{merge_metadata, merge_metadata_labels}
use cluster_monitoring_opera.Client.Apply.{create_or_update_config_map, create_or_update_secret}
use cluster_monitoring_opera.Client.Apply.Laws.{Finds, create_or_update_config_map-Finds}
use cluster_monitoring_opera.Client.Delete.{delete_hashed_config_map, hash_selector}
use cluster_monitoring_opera.Client.Delete.Laws.{delete_hashed_config_map-Gone}
use cluster_monitoring_opera.Client.Wait.{wait_for_deployment_rollout, wait_for_prometheus}
use cluster_monitoring_opera.Client.Wait.Polling.{
  rounds, IsPoll, IsRolledOut, Saw, wait_for_deployment_rollout-Saw,
}
use cluster_monitoring_opera.Client.Rollout.{create_or_update_deployment, update_deployment}
use cluster_monitoring_opera.Client.Rollout.Laws.{create_or_update_deployment_saw}
use cluster_monitoring_opera.Client.Memory.{
  list_store, list_store-IsStore, list_store-KeepsNames, list_store-IsGone, Gone, find, put, remove,
  merge_maps, merge_maps-IsMergo, sample_client,
}

abbrev configs : Client (List (Resource Contents)) String
configs = record (sample_client (List (Resource Contents))) {
  config_maps = list_store;
  secrets = list_store;
}

abbrev meta : String → Labels → ObjectMeta
meta name labels = record {
  namespace = "openshift-monitoring";
  name = name;
  resource_version = "";
  annotations = [];
  labels = labels;
}

abbrev wanted : Resource Contents
wanted = record {
  meta = meta "shared" (("app", "cmo") ∷ ("team", "") ∷ []);
  body = ("url", "https://prometheus") ∷ [];
}

abbrev stored : Resource Contents
stored = record {
  meta = meta "shared" (("monitoring.openshift.io/hash", "abc") ∷ ("team", "observability") ∷ []);
  body = [];
}

abbrev before : List (Resource Contents)
before = stored ∷ []

updated :
    create_or_update_config_map configs wanted before
    ≡ (ok tt, (create_or_update_config_map configs wanted before).1)
unfolding create_or_update_config_map find put merge_maps merge_metadata Dict.lookup Dict.insert
    string_eq
updated = refl

create_or_update_config_map-Finds_example :
    Finds configs.config_maps wanted (create_or_update_config_map configs wanted before).1
create_or_update_config_map-Finds_example =
    create_or_update_config_map-Finds configs merge_maps-IsMergo list_store-IsStore wanted before
      (create_or_update_config_map configs wanted before).1 updated

secret_created :
    create_or_update_secret configs wanted []
    ≡ (ok tt, (create_or_update_secret configs wanted []).1)
unfolding create_or_update_secret find put string_eq
secret_created = refl

merge_metadata_labels_example :
    Dict.lookup "team" (merge_metadata merge_maps wanted.meta stored.meta).labels
    ≡ some "observability"
unfolding Dict.lookup string_eq or_else
merge_metadata_labels_example =
    merge_metadata_labels merge_maps merge_maps-IsMergo "team" wanted.meta stored.meta

deleted :
    delete_hashed_config_map configs "openshift-monitoring" "shared" "def" before ≡ (ok tt, [])
unfolding delete_hashed_config_map find remove string_eq
deleted = refl

delete_hashed_config_map-Gone_example :
    (items : List (Resource Contents)) × (t : List (Resource Contents)) × (configs.config_maps.list
        "openshift-monitoring"
        (hash_selector configs "shared" "def")
        before
      ≡ (ok items, t))
    × All (λ o. Gone {B = Contents} "openshift-monitoring" o.meta.name []) items
delete_hashed_config_map-Gone_example =
    delete_hashed_config_map-Gone configs (Gone {B = Contents}) list_store-IsGone
      "openshift-monitoring" "shared" "def" before [] deleted

-- A client that keeps Deployments.
abbrev Deployments : Type 0
Deployments = List (Resource (DeploymentBody String))

abbrev deploying : Client Deployments String
deploying = record (sample_client Deployments) { deployments = list_store }

abbrev rolled_out : DeploymentBody String
rolled_out = record {
  spec = "two replicas";
  generation = 3;
  observed_generation = 3;
  replicas = 2;
  updated_replicas = 2;
  unavailable_replicas = 0;
}

abbrev grafana : Resource (DeploymentBody String)
grafana = record { meta = meta "grafana" []; body = rolled_out }

abbrev old_grafana : Resource (DeploymentBody String)
old_grafana = record { meta = meta "grafana" []; body = record rolled_out { spec = "one replica" } }

deploying-IsPoll : IsPoll deploying
deploying-IsPoll = record { poll_rounds = λ L interval seconds condition t. (4, refl) }

waited : wait_for_deployment_rollout deploying grafana (grafana ∷ []) ≡ (ok tt, grafana ∷ [])
unfolding wait_for_deployment_rollout rounds find string_eq nat_eq
waited = refl

wait_for_deployment_rollout-Saw_example :
    Saw deploying.deployments "openshift-monitoring" "grafana" IsRolledOut (grafana ∷ [])
wait_for_deployment_rollout-Saw_example =
    wait_for_deployment_rollout-Saw deploying deploying-IsPoll grafana (grafana ∷ []) (grafana ∷ [])
      waited

redeployed :
    create_or_update_deployment deploying grafana (old_grafana ∷ [])
    ≡ (ok tt, (create_or_update_deployment deploying grafana (old_grafana ∷ [])).1)
unfolding create_or_update_deployment update_deployment wait_for_deployment_rollout rounds find put
    merge_maps merge_metadata string_eq nat_eq
redeployed = refl

create_or_update_deployment_saw_example :
    let after = (create_or_update_deployment deploying grafana (old_grafana ∷ [])).1 in
    Saw deploying.deployments "openshift-monitoring" "grafana" IsRolledOut after
    ⊎ ((existing : Resource (DeploymentBody String)) × (deploying.deployments.get
            "openshift-monitoring" "grafana"
            (old_grafana ∷ [])
          ≡ (ok existing, after))
        × (("two replicas" == existing.body.spec) ≡ true))
create_or_update_deployment_saw_example =
    create_or_update_deployment_saw deploying deploying-IsPoll list_store-KeepsNames grafana
      (old_grafana ∷ []) (create_or_update_deployment deploying grafana (old_grafana ∷ [])).1
      redeployed

-- A client that keeps Prometheus objects, of which two replicas run.
abbrev Prometheuses : Type 0
Prometheuses = List (Resource (ReplicatedBody String))

abbrev running : ReplicaStatus
running = record { updated_replicas = 2; available_replicas = 2 }

abbrev monitoring : Client Prometheuses String
monitoring = record (sample_client Prometheuses) {
  prometheuses = list_store;
  prometheus_status = λ p s. (ok running, s);
}

monitoring-IsPoll : IsPoll monitoring
monitoring-IsPoll = record { poll_rounds = λ L interval seconds condition t. (4, refl) }

abbrev k8s : Resource (ReplicatedBody String)
k8s = record { meta = meta "k8s" []; body = record { spec = "two replicas"; replicas = 2 } }

seen : wait_for_prometheus monitoring k8s (k8s ∷ []) ≡ (ok tt, k8s ∷ [])
unfolding wait_for_prometheus rounds find string_eq nat_eq
seen = refl
