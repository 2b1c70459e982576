-- ===== src/Operator/Tests.antt =====
-- The theorems on the operator at a small cluster: one ClusterOperator, the keys of the queue and the
-- counters.
use cluster_monitoring_opera.Base.{
  ap, subst, ◌∙◌, ◌≢◌, if◌then◌else◌, ℕ, ◌+◌, String, Bool, true, false, Option, none, some, List,
  [], ◌∷◌, ◌==◌, string_eq, nat_eq, ◌≡◌, refl, ◌⊎◌, Error, ok, err, status, wrap, M,
}
use cluster_monitoring_opera.Base.Dict
use cluster_monitoring_opera.Client.{Resource, Contents}
use cluster_monitoring_opera.Status.Conditions.{ClusterOperatorStatus, type_eq, status_eq}
use cluster_monitoring_opera.Status.Reporter.{
  ClusterOperator, StatusReporter, set_done, set_in_progress, set_failed, get_or_create,
}
use cluster_monitoring_opera.Config.{Config}
use cluster_monitoring_opera.Config.Defaults.{
  no_configuration, apply_defaults, with_defaults, value_or, new_default_config,
}
use cluster_monitoring_opera.Config.Loading.{load_cluster_id, load_token, load_proxy, load_platform}
use cluster_monitoring_opera.Config.Settings.{set_images, set_telemetry_matches, set_remote_write}
use cluster_monitoring_opera.Tasks.{TaskSpec, run_all}
use cluster_monitoring_opera.Tasks.Sequential.{sequential, sequential-IsGroup}
use cluster_monitoring_opera.Operator.{Operator, Queue}
use cluster_monitoring_opera.Operator.Events.{handle_event}
use cluster_monitoring_opera.Operator.Events.Laws.{etcd_ca, handle_event-etcd_ca}
use cluster_monitoring_opera.Operator.Loads.{
  config, load_config, with_cluster, with_telemetry, with_etcd,
}
use cluster_monitoring_opera.Base.{GivesAt}
use cluster_monitoring_opera.Operator.Loads.Returns.{IsReady, config-GivesAt, NotNullAfter}
use cluster_monitoring_opera.Operator.Sync.{sync, with_settings, process_next_work_item}
use cluster_monitoring_opera.Operator.Sync.Reports.{
  AllDone, TaskFailed, ConfigFailed, Synced, sync-eq-ok, sync-eq-err, process_next_work_item-Synced,
}
use cluster_monitoring_opera.Operator.Sync.Returns.{TaskPanicked, sync-ReturnsOr}

pub record World : Type 0 where
  pub operator : Option ClusterOperator
  pub keys : List String
  pub errors : ℕ

abbrev refused : {A : Type 0} → M World A
refused w = (err (status 404 "NotFound"), w)

abbrev is_not_found : Error → Bool
is_not_found (status code reason) = reason == "NotFound"
is_not_found _ = false

abbrev keep : ClusterOperator → M World ClusterOperator
keep co w = (ok co, record w { operator = some co })

abbrev no_status : ClusterOperatorStatus
no_status = record { conditions = []; versions = []; related_objects = [] }

abbrev reporter : StatusReporter World
reporter = record {
  get = λ name w. elim w.operator [ none ↦ refused w | some co ↦ (ok co, w) ];
  create = keep;
  update_status = keep;
  unset = record { api_version = ""; kind = ""; name = ""; status = no_status };
  is_not_found = is_not_found;
  error_text = λ e. "some error";
  now = λ w. (ok 7, w);
  cluster_operator_name = "monitoring";
  namespace = "openshift-monitoring";
  user_workload_namespace = "openshift-user-workload-monitoring";
  version = "4.8";
}

abbrev take : List String → World → Option String × World
take [] w = (none, w)
take (key ∷ keys) w = (some key, record w { keys = keys })

abbrev queue : Queue World
queue = record {
  add = λ key w. record w { keys = key ∷ w.keys };
  add_rate_limited = λ key w. record w { keys = key ∷ w.keys };
  get = λ w. take w.keys w;
  forget = λ key w. w;
  finish = λ key w. w;
}

abbrev operator : (Config String → List (TaskSpec World)) → Operator World String
operator tasks = record {
  namespace = "openshift-monitoring";
  namespace_user_workload = "openshift-user-workload-monitoring";
  config_map_name = "cluster-monitoring-config";
  user_workload_config_map_name = "user-workload-monitoring-config";
  images = [];
  telemetry_matches = [];
  remote_write = false;
  queue = queue;
  count_attempt = λ w. w;
  count_error = λ w. record w { errors = w.errors + 1 };
  config_map_by_key = λ key w. (ok none, w);
  is_not_found = is_not_found;
  get_config_map = λ namespace name. refused;
  get_secret = λ namespace name. refused;
  cluster_version = λ name w. (ok "2f9a", w);
  pull_secret = refused;
  proxy = λ name. refused;
  infrastructure = λ name. refused;
  decode = λ content. ok no_configuration;
  decode_user = λ content.
      ok (some (record { prometheus_operator = none; prometheus = none; thanos_ruler = none }));
  unmarshal = λ content. ok content;
  reporter = reporter;
  tasks = tasks;
  group = sequential;
}

abbrev pub working : Operator World String
working = operator λ c. record { name = "Updating Grafana"; task = λ w. (ok tt, w) } ∷ []

abbrev broken : Operator World String
broken =
    operator
      λ c. record { name = "Updating Grafana"; task = λ w. (err (status 403 "Forbidden"), w) } ∷ []

abbrev key : String
key = "openshift-monitoring/cluster-monitoring-config"

abbrev pub start : World
start = record { operator = none; keys = key ∷ []; errors = 0 }

abbrev user_content : String
user_content = "prometheus: {}"

abbrev user_config_map : Resource Contents
user_config_map = record {
  meta = record {
    namespace = "openshift-user-workload-monitoring";
    name = "user-workload-monitoring-config";
    resource_version = "";
    annotations = [];
    labels = [];
  };
  body = ("config.yaml", user_content) ∷ [];
}

-- Monitoring of user workloads is enabled, with a ConfigMap; the decoder makes nil of the text "null".
abbrev configured : Operator World String
configured = record working {
  config_map_by_key = λ key w. (ok (some user_config_map), w);
  get_config_map = λ namespace name w. (ok user_config_map, w);
  decode = λ content. ok (record no_configuration { user_workload_enabled = some true });
  decode_user = λ content.
      if content == "null"
      then ok none
      else ok
          (some (record { prometheus_operator = none; prometheus = none; thanos_ruler = none }));
}

not_nil : configured.decode_user user_content ≢ ok none
unfolding string_eq
not_nil e = cc

not_null : NotNullAfter configured key start
unfolding Dict.lookup string_eq
not_null cm t content p q =
    let same : user_config_map ≡ cm = cc in
    let r : some user_content ≡ some content =
      ap (λ x. Dict.lookup "config.yaml" x.body) same ∙ q in
    let e : user_content ≡ content = cc in subst (λ x. configured.decode_user x ≢ ok none) e not_nil

config-GivesAt_example : GivesAt (config configured key) IsReady start
config-GivesAt_example = config-GivesAt configured key start not_null

sync-ReturnsOr_example :
    GivesAt (sync configured key) (λ _. Unit {0}) start
    ⊎ ((e : Error) × (t : World) × (sync configured key start ≡ (err e, t))
        × TaskPanicked configured sequential-IsGroup key start e)
sync-ReturnsOr_example = sync-ReturnsOr configured sequential-IsGroup key start not_null

synced : sync working key start ≡ (ok (ok tt), (sync working key start).1)
unfolding sync config new_default_config sequential run_all set_done set_in_progress get_or_create
    string_eq load_config apply_defaults with_defaults value_or with_cluster with_telemetry
    load_cluster_id load_token load_proxy load_platform with_etcd with_settings set_images
    set_telemetry_matches set_remote_write
synced = refl

sync-eq-ok_example : AllDone working key start (sync working key start).1
sync-eq-ok_example =
    sync-eq-ok working sequential-IsGroup key start (sync working key start).1 synced

abbrev forbidden : Error
forbidden = wrap (status 403 "Forbidden") "running task Updating Grafana failed"

not_synced : sync broken key start ≡ (ok (err forbidden), (sync broken key start).1)
unfolding sync config new_default_config sequential run_all set_in_progress set_failed get_or_create
    string_eq load_config apply_defaults with_defaults value_or with_cluster with_telemetry
    load_cluster_id load_token load_proxy load_platform with_etcd with_settings set_images
    set_telemetry_matches set_remote_write
not_synced = refl

sync-eq-err_example :
    TaskFailed broken key start forbidden (sync broken key start).1
    ⊎ ConfigFailed broken key start forbidden (sync broken key start).1
sync-eq-err_example =
    sync-eq-err broken sequential-IsGroup key forbidden start (sync broken key start).1 not_synced

processed : process_next_work_item broken start ≡ (ok true, (process_next_work_item broken start).1)
unfolding process_next_work_item sync config new_default_config sequential run_all set_in_progress
    set_failed get_or_create string_eq load_config apply_defaults with_defaults value_or
    with_cluster with_telemetry load_cluster_id load_token load_proxy load_platform with_etcd
    with_settings set_images set_telemetry_matches set_remote_write
processed = refl

process_next_work_item-Synced_example :
    let after = (process_next_work_item broken start).1 in
    ((true ≡ false) × (queue.get start ≡ (none, after)))
    ⊎ ((k : String) × (t : World) × (true ≡ true)
        × (queue.get start ≡ (some k, t))
        × Synced broken k t after)
process_next_work_item-Synced_example =
    process_next_work_item-Synced broken true start (process_next_work_item broken start).1
      processed

handle_event-etcd_ca_example :
    (with_etcd working new_default_config start ≡ (ok (ok new_default_config), start))
    × (handle_event working (some etcd_ca) start ≡ start)
unfolding with_etcd
handle_event-etcd_ca_example =
    handle_event-etcd_ca working new_default_config start (λ e. cc) (λ e. cc)
