-- ===== src/Operator.antt =====
-- The operator of pkg/operator/operator.go. A call that fails has panicked on a nil pointer, where its
-- result is a Go result; `S` is the state of the cluster, the queue and the counters.
pub mod Events
pub mod Loads
pub mod Running
pub mod Sync
pub mod TaskList
pub mod Watches
mod Tests
use cluster_monitoring_opera.Base.{String, Bool, Option, List, Result, M, Error}
use cluster_monitoring_opera.Base.Dict.{Dict}
use cluster_monitoring_opera.Client.{Resource, Contents}
use cluster_monitoring_opera.Status.Reporter.{StatusReporter}
use cluster_monitoring_opera.Config.{
  HttpConfig, ClusterMonitoringConfiguration, UserWorkloadConfiguration, Config,
}
use cluster_monitoring_opera.Config.Loading.{PullSecret}
use cluster_monitoring_opera.Tasks.{TaskSpec, TaskErr}

-- The rate limited work queue of client-go, whose keys are texts; no item is the shutdown.
pub record Queue (S : Type 0) : Type 0 where
  pub add : String → S → S
  pub add_rate_limited : String → S → S
  pub get : S → Option String × S
  pub forget : String → S → S
  pub finish : String → S → S

-- The Operator, with the libraries and the parts of the client that it calls.
pub record Operator (S B : Type 0) : Type 0 where
  pub namespace : String
  pub namespace_user_workload : String
  pub config_map_name : String
  pub user_workload_config_map_name : String
  pub images : Dict String String
  pub telemetry_matches : List String
  pub remote_write : Bool
  pub queue : Queue S
  -- `reconcileAttempts.Inc()` and `reconcileErrors.Inc()`
  pub count_attempt : S → S
  pub count_error : S → S
  -- `cmapInf.GetStore().GetByKey`
  pub config_map_by_key : String → M S (Option (Resource Contents))
  pub is_not_found : Error → Bool
  pub get_config_map : String → String → M S (Resource Contents)
  pub get_secret : String → String → M S (Resource Contents)
  pub cluster_version : String → M S String
  pub pull_secret : M S PullSecret
  pub proxy : String → M S HttpConfig
  pub infrastructure : String → M S String
  -- The YAML and JSON decoders.
  pub decode : String → Result (ClusterMonitoringConfiguration B)
  pub decode_user : String → Result (Option (UserWorkloadConfiguration B))
  pub unmarshal : String → Result String
  pub reporter : StatusReporter S
  -- The tasks for a configuration, which TaskList fills, and the group that runs them.
  pub tasks : Config B → List (TaskSpec S)
  pub group : List (M S (Option TaskErr)) → M S (Option TaskErr)
