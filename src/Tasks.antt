-- ===== src/Tasks.antt =====
-- The task runner of pkg/tasks/tasks.go. The tasks run concurrently in an error group; the run of one
-- task is a call here, so the group may take them in any order.
pub mod Sequential
pub mod CaBundle
pub mod Alertmanager
pub mod ConfigSharing
pub mod Grafana
pub mod KubeStateMetrics
pub mod NodeExporter
pub mod OpenShiftStateMetrics
pub mod PrometheusAdapter
pub mod Prometheus
pub mod PrometheusOperator
pub mod PrometheusOperatorUserWorkload
pub mod PrometheusUserWorkload
pub mod Secrets
pub mod Telemeter
pub mod ThanosQuerier
pub mod ThanosRulerUserWorkload
pub mod ClusterMonitoringOperator
mod Tests
pub mod Runner
use cluster_monitoring_opera.Base.{
  String, Option, none, some, List, map, Error, Result, ok, err, wrap, M, pure, ◌>>=◌, ◌<>◌,
  is_panic, if◌then◌else◌,
}

pub record TaskSpec (S : Type 0) : Type 0 where
  pub name : String
  pub task : M S (Unit {0})

pub record TaskErr : Type 0 where
  pub error : Error
  pub name : String

abbrev pub named_result : Option TaskErr → String × Result (Unit {0})
named_result none = ("", ok tt)
named_result (some e) = (e.name, err e.error)

module _ {S : Type 0} where
  -- `ExecuteTask`
  abbrev pub execute_task : TaskSpec S → M S (Unit {0})
  execute_task ts = ts.task

  abbrev pub task_err : TaskSpec S → Result (Unit {0}) → Result (Option TaskErr)
  task_err ts (ok _) = ok none
  task_err ts (err e) =
      if is_panic e
      then err e
      else ok (
          some
            (record { error = wrap e ("running task " <> ts.name <> " failed"); name = ts.name }))

  -- The function that `RunAll` gives to the group. A panic of the task is not returned by it: it ends
  -- the process.
  unfoldable pub run_task : TaskSpec S → M S (Option TaskErr)
  run_task ts s = let (r, s') = execute_task ts s in (task_err ts r, s')

  -- `errgroup.Group` with `Go` for each function and then `Wait`.
  module _ (group : List (M S (Option TaskErr)) → M S (Option TaskErr)) where
    unfoldable pub run_all : List (TaskSpec S) → M S (String × Result (Unit {0}))
    unfolding run_task
    run_all tasks = do e ← group (map run_task tasks); pure (named_result e)
