-- ===== src/Operator/Sync.antt =====
-- The worker of pkg/operator/operator.go: `sync` and `processNextWorkItem`.
pub mod Reports
pub mod Returns
use Prim.Native.Char.{Char}
use cluster_monitoring_opera.Base.{
  String, Bool, true, false, Option, none, some, List, ◌==◌, nat_eq, if◌then◌else◌, ◌||◌, not,
  select, Error, Result, ok, err, M, pure, fail, attempt, ◌>>=◌, ◌>>◌, ◌<>◌,
}
use cluster_monitoring_opera.Words.{chars, text, between}
use cluster_monitoring_opera.Config.{Config}
use cluster_monitoring_opera.Config.Settings.{set_images, set_telemetry_matches, set_remote_write}
use cluster_monitoring_opera.Config.Loading.{deref}
use cluster_monitoring_opera.Status.Reporter.{set_failed, set_in_progress, set_done}
use cluster_monitoring_opera.Tasks.{TaskSpec, run_all}
use cluster_monitoring_opera.Operator.{Operator}
use cluster_monitoring_opera.Operator.Loads.{config}

-- The ASCII characters that `unicode.IsSpace` holds of.
abbrev pub is_white : Char → Bool
is_white c = between 9 13 c || between 32 32 c

-- `strings.Join(strings.Fields(taskName+"Failed"), "")`
unfoldable pub failed_task_reason : String → String
failed_task_reason task_name = text (select (λ c. not (is_white c)) (chars (task_name <> "Failed")))

module _ {S B : Type 0} (o : Operator S B) where
  -- What the operator sets in a loaded configuration.
  unfoldable pub with_settings : Config B → M S (Config B)
  with_settings c = do
    c ← deref (set_images o.images c)
    c ← deref (set_telemetry_matches o.telemetry_matches c)
    deref (set_remote_write o.remote_write c)

  abbrev pub run_tasks : Config B → M S (String × Result (Unit {0}))
  run_tasks c = run_all o.group (o.tasks c)

  -- An error of the report is logged only.
  abbrev pub report_failed : Error → String → M S (Result (Unit {0}))
  report_failed e reason = do report_err ← attempt (set_failed o.reporter e reason); pure (err e)

  abbrev pub by_tasks : String × Result (Unit {0}) → M S (Result (Unit {0}))
  by_tasks (task_name, err e) = report_failed e (failed_task_reason task_name)
  by_tasks (task_name, ok _) = do report_err ← attempt (set_done o.reporter); pure (ok tt)

  abbrev pub by_config : Result (Config B) → M S (Result (Unit {0}))
  by_config (err e) = report_failed e "InvalidConfiguration"
  by_config (ok c) = do
    c ← with_settings c
    report_err ← attempt (set_in_progress o.reporter)
    r ← run_tasks c
    by_tasks r

  unfoldable pub sync : String → M S (Result (Unit {0}))
  sync key = do c ← config o key; by_config c

  abbrev pub by_sync : String → Result (Unit {0}) → M S Bool
  by_sync key (ok _) s = (ok true, o.queue.forget key s)
  by_sync key (err e) s = (ok true, o.queue.add_rate_limited key (o.count_error s))

  abbrev pub work : String → M S Bool
  work key s = (sync key >>= by_sync key) (o.count_attempt s)

  -- The deferred `Done` runs however the work ends.
  abbrev pub process_item : Option String × S → Result Bool × S
  process_item (none, s) = (ok false, s)
  process_item (some key, s) = let (r, s') = work key s in (r, o.queue.finish key s')

  unfoldable pub process_next_work_item : M S Bool
  unfolding sync
  process_next_work_item s = process_item (o.queue.get s)
