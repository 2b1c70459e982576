-- ===== src/Operator/TaskList/Laws.antt =====
-- What a sync that runs the fifteen tasks says about each of them.
use cluster_monitoring_opera.Base.{
  String, List, [], ◌∷◌, map, All, Some, string_eq, Error, ok, err, M, ◌≡◌, sym, subst, inl, inr,
  ◌⊎◌,
}
use cluster_monitoring_opera.Client.{Client}
use cluster_monitoring_opera.Config.{Config}
use cluster_monitoring_opera.Tasks.{TaskSpec}
use cluster_monitoring_opera.Tasks.Runner.{IsGroup, Returned, Failed}
use cluster_monitoring_opera.Operator.{Operator}
use cluster_monitoring_opera.Operator.Sync.{failed_task_reason, sync}
use cluster_monitoring_opera.Operator.Sync.Reports.{
  Loaded, ReportedDone, ReportedFailed, ConfigFailed, sync-eq-ok, sync-eq-err,
}
use cluster_monitoring_opera.Operator.TaskList.{
  Factory, Libraries, TaskName, task_name, task_names, task_run, task_spec, task_list,
  prometheus_operator, prometheus_operator_user_workload, cluster_monitoring_operator, grafana,
  prometheus, prometheus_user_workload, alertmanager, node_exporter, kube_state_metrics,
  open_shift_state_metrics, prometheus_adapter, telemeter, config_sharing, thanos_querier,
  thanos_ruler,
}

module _ {A : Type 0} (g : TaskName → A) (P : A → Type 0) where
  all_names : All P (map g task_names) → (n : TaskName) → P (g n)
  all_names h prometheus_operator = h.0
  all_names h prometheus_operator_user_workload = h.1.0
  all_names h cluster_monitoring_operator = h.1.1.0
  all_names h grafana = h.1.1.1.0
  all_names h prometheus = h.1.1.1.1.0
  all_names h prometheus_user_workload = h.1.1.1.1.1.0
  all_names h alertmanager = h.1.1.1.1.1.1.0
  all_names h node_exporter = h.1.1.1.1.1.1.1.0
  all_names h kube_state_metrics = h.1.1.1.1.1.1.1.1.0
  all_names h open_shift_state_metrics = h.1.1.1.1.1.1.1.1.1.0
  all_names h prometheus_adapter = h.1.1.1.1.1.1.1.1.1.1.0
  all_names h telemeter = h.1.1.1.1.1.1.1.1.1.1.1.0
  all_names h config_sharing = h.1.1.1.1.1.1.1.1.1.1.1.1.0
  all_names h thanos_querier = h.1.1.1.1.1.1.1.1.1.1.1.1.1.0
  all_names h thanos_ruler = h.1.1.1.1.1.1.1.1.1.1.1.1.1.1.0

  some_name : (ns : List TaskName) → Some P (map g ns) → (n : TaskName) × P (g n)
  some_name [] h = absurd h
  some_name (n ∷ ns) (inl p) = (n, p)
  some_name (n ∷ ns) (inr h) = some_name ns h

module _ {S B X K : Type 0} (o : Operator S B) (is_group : IsGroup o.group) (c : Client S B)
    (libs : Libraries S X K) (f : Config B → Factory B)
    (listed : (config : Config B)
      → o.tasks config ≡ task_list c o.namespace libs (f config) config) where
  -- The `Run` of a task in a configuration.
  abbrev pub run_of : Config B → TaskName → M S (Unit {0})
  run_of config = task_run c o.namespace libs (f config) config

  -- A sync of the fifteen tasks that returns no error has run each of them, in the loaded
  -- configuration, without an error, and has called `SetDone` last.
  pub sync-AllRun :
      (key : String) (s s' : S)
      → sync o key s ≡ (ok (ok tt), s')
      → (config : Config B) × Loaded o key s config
        × ((n : TaskName) → Returned (run_of config n) (ok tt))
        × ReportedDone o s'
  sync-AllRun key s s' h =
      let (config, loaded, all, done) = sync-eq-ok o is_group key s s' h in
      (
        config,
        loaded,
        all_names (task_spec c o.namespace libs (f config) config) (λ ts. Returned ts.task (ok tt))
            (subst (All (λ ts. Returned ts.task (ok tt))) (listed config) all),
        done,
      )

  -- A sync of the fifteen tasks that returns an error has either reported an invalid configuration, or
  -- one of them has failed, and its error and its name are reported by `SetFailed`.
  pub sync-SomeFailed :
      (key : String) (e : Error) (s s' : S)
      → sync o key s ≡ (ok (err e), s')
      → ConfigFailed o key s e s'
        ⊎ ((config : Config B) × Loaded o key s config
            × (n : TaskName) × Failed
                (task_name n)
                e
                (task_spec c o.namespace libs (f config) config n)
            × ReportedFailed o e (failed_task_reason (task_name n)) s')
  sync-SomeFailed key e s s' h = elim (sync-eq-err o is_group key e s s' h) [
    | inr p ↦ inl p
    | inl (name, config, loaded, some_failed, reported) ↦
        let spec : TaskName → TaskSpec S = task_spec c o.namespace libs (f config) config in
        let (n, p) =
          some_name spec (Failed name e) task_names
            (subst (Some (Failed name e)) (listed config) some_failed) in
        inr (
          config,
          loaded,
          n,
          subst (λ x. Failed x e (spec n)) (sym p.0) p,
          subst (λ x. ReportedFailed o e (failed_task_reason x) s') (sym p.0) reported,
        )
  ]
