-- ===== src/Tasks/Tests.antt =====
-- The runner's theorems at concrete tasks.
use cluster_monitoring_opera.Base.{
  Some, ℕ, ◌+◌, [], ◌∷◌, ◌≡◌, refl, All, ok, err, Error, status, wrap,
}
use cluster_monitoring_opera.Tasks.{TaskSpec, run_all}
use cluster_monitoring_opera.Tasks.Runner.{Returned, Failed, run_all-eq-ok, run_all-eq-err}
use cluster_monitoring_opera.Tasks.Sequential.{sequential, sequential-IsGroup}

abbrev grafana : TaskSpec ℕ
grafana = record { name = "Updating Grafana"; task = λ s. (ok tt, s + 1) }

abbrev telemeter : TaskSpec ℕ
telemeter = record {
  name = "Updating Telemeter client";
  task = λ s. (err (status 403 "Forbidden"), s);
}

ran : run_all sequential (grafana ∷ grafana ∷ []) 0 ≡ (ok ("", ok tt), 2)
unfolding run_all sequential
ran = refl

run_all-eq-ok_example : All (λ ts. Returned ts.task (ok tt)) (grafana ∷ grafana ∷ [])
run_all-eq-ok_example =
    run_all-eq-ok sequential sequential-IsGroup (grafana ∷ grafana ∷ []) "" 0 2 ran

abbrev forbidden : Error
forbidden = wrap (status 403 "Forbidden") "running task Updating Telemeter client failed"

failed :
    run_all sequential (grafana ∷ telemeter ∷ []) 0
    ≡ (ok ("Updating Telemeter client", err forbidden), 1)
unfolding run_all sequential
failed = refl

run_all-eq-err_example :
    Some (Failed "Updating Telemeter client" forbidden) (grafana ∷ telemeter ∷ [])
run_all-eq-err_example =
    run_all-eq-err sequential sequential-IsGroup (grafana ∷ telemeter ∷ [])
      "Updating Telemeter client" forbidden 0 1 failed
