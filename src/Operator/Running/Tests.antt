-- ===== src/Operator/Running/Tests.antt =====
-- The theorems on the informers and on `Run` at a small cluster whose store is empty.
use cluster_monitoring_opera.Base.{
  ℕ, zero, ◌<◌, ◌<>◌, String, true, some, List, [], ◌∷◌, string_eq, Result, ok, ◌≡◌, refl,
}
use cluster_monitoring_opera.Operator.Events.{triggers}
use cluster_monitoring_opera.Operator.Events.Laws.{add_times}
use cluster_monitoring_opera.Operator.Watches.{
  secret, updated, added, Object, hears, kind_eq, key_func, deliver,
}
use cluster_monitoring_opera.Operator.Watches.Laws.{deliver-add_times}
use cluster_monitoring_opera.Operator.Running.{
  Signal, stop, tick, change, item, Runtime, run, run_loop,
}
use cluster_monitoring_opera.Operator.Running.Laws.{outcome, has_stop, EndsWith, run-outcome}
use cluster_monitoring_opera.Operator.Running.Queued.{has_item, additions, run_loop-add_times}
use cluster_monitoring_opera.Operator.Tests.{World, working, start}

abbrev meta_namespace_key : Object → Result String
meta_namespace_key obj = ok (obj.namespace <> "/" <> obj.name)

abbrev runtime : Runtime World
runtime = record {
  server_version = λ w. (some (ok "1.20"), w);
  wait_for_cache_sync = λ w. (true, w);
  shut_down = λ w. record w { keys = [] };
}

abbrev grpc_secret : Object
grpc_secret = record { kind = secret; namespace = "openshift-monitoring"; name = "grpc-tls" }

abbrev signals : List Signal
signals = tick ∷ change added grpc_secret ∷ stop ∷ item ∷ []

two_additions : additions working runtime meta_namespace_key signals ≡ 2
unfolding additions hears kind_eq string_eq key_func triggers
two_additions = refl

run-outcome_example :
    EndsWith working runtime meta_namespace_key
      (outcome (some (ok "1.20")) true (has_stop signals))
      (run working runtime meta_namespace_key signals start)
run-outcome_example = run-outcome working runtime meta_namespace_key signals start

grpc_key : triggers working "openshift-monitoring/grpc-tls" ≡ true
unfolding triggers string_eq
grpc_key = refl

deliver-add_times_example :
    (obj : Object) × (meta_namespace_key obj ≡ ok "openshift-monitoring/grpc-tls")
    × (n : ℕ) × (zero < n)
    × (deliver working meta_namespace_key updated obj start ≡ add_times working n start)
deliver-add_times_example =
    deliver-add_times working meta_namespace_key refl (λ e. cc) (λ obj p. refl)
      "openshift-monitoring/grpc-tls" grpc_key start

run_loop-add_times_example :
    (run_loop working runtime meta_namespace_key signals true start).1
    ≡ add_times working (additions working runtime meta_namespace_key signals) start
unfolding has_item
run_loop-add_times_example =
    run_loop-add_times working runtime meta_namespace_key (λ w. refl) signals true start refl
