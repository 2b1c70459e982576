-- ===== src/Operator/Running.antt =====
-- `Run` of pkg/operator/operator.go and the loop of its worker. The goroutines are a sequence of
-- signals: what each of them does, in the order in which they do it.
pub mod Laws
pub mod Queued
mod Tests
use cluster_monitoring_opera.Base.{
  ℕ, zero, suc, String, Bool, true, false, Option, none, some, List, [], ◌∷◌, if◌then◌else◌, Error,
  Result, ok, err, wrap, message, M,
}
use cluster_monitoring_opera.Client.{Resource, Contents}
use cluster_monitoring_opera.Operator.{Operator}
use cluster_monitoring_opera.Operator.Events.{cmo_config_map, enqueue}
use cluster_monitoring_opera.Operator.Watches.{Change, Object, deliver}
use cluster_monitoring_opera.Operator.Sync.{process_next_work_item}

-- What the loop of `Run` and its goroutines meet: the stop channel, the ticker, a change of a watched
-- object, and an item of the worker.
pub data Signal : Type 0 where
  stop : Signal
  tick : Signal
  change : Change → Object → Signal
  item : Signal

-- The calls of `Run` to libraries.
pub record Runtime (S : Type 0) : Type 0 where
  -- `ServerVersion`, or none where the stop channel is closed before it answers.
  pub server_version : S → Option (Result String) × S
  -- The informers run, and `WaitForCacheSync` tells whether their caches are filled.
  pub wait_for_cache_sync : S → Bool × S
  pub shut_down : S → S

module _ {S B : Type 0} (o : Operator S B) (r : Runtime S)
    (meta_namespace_key : Object → Result String) where
  abbrev pub enqueue_unless : Result (Option (Resource Contents)) → S → S
  enqueue_unless (ok (some _)) s = s
  enqueue_unless _ s = enqueue o (cmo_config_map o) s

  -- The key is put into the queue if the store has no ConfigMap under it; an error is dropped.
  unfoldable pub enqueue_if_missing : S → S
  enqueue_if_missing s =
      let (found, s') = o.config_map_by_key (cmo_config_map o) s in enqueue_unless found s'

  -- Once the loop of `worker` has ended, no item is taken any more. A panic of the worker ends the
  -- process.
  abbrev pub unless_panic :
      (Bool → S → Option (Result (Unit {0})) × S) → Result Bool × S → Option (Result (Unit {0})) × S
  unless_panic rest (ok working, s) = rest working s
  unless_panic rest (err e, s) = (some (err e), s)

  -- The loop of `Run`, whose result is there once it has returned. The first argument says whether
  -- `worker` is in its loop.
  unfoldable pub run_loop : List Signal → Bool → S → Option (Result (Unit {0})) × S
  run_loop [] working s = (none, s)
  run_loop (stop ∷ signals) working s = (some (ok tt), s)
  run_loop (tick ∷ signals) working s = run_loop signals working (enqueue_if_missing s)
  run_loop (change c obj ∷ signals) working s =
      run_loop signals working (deliver o meta_namespace_key c obj s)
  run_loop (item ∷ signals) false s = run_loop signals false s
  run_loop (item ∷ signals) true s = unless_panic (run_loop signals) (process_next_work_item o s)

  abbrev pub by_synced : List Signal → Bool → S → Option (Result (Unit {0})) × S
  by_synced signals false s = (some (err (message "failed to sync informers")), s)
  by_synced signals true s = run_loop signals true (enqueue_if_missing s)

  abbrev pub by_version : List Signal → Option (Result String) → S → Option (Result (Unit {0})) × S
  by_version signals none s = (some (ok tt), s)
  by_version signals (some (err e)) s = (some (err (wrap e "communicating with server failed")), s)
  by_version signals (some (ok v)) s =
      let (synced, s') = r.wait_for_cache_sync s in by_synced signals synced s'

  -- The deferred `ShutDown`, when `Run` returns.
  abbrev pub shut_down_at_end : Option (Result (Unit {0})) × S → Option (Result (Unit {0})) × S
  shut_down_at_end (none, s) = (none, s)
  shut_down_at_end (some res, s) = (some res, r.shut_down s)

  unfoldable pub run : List Signal → S → Option (Result (Unit {0})) × S
  run signals s =
      let (version, s') = r.server_version s in shut_down_at_end (by_version signals version s')
