-- ===== src/Operator/Running/Laws.antt =====
-- When `Run` returns, and what its loop puts into the queue.
use cluster_monitoring_opera.Base.{
  String, Bool, true, false, Option, none, some, List, [], ◌∷◌, Error, Result, ok, err, wrap,
  message, then_run, ◌≡◌, refl, sym, ap, subst, ◌⊎◌, inl, inr,
}
use cluster_monitoring_opera.Operator.{Operator}
use cluster_monitoring_opera.Operator.Watches.{Object}
use cluster_monitoring_opera.Operator.Sync.{sync, by_sync, process_item, process_next_work_item}
use cluster_monitoring_opera.Operator.Running.{
  Signal, stop, tick, change, item, Runtime, unless_panic, run_loop, by_synced, enqueue_if_missing,
  by_version, shut_down_at_end, run,
}

-- Whether the stop channel is closed.
unfoldable pub has_stop : List Signal → Bool
has_stop [] = false
has_stop (stop ∷ signals) = true
has_stop (_ ∷ signals) = has_stop signals

-- What `Run` returns, by the server's answer, the result of the wait for the caches, and whether the
-- stop channel is closed after that.
unfoldable pub outcome : Option (Result String) → Bool → Bool → Option (Result (Unit {0}))
outcome none synced stopped = some (ok tt)
outcome (some (err e)) synced stopped = some (err (wrap e "communicating with server failed"))
outcome (some (ok v)) false stopped = some (err (message "failed to sync informers"))
outcome (some (ok v)) true true = some (ok tt)
outcome (some (ok v)) true false = none

module _ {S B : Type 0} (o : Operator S B) where
  -- A sync has panicked with the error.
  abbrev pub SyncPanicked : Error → Type 0
  SyncPanicked e = (key : String) × (t u : S) × (sync o key t ≡ (err e, u))

  process_item-cases :
      (x : Option String × S)
      → ((b : Bool) × (t : S) × (process_item o x ≡ (ok b, t)))
        ⊎ ((e : Error) × (t : S) × (process_item o x ≡ (err e, t)) × SyncPanicked e)
  process_item-cases (none, s) = inl (false, s, refl)
  process_item-cases (some key, s) =
      go (sync o key (o.count_attempt s)).0 (sync o key (o.count_attempt s)).1 refl
    where
      after : Result Bool × S → Result Bool × S
      after r = (r.0, o.queue.finish key r.1)

      go :
          (r : Result (Result (Unit {0}))) (t : S)
          → sync o key (o.count_attempt s) ≡ (r, t)
          → ((b : Bool) × (t : S) × (process_item o (some key, s) ≡ (ok b, t)))
            ⊎ ((e : Error) × (t : S) × (process_item o (some key, s) ≡ (err e, t)) × SyncPanicked e)
      go (err e) t p = inr (
        e,
        o.queue.finish key t,
        ap (λ (r : Result (Result (Unit {0})) × S). after (then_run (by_sync o key) r.0 r.1)) p,
        (key, o.count_attempt s, t, p),
      )
      go (ok (ok _)) t p = inl (
        true,
        _,
        ap (λ (r : Result (Result (Unit {0})) × S). after (then_run (by_sync o key) r.0 r.1)) p,
      )
      go (ok (err x)) t p = inl (
        true,
        _,
        ap (λ (r : Result (Result (Unit {0})) × S). after (then_run (by_sync o key) r.0 r.1)) p,
      )

  module _ (r : Runtime S) (meta_namespace_key : Object → Result String) where
    -- The process has ended by a panic of a sync, or it has the outcome.
    abbrev pub EndsWith : Option (Result (Unit {0})) → Option (Result (Unit {0})) × S → Type 0
    EndsWith expected x = (x.0 ≡ expected) ⊎ ((e : Error) × (x.0 ≡ some (err e)) × SyncPanicked e)

    run_loop-stops :
        (signals : List Signal) (working : Bool) (s : S)
        → EndsWith
            (outcome (some (ok "")) true (has_stop signals))
            (run_loop o r meta_namespace_key signals working s)
    unfolding run_loop has_stop outcome process_next_work_item
    run_loop-stops [] working s = inl refl
    run_loop-stops (stop ∷ signals) working s = inl refl
    run_loop-stops (tick ∷ signals) working s = run_loop-stops signals working _
    run_loop-stops (change c obj ∷ signals) working s = run_loop-stops signals working _
    run_loop-stops (item ∷ signals) false s = run_loop-stops signals false s
    run_loop-stops (item ∷ signals) true s = elim (process_item-cases (o.queue.get s)) [
      | inl (b, t, e) ↦
          subst
            (λ x.
              EndsWith (outcome (some (ok "")) true (has_stop signals))
                (unless_panic o r meta_namespace_key (run_loop o r meta_namespace_key signals) x))
            (sym e) (run_loop-stops signals b t)
      | inr (e, t, p, h) ↦ inr (
        e,
        ap
            (λ x.
              (unless_panic o r meta_namespace_key (run_loop o r meta_namespace_key signals) x).0)
            p,
        h,
      )
    ]

    -- `Run` returns just when the server cannot be asked, the caches are not filled, or the stop channel
    -- is closed, with no error in the last case, and else runs on, whatever errors the worker meets;
    -- only a panic of a sync ends it otherwise.
    pub run-outcome :
        (signals : List Signal) (s : S)
        → let (version, s₁) = r.server_version s in
          EndsWith
            (outcome version (r.wait_for_cache_sync s₁).0 (has_stop signals))
            (run o r meta_namespace_key signals s)
    unfolding run outcome
    run-outcome signals s = by_version-outcome (r.server_version s).0 (r.server_version s).1
      where
        shut_down-EndsWith :
            (expected : Option (Result (Unit {0}))) (x : Option (Result (Unit {0})) × S)
            → EndsWith expected x
            → EndsWith expected (shut_down_at_end o r meta_namespace_key x)
        shut_down-EndsWith expected (none, s) h = h
        shut_down-EndsWith expected (some res, s) h = h

        same :
            (v : String) (b : Bool) → outcome (some (ok "")) true b ≡ outcome (some (ok v)) true b
        same v true = refl
        same v false = refl

        by_synced-outcome :
            (v : String) (b : Bool) (s : S)
            → EndsWith (outcome (some (ok v)) b (has_stop signals)) (
                shut_down_at_end o r meta_namespace_key
                  (by_synced o r meta_namespace_key signals b s))
        by_synced-outcome v false s = inl refl
        by_synced-outcome v true s = shut_down-EndsWith _ _ (
            subst
              (λ y. EndsWith y (
                run_loop o r meta_namespace_key signals true
                  (enqueue_if_missing o r meta_namespace_key s)))
              (same v (has_stop signals)) (run_loop-stops signals true _))

        by_version-outcome :
            (version : Option (Result String)) (s : S)
            → EndsWith (outcome version (r.wait_for_cache_sync s).0 (has_stop signals)) (
                shut_down_at_end o r meta_namespace_key
                  (by_version o r meta_namespace_key signals version s))
        by_version-outcome none s = inl refl
        by_version-outcome (some (err e)) s = inl refl
        by_version-outcome (some (ok v)) s = by_synced-outcome v _ _
