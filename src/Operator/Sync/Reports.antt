-- ===== src/Operator/Sync/Reports.antt =====
-- What the operator has reported, and what is in its queue, after a sync.
use cluster_monitoring_opera.Base.{
  Some, String, Bool, true, false, Option, none, some, ◌≡◌, refl, ◌⊎◌, inl, inr, ◌∙◌, ap, All,
  subst, Error, Result, ok, err, attempt, ◌>>=◌, >>=-eq-ok, then_run,
}
use cluster_monitoring_opera.Config.{Config}
use cluster_monitoring_opera.Status.Reporter.{set_failed, set_in_progress, set_done}
use cluster_monitoring_opera.Tasks.Runner.{Returned, IsGroup, Failed, run_all-eq-ok, run_all-eq-err}
use cluster_monitoring_opera.Operator.{Operator}
use cluster_monitoring_opera.Operator.Loads.{config}
use cluster_monitoring_opera.Operator.Sync.{
  failed_task_reason, with_settings, run_tasks, report_failed, by_tasks, by_config, sync, by_sync,
  process_item, process_next_work_item,
}

module _ {S B : Type 0} (o : Operator S B) where
  -- The state is what a call of the reporter left, whether or not that failed.
  abbrev pub ReportedDone : S → Type 0
  ReportedDone s' = (t : S) × ((set_done o.reporter t).1 ≡ s')

  abbrev pub ReportedFailed : Error → String → S → Type 0
  ReportedFailed e reason s' = (t : S) × ((set_failed o.reporter e reason t).1 ≡ s')

  report_failed-eq-ok :
      (e : Error) (reason : String) (r : Result (Unit {0})) (s s' : S)
      → report_failed o e reason s ≡ (ok r, s')
      → (r ≡ err e) × ReportedFailed e reason s'
  report_failed-eq-ok e reason r s s' h = (cc, (s, cc))

  by_tasks-eq-ok :
      (name : String) (r x : Result (Unit {0})) (s s' : S)
      → by_tasks o (name, x) s ≡ (ok r, s')
      → ((r ≡ ok tt) × (x ≡ ok tt) × ReportedDone s')
        ⊎ ((e : Error) × (r ≡ err e) × (x ≡ err e) × ReportedFailed e (failed_task_reason name) s')
  by_tasks-eq-ok name r (ok _) s s' h = inl (cc, refl, (s, cc))
  by_tasks-eq-ok name r (err e) s s' h =
      let (p, q) = report_failed-eq-ok e (failed_task_reason name) r s s' h in inr (e, p, refl, q)

  -- The configuration that `Config` has returned for the key, with the settings of the operator.
  abbrev pub Loaded : String → S → Config B → Type 0
  Loaded key s c =
      (loaded : Config B) × (t u : S) × (config o key s ≡ (ok (ok loaded), t))
      × (with_settings o loaded t ≡ (ok c, u))

  -- Every task of the loaded configuration has run and returned no error, and `SetDone` was the last
  -- call.
  abbrev pub AllDone : String → S → S → Type 0
  AllDone key s s' =
      (c : Config B) × Loaded key s c
      × All (λ ts. Returned ts.task (ok tt)) (o.tasks c)
      × ReportedDone s'

  -- A task of the loaded configuration has failed with the error, and `SetFailed` with its name was
  -- the last call.
  abbrev pub TaskFailed : String → S → Error → S → Type 0
  TaskFailed key s e s' =
      (name : String) × (c : Config B) × Loaded key s c
      × Some (Failed name e) (o.tasks c)
      × ReportedFailed e (failed_task_reason name) s'

  -- The configuration could not be loaded, and `SetFailed` was the last call.
  abbrev pub ConfigFailed : String → S → Error → S → Type 0
  ConfigFailed key s e s' =
      (t : S) × (config o key s ≡ (ok (err e), t)) × ReportedFailed e "InvalidConfiguration" s'

  module _ (is_group : IsGroup o.group) where
    by_config-eq-ok :
        (c : Config B) (r : Result (Unit {0})) (s s' : S)
        → by_config o (ok c) s ≡ (ok r, s')
        → (c' : Config B) × (t : S) × (with_settings o c s ≡ (ok c', t))
          × (((r ≡ ok tt) × All (λ ts. Returned ts.task (ok tt)) (o.tasks c') × ReportedDone s')
              ⊎ ((e : Error) × (r ≡ err e)
                  × (name : String) × Some (Failed name e) (o.tasks c')
                  × ReportedFailed e (failed_task_reason name) s'))
    by_config-eq-ok c r s s' h =
        let (c', t, w, q) = >>=-eq-ok (with_settings o c) _ r s s' h in
        let (_, u, _, q') =
          >>=-eq-ok (attempt (set_in_progress o.reporter)) (λ _. run_tasks o c' >>= by_tasks o) r t
            s' q in
        let ((name, x), v, p, q'') = >>=-eq-ok (run_tasks o c') (by_tasks o) r u s' q' in
        (
          c',
          t,
          w,
          elim (by_tasks-eq-ok name r x v s' q'') [
            | inl (a, b, d) ↦ inl (
              a,
              run_all-eq-ok o.group is_group (o.tasks c') name u v
                  (p ∙ ap (λ y. (ok (name, y), v)) b),
              d,
            )
            | inr (e, a, b, d) ↦ inr (
              e,
              a,
              name,
              run_all-eq-err o.group is_group (o.tasks c') name e u v
                  (p ∙ ap (λ y. (ok (name, y), v)) b),
              d,
            )
          ],
        )

    sync_outcome :
        (key : String) (r : Result (Unit {0})) (s s' : S)
        → sync o key s ≡ (ok r, s')
        → ((r ≡ ok tt) × AllDone key s s')
          ⊎ ((e : Error) × (r ≡ err e) × (TaskFailed key s e s' ⊎ ConfigFailed key s e s'))
    unfolding sync
    sync_outcome key r s s' h =
        let (c, t, p, q) = >>=-eq-ok (config o key) (by_config o) r s s' h in from_config c t p q
      where
        from_config :
            (c : Result (Config B)) (t : S)
            → config o key s ≡ (ok c, t)
            → by_config o c t ≡ (ok r, s')
            → ((r ≡ ok tt) × AllDone key s s')
              ⊎ ((e : Error) × (r ≡ err e) × (TaskFailed key s e s' ⊎ ConfigFailed key s e s'))
        from_config (err e) t p q =
            let (a, b) = report_failed-eq-ok e "InvalidConfiguration" r t s' q in
            inr (e, a, inr (t, p, b))
        from_config (ok c) t p q =
            let (c', u, w, x) = by_config-eq-ok c r t s' q in
            elim x [
              | inl (a, b, d) ↦ inl (a, (c', (c, t, u, p, w), b, d))
              | inr (e, a, name, b, d) ↦ inr (e, a, inl (name, c', (c, t, u, p, w), b, d))
            ]

    -- With an error group that waits for its functions: a sync that returns no error has loaded
    -- its configuration by `Config`, put the settings of the operator into it, and run every task of
    -- that configuration; each of them has returned no error, and the last call is `SetDone`.
    pub sync-eq-ok : (key : String) (s s' : S) → sync o key s ≡ (ok (ok tt), s') → AllDone key s s'
    sync-eq-ok key s s' h = elim (sync_outcome key (ok tt) s s' h) [
      | inl (_, x) ↦ x
      | inr (e, a, _) ↦ absurd cc
    ]

    -- With an error group that waits for its functions: a sync that returns an error has reported
    -- it by `SetFailed` as its last call, an error of the configuration as "InvalidConfiguration",
    -- and else one that a task failed with, under its name.
    pub sync-eq-err :
        (key : String) (e : Error) (s s' : S)
        → sync o key s ≡ (ok (err e), s')
        → TaskFailed key s e s' ⊎ ConfigFailed key s e s'
    sync-eq-err key e s s' h = elim (sync_outcome key (err e) s s' h) [
      | inl (a, _) ↦ absurd cc
      | inr (x, a, b) ↦
          (let q : x ≡ e = cc in subst (λ y. TaskFailed key s y s' ⊎ ConfigFailed key s y s') q b)
    ]

  -- The two ends of an item of the queue: it is forgotten if its sync returned no error, and else it
  -- is counted and put back under the rate limit. `Done` is last in both.
  abbrev pub Synced : String → S → S → Type 0
  Synced key s s' =
      (t : S) × (((sync o key (o.count_attempt s) ≡ (ok (ok tt), t))
          × (s' ≡ o.queue.finish key (o.queue.forget key t)))
        ⊎ ((e : Error) × (sync o key (o.count_attempt s) ≡ (ok (err e), t))
            × (s' ≡ o.queue.finish key (o.queue.add_rate_limited key (o.count_error t)))))

  process_item-eq-true :
      (key : String) (b : Bool) (s s' : S) → process_item o (some key, s) ≡ (ok b, s') → b ≡ true
  process_item-eq-true key b s s' h =
      go (sync o key (o.count_attempt s)).0 (sync o key (o.count_attempt s)).1 h
    where
      go :
          (r : Result (Result (Unit {0}))) (t : S)
          → (let (x, u) = then_run (by_sync o key) r t in
              ◌≡◌ {A = Result Bool × S} (x, o.queue.finish key u) (ok b, s'))
          → b ≡ true
      go (err e) t k = cc
      go (ok (ok _)) t k = cc
      go (ok (err e)) t k = cc

  process_item-Synced :
      (key : String) (b : Bool) (s s' : S)
      → process_item o (some key, s) ≡ (ok b, s')
      → Synced key s s'
  process_item-Synced key b s s' h =
      go (sync o key (o.count_attempt s)).0 (sync o key (o.count_attempt s)).1 refl h
    where
      go :
          (r : Result (Result (Unit {0}))) (t : S)
          → sync o key (o.count_attempt s) ≡ (r, t)
          → (let (x, u) = then_run (by_sync o key) r t in
              ◌≡◌ {A = Result Bool × S} (x, o.queue.finish key u) (ok b, s'))
          → Synced key s s'
      go (err e) t p k = cc
      go (ok (ok _)) t p k = (t, inl (p, cc))
      go (ok (err e)) t p k = (t, inr (e, p, cc))

  -- `processNextWorkItem` stops the worker only at the shutdown of the queue. Else it syncs the item
  -- that it takes, and forgets it if that returned no error; if not, it counts the error and puts the
  -- item back under the rate limit.
  pub process_next_work_item-Synced :
      (b : Bool) (s s' : S)
      → process_next_work_item o s ≡ (ok b, s')
      → ((b ≡ false) × (o.queue.get s ≡ (none, s')))
        ⊎ ((key : String) × (t : S) × (b ≡ true)
            × (o.queue.get s ≡ (some key, t))
            × Synced key t s')
  unfolding process_next_work_item
  process_next_work_item-Synced b s s' h = go (o.queue.get s).0 (o.queue.get s).1 refl h
    where
      go :
          (k : Option String) (t : S)
          → o.queue.get s ≡ (k, t)
          → process_item o (k, t) ≡ (ok b, s')
          → ((b ≡ false) × (o.queue.get s ≡ (none, s')))
            ⊎ ((key : String) × (t : S) × (b ≡ true)
                × (o.queue.get s ≡ (some key, t))
                × Synced key t s')
      go none t p q = inl (cc, cc)
      go (some key) t p q =
          inr (key, t, process_item-eq-true key b t s' q, p, process_item-Synced key b t s' q)
