-- ===== src/Tasks/Runner.antt =====
-- What `RunAll` returns, for an error group that waits for all its functions.
use cluster_monitoring_opera.Base.{
  is_panic, true, false, M, pure, >>=-eq-ok, then_run, ◌∙◌, arith, String, Option, none, some, List,
  [], ◌∷◌, map, ◌≡◌, refl, Error, Result, ok, err, wrap, ◌<>◌, All, Some, subst, inl, inr,
}
use cluster_monitoring_opera.Tasks.{TaskSpec, TaskErr, task_err, run_task, run_all, named_result}

-- A call from some state that returned this.
abbrev pub Returned : {S R : Type 0} → (S → R × S) → R → Type 0
Returned {S} f r = (t : S) × (t' : S) × (f t ≡ (r, t'))

-- What errgroup documents: `Wait` returns once all functions have, with an error of one of them if
-- one failed. A panic is one of a function, since the group does not recover.
pub record IsGroup {S : Type 0} (group : List (M S (Option TaskErr)) → M S (Option TaskErr))
    : Type 0 where
  pub waits :
      (fs : List (M S (Option TaskErr))) (s s' : S)
      → group fs s ≡ (ok none, s')
      → All (λ f. Returned f (ok none)) fs
  pub fails :
      (fs : List (M S (Option TaskErr))) (e : TaskErr) (s s' : S)
      → group fs s ≡ (ok (some e), s')
      → Some (λ f. Returned f (ok (some e))) fs
  pub panics :
      (fs : List (M S (Option TaskErr))) (e : Error) (s s' : S)
      → group fs s ≡ (err e, s')
      → Some (λ f. Returned f (err e)) fs

-- The error that a task fails with, which is no panic, and its name.
abbrev pub Failed : {S : Type 0} → String → Error → TaskSpec S → Type 0
Failed name e ts =
    (ts.name ≡ name)
    × (x : Error) × (is_panic x ≡ false)
    × (e ≡ wrap x ("running task " <> name <> " failed"))
    × Returned ts.task (err x)

module _ {S : Type 0} (group : List (M S (Option TaskErr)) → M S (Option TaskErr))
    (is_group : IsGroup group) where
  run_task-eq-none : (ts : TaskSpec S) → Returned (run_task ts) (ok none) → Returned ts.task (ok tt)
  unfolding run_task
  run_task-eq-none ts (t, t', h) = go (ts.task t).0 (ts.task t).1 refl h
    where
      go :
          (r : Result (Unit {0})) (u : S)
          → ts.task t ≡ (r, u)
          → ◌≡◌ {A = Result (Option TaskErr) × S} (task_err ts r, u) (ok none, t')
          → Returned ts.task (ok tt)
      go (ok _) u e k = (t, u, e)
      go (err x) u e k = ground arith

  All-Returned :
      (tasks : List (TaskSpec S))
      → All (λ f. Returned f (ok none)) (map run_task tasks)
      → All (λ ts. Returned ts.task (ok tt)) tasks
  All-Returned [] h = tt
  All-Returned (ts ∷ tasks) (p, h) = (run_task-eq-none ts p, All-Returned tasks h)

  run_task-eq-some :
      (ts : TaskSpec S) (e : TaskErr)
      → Returned (run_task ts) (ok (some e))
      → Failed e.name e.error ts
  unfolding run_task
  run_task-eq-some ts e (t, t', h) = go (ts.task t).0 (ts.task t).1 refl h
    where
      go :
          (r : Result (Unit {0})) (u : S)
          → ts.task t ≡ (r, u)
          → ◌≡◌ {A = Result (Option TaskErr) × S} (task_err ts r, u) (ok (some e), t')
          → Failed e.name e.error ts
      go (ok _) u p k = cc
      go (err x) u p k =
          let made : TaskErr = record {
            error = wrap x ("running task " <> ts.name <> " failed");
            name = ts.name;
          } in
          let (no_panic, q) : (is_panic x ≡ false) × (made ≡ e) = ground arith in
          subst (λ c. Failed c.name c.error ts) q (refl, x, no_panic, refl, (t, u, p))

  run_task-eq-err :
      (ts : TaskSpec S) (e : Error)
      → Returned (run_task ts) (err e)
      → (is_panic e ≡ true) × Returned ts.task (err e)
  unfolding run_task
  run_task-eq-err ts e (t, t', h) = go (ts.task t).0 (ts.task t).1 refl h
    where
      go :
          (r : Result (Unit {0})) (u : S)
          → ts.task t ≡ (r, u)
          → ◌≡◌ {A = Result (Option TaskErr) × S} (task_err ts r, u) (err e, t')
          → (is_panic e ≡ true) × Returned ts.task (err e)
      go (ok _) u p k = cc
      go (err x) u p k =
          let (panic, q) : (is_panic x ≡ true) × (x ≡ e) = ground arith in
          subst (λ y. (is_panic y ≡ true) × Returned ts.task (err y)) q (panic, (t, u, p))

  Some-run_task :
      (P : M S (Option TaskErr) → Type 0) (Q : TaskSpec S → Type 0)
      → ((ts : TaskSpec S) → P (run_task ts) → Q ts)
      → (tasks : List (TaskSpec S)) → Some P (map run_task tasks)
      → Some Q tasks
  Some-run_task P Q f [] h = elim h [ ]
  Some-run_task P Q f (ts ∷ tasks) (inl h) = inl (f ts h)
  Some-run_task P Q f (ts ∷ tasks) (inr h) = inr (Some-run_task P Q f tasks h)

  -- With an error group that waits for its functions, `RunAll` returns no error only if every task
  -- has run and returned none.
  pub run_all-eq-ok :
      (tasks : List (TaskSpec S)) (name : String) (s s' : S)
      → run_all group tasks s ≡ (ok (name, ok tt), s')
      → All (λ ts. Returned ts.task (ok tt)) tasks
  unfolding run_all
  run_all-eq-ok tasks name s s' h =
      let (r, t, p, q) =
        >>=-eq-ok (group (map run_task tasks)) (λ e. pure (named_result e)) _ s s' h in
      go r t p q
    where
      go :
          (r : Option TaskErr) (u : S)
          → group (map run_task tasks) s ≡ (ok r, u)
          → ◌≡◌ {A = Result (String × Result (Unit {0})) × S}
              (ok (named_result r), u)
              (ok (name, ok tt), s')
          → All (λ ts. Returned ts.task (ok tt)) tasks
      go none u p k = All-Returned tasks (is_group.waits (map run_task tasks) s u p)
      go (some e) u p k = cc

  -- With an error group that returns an error of one of its functions, an error that `RunAll`
  -- returns is one that a task of that name failed with, wrapped with the name, and no panic.
  pub run_all-eq-err :
      (tasks : List (TaskSpec S)) (name : String) (e : Error) (s s' : S)
      → run_all group tasks s ≡ (ok (name, err e), s')
      → Some (Failed name e) tasks
  unfolding run_all
  run_all-eq-err tasks name e s s' h =
      let (r, t, p, q) =
        >>=-eq-ok (group (map run_task tasks)) (λ e. pure (named_result e)) _ s s' h in
      go r t p q
    where
      go :
          (r : Option TaskErr) (u : S)
          → group (map run_task tasks) s ≡ (ok r, u)
          → ◌≡◌ {A = Result (String × Result (Unit {0})) × S}
              (ok (named_result r), u)
              (ok (name, err e), s')
          → Some (Failed name e) tasks
      go none u p k = cc
      go (some x) u p k =
          let q : x ≡ record { error = e; name = name } = cc in
          subst (λ c. Some (Failed c.name c.error) tasks) q
            (Some-run_task (λ f. Returned f (ok (some x))) (Failed x.name x.error)
              (λ ts. run_task-eq-some ts x) tasks (is_group.fails (map run_task tasks) x s u p))

  -- A task that has panicked.
  abbrev pub Panicked : Error → TaskSpec S → Type 0
  Panicked e ts = (is_panic e ≡ true) × Returned ts.task (err e)

  pub run_all-panics :
      (tasks : List (TaskSpec S)) (e : Error) (s s' : S)
      → run_all group tasks s ≡ (err e, s')
      → Some (Panicked e) tasks
  unfolding run_all
  run_all-panics tasks e s s' h =
      go (group (map run_task tasks) s).0 (group (map run_task tasks) s).1 refl h
    where
      go :
          (r : Result (Option TaskErr)) (u : S)
          → group (map run_task tasks) s ≡ (r, u)
          → then_run (λ e. pure (named_result e)) r u ≡ (err e, s')
          → Some (Panicked e) tasks
      go (ok r) u p k = cc
      go (err x) u p k =
          Some-run_task (λ f. Returned f (err e)) (Panicked e) (λ ts. run_task-eq-err ts e) tasks
            (is_group.panics (map run_task tasks) e s u (p ∙ cc))
