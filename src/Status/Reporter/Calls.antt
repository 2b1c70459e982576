-- ===== src/Status/Reporter/Calls.antt =====
-- What a reader of the ClusterOperator finds after the reporter's calls, on an API server that keeps
-- what it accepts.
use mathlib.Core.Option
use cluster_monitoring_opera.Base.{
  ℕ, String, false, some, string_eq, ◌≡◌, refl, ◌∙◌, ap, subst, ◌<>◌, arith, Error, Result, ok, err,
  M, pure, attempt, ◌>>=◌, >>=-eq-ok, attempt-eq-ok,
}
use cluster_monitoring_opera.Status.Conditions.{
  available, progressing, degraded, upgradeable, condition_true, condition_false,
  ClusterOperatorStatus, first_version,
}
use cluster_monitoring_opera.Status.Reporter.{
  ClusterOperator, StatusReporter, related_objects, done_status, in_progress_status, failed_status,
  new_cluster_operator, created, or_create, get_or_create, set_done, set_in_progress, set_failed,
}
use cluster_monitoring_opera.Status.Reporter.Written.{
  reported, message_of, done_status_reports, failed_status_reports, in_progress-done,
}
use cluster_monitoring_opera.Words.{to_pascal_case}

-- What the API server documents: an accepted object is what a read returns, an object keeps its
-- name, and a create is not answered by "not found".
pub record IsLawful {S : Type 0} (r : StatusReporter S) : Type 0 where
  pub get-update :
      (co co' : ClusterOperator) (s s' : S)
      → r.update_status co s ≡ (ok co', s')
      → r.get co.name s' ≡ (ok co, s')
  pub get_name :
      (n : String) (co : ClusterOperator) (s s' : S) → r.get n s ≡ (ok co, s') → co.name ≡ n
  pub create_name :
      (co co' : ClusterOperator) (s s' : S) → r.create co s ≡ (ok co', s') → co'.name ≡ co.name
  pub create_finds :
      (co : ClusterOperator) (e : Error) (s s' : S)
      → r.create co s ≡ (err e, s')
      → r.is_not_found e ≡ false

module _ {S : Type 0} (r : StatusReporter S) (lawful : IsLawful r) where
  created_name :
      (made : Result ClusterOperator) (fresh co : ClusterOperator) (s t s' : S)
      → r.create fresh s ≡ (made, t)
      → created r made t ≡ (ok co, s')
      → co.name ≡ fresh.name
  created_name (ok co') fresh co s t s' p h = ground (arith, lawful.create_name fresh co' s t)
  created_name (err e) fresh co s t s' p h = ground (arith, lawful.create_finds fresh e s t)

  create_fresh_name :
      (co : ClusterOperator) (s s' : S)
      → (do fresh ← new_cluster_operator r; made ← attempt (r.create fresh); created r made) s
        ≡ (ok co, s')
      → co.name ≡ r.cluster_operator_name
  unfolding new_cluster_operator
  create_fresh_name co s s' h =
      let (fresh, t, p, q) = >>=-eq-ok (new_cluster_operator r) _ co s s' h in
      let (made, u, p', q') = >>=-eq-ok (attempt (r.create fresh)) (created r) co t s' q in
      created_name made fresh co t u s' (attempt-eq-ok (r.create fresh) made t u p') q'
      ∙ ground arith

  get_or_create_name :
      (co : ClusterOperator) (s s' : S)
      → get_or_create r s ≡ (ok co, s')
      → co.name ≡ r.cluster_operator_name
  unfolding get_or_create
  get_or_create_name co s s' h =
      let (found, t, p, q) =
        >>=-eq-ok (attempt (r.get r.cluster_operator_name)) (or_create r) co s s' h in
      by_found found t (attempt-eq-ok (r.get r.cluster_operator_name) found s t p) q
    where
      by_found :
          (found : Result ClusterOperator) (t : S)
          → r.get r.cluster_operator_name s ≡ (found, t)
          → or_create r found t ≡ (ok co, s')
          → co.name ≡ r.cluster_operator_name
      by_found (ok co') t p q = ground (arith, lawful.get_name r.cluster_operator_name co' s t)
      by_found (err e) t p q = ground (arith, create_fresh_name co t s')

  -- The last three calls of every setter, with the status that it computes.
  abbrev report : (ℕ → ClusterOperatorStatus → ClusterOperatorStatus) → M S (Unit {0})
  report f = do
    co ← get_or_create r
    time ← r.now
    updated ← r.update_status (record co { status = f time co.status })
    pure tt

  abbrev pub Finds : (ClusterOperatorStatus → Type 0) → S → Type 0
  Finds P s = (co : ClusterOperator) × (r.get r.cluster_operator_name s ≡ (ok co, s)) × P co.status

  report-Finds :
      (f : ℕ → ClusterOperatorStatus → ClusterOperatorStatus) (s s' : S)
      → report f s ≡ (ok tt, s')
      → (time : ℕ) × (old : ClusterOperator) × (t : S) × (get_or_create r s ≡ (ok old, t))
        × Finds (λ st. st ≡ f time old.status) s'
  report-Finds f s s' h =
      let (co, t, p, q) = >>=-eq-ok (get_or_create r) _ tt s s' h in
      let (time, u, _, q') = >>=-eq-ok r.now _ tt t s' q in
      let new : ClusterOperator = record co { status = f time co.status } in
      let (co', v, p'', q'') = >>=-eq-ok (r.update_status new) _ tt u s' q' in
      let at_end : r.update_status new u ≡ (ok co', s') = p'' ∙ ground arith in
      let named : new.name ≡ r.cluster_operator_name = get_or_create_name co s t p in
      (
        time,
        co,
        t,
        p,
        (
          new,
          subst (λ n. r.get n s' ≡ (ok new, s')) named (lawful.get-update new co' u s' at_end),
          refl,
        ),
      )

  -- On a server that keeps what it accepts: after a `SetDone` that returns no error a reader finds
  -- the operator available, not progressing, not degraded and upgradeable, at the reporter's
  -- version.
  pub set_done-Finds :
      (s s' : S)
      → set_done r s ≡ (ok tt, s')
      → Finds
          (λ st.
            (reported st available ≡ some condition_true)
            × (reported st progressing ≡ some condition_false)
            × (reported st degraded ≡ some condition_false)
            × (reported st upgradeable ≡ some condition_true)
            × (first_version st.versions ≡ r.version))
          s'
  unfolding set_done
  set_done-Finds s s' h =
      let (time, old, t, _, (co, p, e)) = report-Finds (done_status r.version) s s' h in
      let (a, b, c, d, v, _) = done_status_reports r.version time old.status in
      (co, p, rw e (a, b, c, d, v))

  -- On a server that keeps what it accepts: after a `SetFailed` that returns no error a reader
  -- finds the operator not available, not progressing, degraded and upgradeable, with the text of
  -- the error.
  pub set_failed-Finds :
      (status_err : Error) (reason : String) (s s' : S)
      → set_failed r status_err reason s ≡ (ok tt, s')
      → Finds
          (λ st.
            (reported st available ≡ some condition_false)
            × (reported st progressing ≡ some condition_false)
            × (reported st degraded ≡ some condition_true)
            × (message_of st degraded
                ≡ some ("Failed to rollout the stack. Error: " <> r.error_text status_err))
            × (reported st upgradeable ≡ some condition_true))
          s'
  unfolding set_failed
  set_failed-Finds status_err reason s s' h =
      let text = r.error_text status_err in
      let pascal = to_pascal_case reason in
      let (time, old, t, _, (co, p, e)) =
        report-Finds (failed_status r.version text pascal) s s' h in
      let (a, b, c, m, d, _) = failed_status_reports r.version text pascal time old.status in
      (co, p, rw e (a, b, c, m, d))

  get_or_create_found :
      (co : ClusterOperator) (s : S)
      → r.get r.cluster_operator_name s ≡ (ok co, s)
      → get_or_create r s ≡ (ok co, s)
  unfolding get_or_create
  get_or_create_found co s h = ground arith

  -- On a server that keeps what it accepts: if `SetDone` and then `SetInProgress` at the same
  -- version return no error, a reader finds the operator available, not progressing and not
  -- degraded. So a repeated sync of a stack that is rolled out does not report progress.
  pub set_done-set_in_progress :
      (s s' s'' : S)
      → set_done r s ≡ (ok tt, s')
      → set_in_progress r s' ≡ (ok tt, s'')
      → Finds
          (λ st.
            (reported st available ≡ some condition_true)
            × (reported st progressing ≡ some condition_false)
            × (reported st degraded ≡ some condition_false))
          s''
  unfolding set_done set_in_progress
  set_done-set_in_progress s s' s'' h k =
      let objects = related_objects r.namespace r.user_workload_namespace in
      let (time, old, t, _, (co, p, e)) = report-Finds (done_status r.version) s s' h in
      let (time', old', t', p', (co', q, e')) =
        report-Finds (in_progress_status r.version objects) s' s'' k in
      let same : old' ≡ co = cc (p', get_or_create_found co s' p) in
      let st : co'.status
          ≡ in_progress_status r.version objects time' (done_status r.version time old.status) =
        e'
        ∙ ap (λ c. in_progress_status r.version objects time' c.status) same
        ∙ ap (in_progress_status r.version objects time') e in
      let reports = done_status_reports r.version time old.status in
      let keeps = in_progress-done r.version objects time time' old.status in
      (
        co',
        q,
        rw st (
          ap (Option.map λ c. c.status) (keeps available (λ e. cc)) ∙ reports.0,
          ap (Option.map λ c. c.status) (keeps progressing (λ e. cc)) ∙ reports.1,
          ap (Option.map λ c. c.status) (keeps degraded (λ e. cc)) ∙ reports.2,
        ),
      )
