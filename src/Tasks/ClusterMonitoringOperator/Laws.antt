-- ===== src/Tasks/ClusterMonitoringOperator/Laws.antt =====
-- What the task of the operator itself leaves on the cluster.
use cluster_monitoring_opera.Base.{
  true, Error, err, ◌⊎◌, inl, inr, sym, arith, refl, String, Option, ◌≡◌, ap, ◌∙◌, Result, ok, err,
  M, give, wrapped, attempt, ◌>>=◌, Ensures, any-Ensures, wrapped-eq-ok, attempt-eq-ok, >>=-eq-ok,
}
use cluster_monitoring_opera.Client.{Resource, Contents, Client}
use cluster_monitoring_opera.Client.Apply.{
  create_or_update_role, create_or_update_secret, create_or_update_service,
  create_or_update_service_monitor,
}
use cluster_monitoring_opera.Client.Apply.Laws.{IsStore, Finds, create_or_update_secret-Finds}
use cluster_monitoring_opera.Client.Metadata.{IsMergo}
use cluster_monitoring_opera.Manifests.Rotation.{Crypto, rotate_grpc_secret}
use cluster_monitoring_opera.Manifests.Rotation.Laws.{Rotated, rotate_grpc_secret-Rotated}
use cluster_monitoring_opera.Tasks.Secrets.{wrap_unless_panic}
use cluster_monitoring_opera.Tasks.ClusterMonitoringOperator.{
  ClusterMonitoringOperatorFactory, as_made, as_read, as_written, cluster_role_methods,
  reconcile_cluster_roles, choose_secret, run_cluster_monitoring_operator,
}

-- What a call that succeeds has returned, and the state that it has left.
abbrev LeadsTo : {S A : Type 0} → M S A → (A → S → Type 0) → Type 0
LeadsTo {S} {A} m Q = (a : A) (s t : S) → m s ≡ (ok a, t) → Q a t

module _ {S A B : Type 0} where
  >>=-LeadsTo :
      (m : M S A) (f : A → M S B) (P : A → Type 0) (Q : B → S → Type 0)
      → Ensures m P
      → ((a : A) → P a → LeadsTo (f a) Q)
      → LeadsTo (m >>= f) Q
  >>=-LeadsTo m f P Q g h b s t e =
      let (a, u, p, q) = >>=-eq-ok m f b s t e in h a (g a s u p) b u t q

-- The value of a result that is not an error.
give_unless-Ensures :
    {S A : Type 0} (text : String) (r : Result A)
    → Ensures {S = S} (give (wrap_unless_panic text r)) (λ a. r ≡ ok a)
give_unless-Ensures text (ok x) a s t e = cc
give_unless-Ensures text (err x) a s t e = cc

attempt-Ensures : {S A : Type 0} (m : M S A) → Ensures (attempt m) (λ r. (u v : S) × (m u ≡ (r, v)))
attempt-Ensures m r s t e = (s, t, attempt-eq-ok m r s t e)

read_factory-Ensures :
    {S A : Type 0} (text : String) (r : Result A)
    → Ensures {S = S} (wrapped text (give r)) (λ a. r ≡ ok a)
read_factory-Ensures text r a s t h = let e = wrapped-eq-ok text (give r) a s t h in cc

module _ {S B X K : Type 0} (c : Client S B) (f : ClusterMonitoringOperatorFactory B)
    (cr : Crypto S X K) where
  -- The secret that is rotated, for what a read of the manifests' secret by its name returns: the one
  -- that the cluster has, or that of the manifests where the server says that there is none.
  abbrev pub Chosen : Resource (Option Contents) → Type 0
  Chosen secret =
      (made : Resource Contents) × (read : Result (Resource Contents)) × (u v : S) × (f.grpc_secret
        ≡ ok made)
      × (c.secrets.get made.meta.namespace made.meta.name u ≡ (read, v))
      × (((loaded : Resource Contents) × (read ≡ ok loaded) × (secret ≡ as_read loaded))
          ⊎ ((e : Error) × (read ≡ err e) × (c.is_not_found e ≡ true) × (secret ≡ as_made made)))

  -- That secret was rotated without an error, and has been applied without one, at the end.
  abbrev AppliesRotated : S → Type 0
  AppliesRotated t =
      (s s' : Resource (Option Contents)) × (u : S) × Chosen s
      × Rotated cr s s'
      × (create_or_update_secret c (as_written s') u ≡ (ok tt, t))

  choose_secret-Chosen :
      (made : Resource Contents) (read : Result (Resource Contents)) (u v : S)
      → f.grpc_secret ≡ ok made
      → c.secrets.get made.meta.namespace made.meta.name u ≡ (read, v)
      → Ensures (choose_secret c f cr made read) Chosen
  unfolding choose_secret
  choose_secret-Chosen made (ok loaded) u v p q s t t' h =
      let same : as_read loaded ≡ s = cc in
      (made, ok loaded, u, v, p, q, inl (loaded, refl, sym same))
  choose_secret-Chosen made (err e) u v p q s t t' h =
      let (missing, same) : (c.is_not_found e ≡ true) × (as_made made ≡ s) = ground arith in
      (made, err e, u, v, p, q, inr (e, refl, missing, sym same))

  -- The last three statements.
  abbrev end : Resource (Option Contents) → M S (Unit {0})
  end s = do
    rotated ← attempt (rotate_grpc_secret cr s)
    s' ←
        give
          (wrap_unless_panic "error rotating Cluster Monitoring Operator GRPC TLS secret" rotated)
    wrapped "error creating Cluster Monitoring Operator GRPC TLS secret"
        (create_or_update_secret c (as_written s'))

  from : (s : Resource (Option Contents)) → Chosen s → LeadsTo (end s) (λ _. AppliesRotated)
  from s chosen =
      >>=-LeadsTo (attempt (rotate_grpc_secret cr s))
        (λ rotated.
          give
            (wrap_unless_panic "error rotating Cluster Monitoring Operator GRPC TLS secret" rotated)
          >>= λ s'.
              wrapped "error creating Cluster Monitoring Operator GRPC TLS secret"
                (create_or_update_secret c (as_written s')))
        _ _ (attempt-Ensures (rotate_grpc_secret cr s))
        λ rotated (u, v, p).
          >>=-LeadsTo
            (give (
              wrap_unless_panic "error rotating Cluster Monitoring Operator GRPC TLS secret"
                rotated))
            (λ s'.
              wrapped "error creating Cluster Monitoring Operator GRPC TLS secret"
                (create_or_update_secret c (as_written s')))
            _ _ (give_unless-Ensures _ rotated)
            λ s' q a w t e. (
              s,
              s',
              w,
              chosen,
              rotate_grpc_secret-Rotated cr s s' u v (p ∙ ap (λ r. (r, v)) q),
              wrapped-eq-ok _ (create_or_update_secret c (as_written s')) tt w t e,
            )

  run-AppliesRotated : LeadsTo (run_cluster_monitoring_operator c f cr) (λ _. AppliesRotated)
  unfolding run_cluster_monitoring_operator
  run-AppliesRotated =
      >>=-LeadsTo
        (wrapped "initializing Cluster Monitoring Operator Service failed"
          (give f.cluster_monitoring_operator_service))
        _ _ _ (any-Ensures _)
        λ svc _.
          >>=-LeadsTo
            (wrapped "reconciling Cluster Monitoring Operator Service failed"
              (create_or_update_service c svc))
            _ _ _ (any-Ensures _)
            λ _ _.
              >>=-LeadsTo (reconcile_cluster_roles c f cr (cluster_role_methods c f cr)) _ _ _
                (any-Ensures _)
                λ _ _.
                  >>=-LeadsTo
                    (wrapped "initializing UserWorkloadConfigEdit Role failed"
                      (give f.cluster_monitoring_edit_user_workload_config_role))
                    _ _ _ (any-Ensures _)
                    λ uwcr _.
                      >>=-LeadsTo
                        (wrapped "reconciling UserWorkloadConfigEdit Role failed"
                          (create_or_update_role c uwcr))
                        _ _ _ (any-Ensures _)
                        λ _ _.
                          >>=-LeadsTo
                            (wrapped
                              "initializing Cluster Monitoring Operator ServiceMonitor failed"
                              (give f.cluster_monitoring_operator_service_monitor))
                            _ _ _ (any-Ensures _)
                            λ smcmo _.
                              >>=-LeadsTo
                                (wrapped
                                  "reconciling Cluster Monitoring Operator ServiceMonitor failed"
                                  (create_or_update_service_monitor c smcmo))
                                _ _ _ (any-Ensures _)
                                λ _ _.
                                  >>=-LeadsTo
                                    (wrapped
                                      "error initializing Cluster Monitoring Operator GRPC TLS secret"
                                      (give f.grpc_secret))
                                    _ _ _ (read_factory-Ensures _ f.grpc_secret)
                                    λ s made.
                                      >>=-LeadsTo
                                        (attempt (c.secrets.get s.meta.namespace s.meta.name)) _ _ _
                                        (attempt-Ensures _)
                                        λ read (u, v, p).
                                          >>=-LeadsTo (choose_secret c f cr s read) _ _ _
                                            (choose_secret-Chosen s read u v made p)
                                            λ s chosen. from s chosen

  pub run_cluster_monitoring_operator-Finds :
      IsMergo c.merge
      → IsStore c.secrets
      → (s t : S) → run_cluster_monitoring_operator c f cr s ≡ (ok tt, t)
      → (secret secret' : Resource (Option Contents)) × Chosen secret
        × Rotated cr secret secret'
        × Finds c.secrets (as_written secret') t
  run_cluster_monitoring_operator-Finds mergo store s t h =
      let (secret, secret', u, chosen, rotated, applied) = run-AppliesRotated tt s t h in
      (
        secret,
        secret',
        chosen,
        rotated,
        create_or_update_secret-Finds c mergo store (as_written secret') u t applied,
      )
