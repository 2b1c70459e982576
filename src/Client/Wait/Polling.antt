-- ===== src/Client/Wait/Polling.antt =====
-- What a wait that succeeds has seen, given what the API machinery documents of `wait.Poll`.
use cluster_monitoring_opera.Base.{
  ℕ, zero, suc, ◌*◌, ◌≤◌, String, ◌<>◌, Bool, true, false, Option, none, nat_eq, ◌≡◌, refl, ◌∙◌, ap,
  sym, arith, Error, Result, ok, err, timeout, or_wrap, M, wrapped, ◌>>=◌, >>=-eq-ok, wrapped-eq-ok,
}
use cluster_monitoring_opera.Client.{
  Resource, DeploymentBody, DaemonSetBody, ReplicatedBody, ReplicaStatus, Endpoint, Client,
}
use cluster_monitoring_opera.Client.Wait.{
  lift, with_last_error, full_name, wait_for, deployment_status, deployment_rolled_out,
  wait_for_deployment_rollout, daemon_set_status, daemon_set_rolled_out,
  wait_for_daemon_set_rollout, replica_status, replicas_ready, wait_for_prometheus,
  deployment_create_timeout,
}

-- A round that says yes or fails is the last one.
abbrev pub after_round : {T : Type 0} → Result Bool → T → M T (Unit {0}) → Result (Unit {0}) × T
after_round (err e) t again = (err e, t)
after_round (ok true) t again = (ok tt, t)
after_round (ok false) t again = again t

-- A number of rounds of the condition, and then the timeout.
unfoldable pub rounds : {T : Type 0} → ℕ → M T Bool → M T (Unit {0})
rounds zero condition t = (err timeout, t)
rounds (suc n) condition t = let (r, t') = condition t in after_round r t' (rounds n condition)

-- What the API machinery documents of `wait.Poll`: it makes some rounds, at least one.
pub record IsPoll {S B : Type 0} (c : Client S B) : Type 1 where
  pub poll_rounds :
      (L : Type 0) (interval seconds : ℕ) (condition : M (S × L) Bool) (t : S × L)
      → (n : ℕ) × (c.poll L interval seconds condition t ≡ rounds (suc n) condition t)

after_round-eq-ok :
    {T : Type 0} (condition : M T Bool) (again : M T (Unit {0})) (t t' : T)
    → ((u : T) → again u ≡ (ok tt, t') → (v : T) × (condition v ≡ (ok true, t')))
    → (r : Result Bool) (u : T) → condition t ≡ (r, u)
    → after_round r u again ≡ (ok tt, t')
    → (v : T) × (condition v ≡ (ok true, t'))
after_round-eq-ok condition again t t' later (err e) u p h = cc
after_round-eq-ok condition again t t' later (ok true) u p h = (t, cc)
after_round-eq-ok condition again t t' later (ok false) u p h = later u h

-- Rounds that end well end with a condition that has said yes.
pub rounds-eq-ok :
    {T : Type 0} (n : ℕ) (condition : M T Bool) (t t' : T)
    → rounds n condition t ≡ (ok tt, t')
    → (u : T) × (condition u ≡ (ok true, t'))
unfolding rounds
rounds-eq-ok zero condition t t' h = cc
rounds-eq-ok (suc n) condition t t' h =
    after_round-eq-ok condition (rounds n condition) t t' (λ u k. rounds-eq-ok n condition u t' k)
      (condition t).0 (condition t).1 refl h

module _ {S B : Type 0} (c : Client S B) (polls : IsPoll c) where
  wait_for-eq-ok :
      (text : String) (interval seconds : ℕ) (condition : M (S × Option Error) Bool) (s s' : S)
      → wait_for c text interval seconds condition s ≡ (ok tt, s')
      → (u : S × Option Error) × (last : Option Error) × (condition u ≡ (ok true, (s', last)))
  unfolding wait_for
  wait_for-eq-ok text interval seconds condition s s' h =
      let st : S × Option Error = (s, none) in
      let (n, e) = polls.poll_rounds (Option Error) interval seconds condition st in
      let run = c.poll (Option Error) interval seconds condition st in
      let done : run ≡ (ok tt, (s', run.1.1)) = by_result run.0 run.1.0 run.1.1 refl h in
      let (u, q) = rounds-eq-ok (suc n) condition st (s', run.1.1) (sym e ∙ done) in (u, run.1.1, q)
    where
      by_result :
          (r : Result (Unit {0})) (s1 : S) (last : Option Error)
          → c.poll (Option Error) interval seconds condition (s, none) ≡ (r, (s1, last))
          → ◌≡◌ {A = Result (Unit {0}) × S} (or_wrap text (with_last_error last r), s1) (ok tt, s')
          → c.poll (Option Error) interval seconds condition (s, none) ≡ (ok tt, (s', last))
      by_result (ok _) s1 last p k = ground arith
      by_result (err x) s1 last p k = ground arith

-- The server has seen the last change, and every replica is updated and available.
pub record IsRolledOut {B : Type 0} (d : DeploymentBody B) : Type 0 where
  pub seen : d.generation ≤ d.observed_generation
  pub updated : d.updated_replicas ≡ d.replicas
  pub available : d.unavailable_replicas ≡ 0

pub record IsScheduled {B : Type 0} (d : DaemonSetBody B) : Type 0 where
  pub seen : d.generation ≤ d.observed_generation
  pub updated : d.updated_number_scheduled ≡ d.desired_number_scheduled
  pub available : d.number_unavailable ≡ 0

-- A read of the object's name that leaves this state has found it in such a condition.
abbrev pub Saw : {S A : Type 0} → Endpoint S A → String → String → (A → Type 0) → S → Type 0
Saw {S} {A} ep namespace name P s' =
    (s : S) × (o : Resource A) × (ep.get namespace name s ≡ (ok o, s')) × P o.body

lift-eq-ok :
    {S L A : Type 0} (m : M S A) (a : A) (t u : S × L) → lift m t ≡ (ok a, u) → m t.0 ≡ (ok a, u.0)
lift-eq-ok m a (s, l) u h = ap (λ x. (x.0, x.1.0)) h

module _ {S B : Type 0} (c : Client S B) where
  deployment_status-eq-true :
      (d : DeploymentBody B) (u u' : S × Option Error)
      → deployment_status c d u ≡ (ok true, u')
      → IsRolledOut d × (u ≡ u')
  deployment_status-eq-true d (s, l) u' h = ground arith

  deployment_rolled_out-Saw :
      (dep : Resource (DeploymentBody B)) (u u' : S × Option Error)
      → deployment_rolled_out c dep u ≡ (ok true, u')
      → Saw c.deployments dep.meta.namespace dep.meta.name IsRolledOut u'.0
  unfolding deployment_rolled_out
  deployment_rolled_out-Saw dep (s, l) u' h =
      let get = c.deployments.get dep.meta.namespace dep.meta.name in
      let (d, t, p, q) = >>=-eq-ok (lift get) (λ d. deployment_status c d.body) true (s, l) u' h in
      let (rolled, e) = deployment_status-eq-true d.body t u' q in
      (s, d, lift-eq-ok get d (s, l) t p ∙ ap (λ v. (ok d, v.0)) e, rolled)

  daemon_set_status-eq-true :
      (d : DaemonSetBody B) (u u' : S × Option Error)
      → daemon_set_status c d u ≡ (ok true, u')
      → IsScheduled d × (u ≡ u')
  daemon_set_status-eq-true d (s, l) u' h = ground arith

  daemon_set_rolled_out-Saw :
      (ds : Resource (DaemonSetBody B)) (u u' : S × Option Error)
      → daemon_set_rolled_out c ds u ≡ (ok true, u')
      → Saw c.daemon_sets ds.meta.namespace ds.meta.name IsScheduled u'.0
  unfolding daemon_set_rolled_out
  daemon_set_rolled_out-Saw ds (s, l) u' h =
      let get = c.daemon_sets.get ds.meta.namespace ds.meta.name in
      let (d, t, p, q) = >>=-eq-ok (lift get) (λ d. daemon_set_status c d.body) true (s, l) u' h in
      let (rolled, e) = daemon_set_status-eq-true d.body t u' q in
      (s, d, lift-eq-ok get d (s, l) t p ∙ ap (λ v. (ok d, v.0)) e, rolled)

  replica_status-eq-true :
      (expected : ℕ) (st : ReplicaStatus) (u u' : S × Option Error)
      → replica_status c expected st u ≡ (ok true, u')
      → (st.updated_replicas ≡ expected) × (expected ≤ st.available_replicas) × (u ≡ u')
  replica_status-eq-true expected st (s, l) u' h = ground arith

  -- The object, as it was read, and the status that was then reported of it.
  abbrev pub SawReplicas :
      Endpoint S (ReplicatedBody B)
      → (Resource (ReplicatedBody B) → M S ReplicaStatus)
      → Resource (ReplicatedBody B)
      → S
      → Type 0
  SawReplicas ep status_of o s' =
      (s t : S) × (p : Resource (ReplicatedBody B)) × (st : ReplicaStatus) × (ep.get
          o.meta.namespace o.meta.name s
        ≡ (ok p, t))
      × (status_of p t ≡ (ok st, s'))
      × (st.updated_replicas ≡ p.body.replicas)
      × (p.body.replicas ≤ st.available_replicas)

  replicas_ready-saw :
      (kind : String) (ep : Endpoint S (ReplicatedBody B))
      (status_of : Resource (ReplicatedBody B) → M S ReplicaStatus)
      (o : Resource (ReplicatedBody B)) (u u' : S × Option Error)
      → replicas_ready c kind ep status_of o u ≡ (ok true, u')
      → SawReplicas ep status_of o u'.0
  unfolding replicas_ready
  replicas_ready-saw kind ep status_of o (s, l) u' h =
      let get_text = "retrieving " <> kind <> " object failed" in
      let status_text = "retrieving " <> kind <> " status failed" in
      let get = ep.get o.meta.namespace o.meta.name in
      let rest : Resource (ReplicatedBody B) → M (S × Option Error) Bool =
        λ p. do st ← lift (wrapped status_text (status_of p)); replica_status c p.body.replicas st
      in let (p, t, e, q) = >>=-eq-ok (lift (wrapped get_text get)) rest true (s, l) u' h in
        let (st, v, e', q') =
          >>=-eq-ok (lift (wrapped status_text (status_of p))) (replica_status c p.body.replicas)
            true t u' q in
        let (updated, available, at_end) = replica_status-eq-true p.body.replicas st v u' q' in
        (
          s,
          t.0,
          p,
          st,
          wrapped-eq-ok get_text get p s t.0 (lift-eq-ok (wrapped get_text get) p (s, l) t e),
          wrapped-eq-ok status_text (status_of p) st t.0 v.0
                (lift-eq-ok (wrapped status_text (status_of p)) st t v e')
              ∙ ap (λ v. (ok st, v.0)) at_end,
          updated,
          available,
        )

module _ {S B : Type 0} (c : Client S B) (polls : IsPoll c) where
  -- Where a poll is rounds of its condition: a wait for a Deployment that returns no error ends
  -- with a read of it, in the state that it leaves, that shows its last change seen and every
  -- replica updated and available.
  pub wait_for_deployment_rollout-Saw :
      (dep : Resource (DeploymentBody B)) (s s' : S)
      → wait_for_deployment_rollout c dep s ≡ (ok tt, s')
      → Saw c.deployments dep.meta.namespace dep.meta.name IsRolledOut s'
  unfolding wait_for_deployment_rollout
  wait_for_deployment_rollout-Saw dep s s' h =
      let (u, last, e) =
        wait_for-eq-ok c polls ("waiting for DeploymentRollout of " <> full_name dep) 1
          deployment_create_timeout (deployment_rolled_out c dep) s s' h in
      deployment_rolled_out-Saw c dep u (s', last) e

  -- The same of a DaemonSet and its scheduled nodes.
  pub wait_for_daemon_set_rollout-Saw :
      (ds : Resource (DaemonSetBody B)) (s s' : S)
      → wait_for_daemon_set_rollout c ds s ≡ (ok tt, s')
      → Saw c.daemon_sets ds.meta.namespace ds.meta.name IsScheduled s'
  unfolding wait_for_daemon_set_rollout
  wait_for_daemon_set_rollout-Saw ds s s' h =
      let (u, last, e) =
        wait_for-eq-ok c polls ("waiting for DaemonSetRollout of " <> full_name ds) 1
          deployment_create_timeout (daemon_set_rolled_out c ds) s s' h in
      daemon_set_rolled_out-Saw c ds u (s', last) e

  -- Where a poll is rounds of its condition: a wait for a Prometheus that returns no error ends
  -- with a read of it and a report of its status by which exactly the wanted replicas are updated,
  -- and at least as many are available.
  pub wait_for_prometheus_saw :
      (p : Resource (ReplicatedBody B)) (s s' : S)
      → wait_for_prometheus c p s ≡ (ok tt, s')
      → SawReplicas c c.prometheuses c.prometheus_status p s'
  unfolding wait_for_prometheus
  wait_for_prometheus_saw p s s' h =
      let (u, last, e) =
        wait_for-eq-ok c polls ("waiting for Prometheus " <> full_name p) 10 (5 * 60)
          (replicas_ready c "Prometheus" c.prometheuses c.prometheus_status p) s s' h in
      replicas_ready-saw c "Prometheus" c.prometheuses c.prometheus_status p u (s', last) e
