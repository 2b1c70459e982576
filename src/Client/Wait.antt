-- ===== src/Client/Wait.antt =====
-- The `WaitFor…` functions of pkg/client/client.go, and the functions that wait after a change.
pub mod Polling
use cluster_monitoring_opera.Base.{
  ℕ, ◌*◌, String, ◌<>◌, Bool, true, false, ◌&&◌, not, Option, none, some, List, [], ◌∷◌, length, Eq,
  ◌==◌, string_eq, nat_eq, ltb, if◌then◌else◌, Error, Result, ok, err, status, timeout, message,
  format, wrap, or_wrap, M, pure, fail, wrapped, attempt, ◌>>=◌, ◌>>◌,
}
use cluster_monitoring_opera.Base.Dict.{values}
use cluster_monitoring_opera.Client.{
  Resource, Contents, RouteBody, IngressCondition, DeploymentBody, DaemonSetBody, StatefulSetBody,
  ReplicatedBody, ReplicaStatus, Endpoint, Client,
}

-- A call made under a poll, whose state also holds the variables that the condition captures.
abbrev pub lift : {S L A : Type 0} → M S A → M (S × L) A
lift m (s, l) = let (r, s') = m s in (r, (s', l))

-- `lastErr = e; return false, nil`
abbrev pub not_yet : {S : Type 0} → Error → M (S × Option Error) Bool
not_yet e (s, _) = (ok false, (s, some e))

-- `if err == wait.ErrWaitTimeout && lastErr != nil { err = lastErr }`
abbrev pub with_last_error : {A : Type 0} → Option Error → Result A → Result A
with_last_error (some e) (err timeout) = err e
with_last_error _ r = r

-- `deploymentCreateTimeout`, in seconds
abbrev pub deployment_create_timeout : ℕ
deployment_create_timeout = 5 * 60

abbrev pub full_name : {B : Type 0} → Resource B → String
full_name o = o.meta.namespace <> "/" <> o.meta.name

module _ {S B : Type 0} (c : Client S B) where
  -- Poll a condition that captures `lastErr` only.
  unfoldable pub wait_for : String → ℕ → ℕ → M (S × Option Error) Bool → M S (Unit {0})
  wait_for text interval seconds condition s =
      let (r, (s', last)) = c.poll (Option Error) interval seconds condition (s, none) in
      (or_wrap text (with_last_error last r), s')

  abbrev pub deployment_status : DeploymentBody B → M (S × Option Error) Bool
  deployment_status d =
      if ltb d.observed_generation d.generation
      then not_yet (
          format "current generation %d, observed generation %d"
            (d.generation ∷ d.observed_generation ∷ []))
      else if not (d.updated_replicas == d.replicas)
      then not_yet (
          format "expected %d replicas, got %d updated replicas"
            (d.replicas ∷ d.updated_replicas ∷ []))
      else if not (d.unavailable_replicas == 0)
      then not_yet (format "got %d unavailable replicas" (d.unavailable_replicas ∷ []))
      else pure true

  unfoldable pub deployment_rolled_out : Resource (DeploymentBody B) → M (S × Option Error) Bool
  deployment_rolled_out dep = do
    d ← lift (c.deployments.get dep.meta.namespace dep.meta.name)
    deployment_status d.body

  unfoldable pub wait_for_deployment_rollout : Resource (DeploymentBody B) → M S (Unit {0})
  unfolding wait_for deployment_rolled_out
  wait_for_deployment_rollout dep =
      wait_for ("waiting for DeploymentRollout of " <> full_name dep) 1 deployment_create_timeout
        (deployment_rolled_out dep)

  abbrev pub stateful_set_status : StatefulSetBody B → M (S × Option Error) Bool
  stateful_set_status d =
      if ltb d.observed_generation d.generation
      then not_yet (
          format "expected generation %d, observed generation: %d"
            (d.generation ∷ d.observed_generation ∷ []))
      else if not (d.updated_replicas == d.replicas)
      then not_yet (
          format "expected %d replicas, got %d updated replicas"
            (d.replicas ∷ d.updated_replicas ∷ []))
      else if not (d.ready_replicas == d.replicas)
      then not_yet (
          format "expected %d replicas, got %d ready replicas" (d.replicas ∷ d.ready_replicas ∷ []))
      else pure true

  unfoldable pub stateful_set_rolled_out : Resource (StatefulSetBody B) → M (S × Option Error) Bool
  stateful_set_rolled_out sts = do
    d ← lift (c.stateful_sets.get sts.meta.namespace sts.meta.name)
    stateful_set_status d.body

  unfoldable pub wait_for_statefulset_rollout : Resource (StatefulSetBody B) → M S (Unit {0})
  unfolding wait_for stateful_set_rolled_out
  wait_for_statefulset_rollout sts =
      wait_for ("waiting for StatefulsetRollout of " <> full_name sts) 1 deployment_create_timeout
        (stateful_set_rolled_out sts)

  abbrev pub daemon_set_status : DaemonSetBody B → M (S × Option Error) Bool
  daemon_set_status d =
      if ltb d.observed_generation d.generation
      then not_yet (
          format "current generation %d, observed generation: %d"
            (d.generation ∷ d.observed_generation ∷ []))
      else if not (d.updated_number_scheduled == d.desired_number_scheduled)
      then not_yet (
          format "expected %d desired scheduled nodes, got %d updated scheduled nodes"
            (d.desired_number_scheduled ∷ d.updated_number_scheduled ∷ []))
      else if not (d.number_unavailable == 0)
      then not_yet (format "got %d unavailable nodes" (d.number_unavailable ∷ []))
      else pure true

  unfoldable pub daemon_set_rolled_out : Resource (DaemonSetBody B) → M (S × Option Error) Bool
  daemon_set_rolled_out ds = do
    d ← lift (c.daemon_sets.get ds.meta.namespace ds.meta.name)
    daemon_set_status d.body

  unfoldable pub wait_for_daemon_set_rollout : Resource (DaemonSetBody B) → M S (Unit {0})
  unfolding wait_for daemon_set_rolled_out
  wait_for_daemon_set_rollout ds =
      wait_for ("waiting for DaemonSetRollout of " <> full_name ds) 1 deployment_create_timeout
        (daemon_set_rolled_out ds)

  abbrev pub replica_status : ℕ → ReplicaStatus → M (S × Option Error) Bool
  replica_status expected st =
      if not (expected == st.updated_replicas)
      then not_yet (
          format "expected %d replicas, got %d updated replicas"
            (expected ∷ st.updated_replicas ∷ []))
      else if ltb st.available_replicas expected
      then not_yet (
          format "expected %d replicas, got %d available replicas"
            (expected ∷ st.available_replicas ∷ []))
      else pure true

  -- The condition of the three custom resources: the object, and what its operator says of it.
  unfoldable pub replicas_ready :
      String
      → Endpoint S (ReplicatedBody B)
      → (Resource (ReplicatedBody B) → M S ReplicaStatus)
      → Resource (ReplicatedBody B)
      → M (S × Option Error) Bool
  replicas_ready kind ep status_of o = do
    p ←
        lift (
          wrapped ("retrieving " <> kind <> " object failed") (ep.get o.meta.namespace o.meta.name))
    st ← lift (wrapped ("retrieving " <> kind <> " status failed") (status_of p))
    replica_status p.body.replicas st

  unfoldable pub wait_for_prometheus : Resource (ReplicatedBody B) → M S (Unit {0})
  unfolding wait_for replicas_ready
  wait_for_prometheus p =
      wait_for ("waiting for Prometheus " <> full_name p) 10 (5 * 60)
        (replicas_ready "Prometheus" c.prometheuses c.prometheus_status p)

  unfoldable pub wait_for_alertmanager : Resource (ReplicatedBody B) → M S (Unit {0})
  unfolding wait_for replicas_ready
  wait_for_alertmanager a =
      wait_for ("waiting for Alertmanager " <> full_name a) 10 (5 * 60)
        (replicas_ready "Alertmanager" c.alertmanagers c.alertmanager_status a)

  unfoldable pub wait_for_thanos_ruler : Resource (ReplicatedBody B) → M S (Unit {0})
  unfolding wait_for replicas_ready
  wait_for_thanos_ruler t =
      wait_for ("waiting for Thanos Ruler " <> full_name t) 10 (5 * 60)
        (replicas_ready "Thanos Ruler" c.thanos_rulers c.thanos_ruler_status t)
