-- ===== src/Client/Rollout/Laws.antt =====
-- What `CreateOrUpdateDeployment` and `CreateOrUpdateDaemonSet` have seen when they succeed.
use cluster_monitoring_opera.Base.{
  String, true, ◌≡◌, ◌∙◌, ap, subst₂, ◌⊎◌, inl, inr, Bool-cases, Result, ok, err, M, pure, wrapped,
  attempt, ◌>>=◌, if◌then◌else◌, >>=-eq-ok, attempt-eq-ok, wrapped-eq-ok,
}
use cluster_monitoring_opera.Client.{Resource, DeploymentBody, Endpoint, Client}
use cluster_monitoring_opera.Client.Metadata.{merge_metadata}
use cluster_monitoring_opera.Client.Apply.{on_get, merged}
use cluster_monitoring_opera.Client.Apply.Laws.{on_get-cases}
use cluster_monitoring_opera.Client.Delete.{delete_deployment}
use cluster_monitoring_opera.Client.Wait.{wait_for_deployment_rollout}
use cluster_monitoring_opera.Client.Wait.Polling.{
  IsPoll, IsRolledOut, Saw, wait_for_deployment_rollout-Saw,
}
use cluster_monitoring_opera.Client.Rollout.{
  is_invalid, create_deployment, update_deployment, recreate_deployment,
  create_or_update_deployment,
}

-- An accepted object comes back under its own name.
pub record KeepsNames {S A : Type 0} (ep : Endpoint S A) : Type 0 where
  pub create_names :
      (o o' : Resource A) (s s' : S)
      → ep.create o s ≡ (ok o', s')
      → (o'.meta.namespace ≡ o.meta.namespace) × (o'.meta.name ≡ o.meta.name)
  pub update_names :
      (o o' : Resource A) (s s' : S)
      → ep.update o s ≡ (ok o', s')
      → (o'.meta.namespace ≡ o.meta.namespace) × (o'.meta.name ≡ o.meta.name)

module _ {S B : Type 0} (c : Client S B) (polls : IsPoll c) (names : KeepsNames c.deployments) where
  abbrev SawRollout : Resource (DeploymentBody B) → S → Type 0
  SawRollout dep = Saw c.deployments dep.meta.namespace dep.meta.name IsRolledOut

  create_deployment_saw :
      (dep : Resource (DeploymentBody B)) (s s' : S)
      → create_deployment c dep s ≡ (ok tt, s')
      → SawRollout dep s'
  unfolding create_deployment
  create_deployment_saw dep s s' h =
      let (d, t, p, q) =
        >>=-eq-ok (c.deployments.create dep) (wait_for_deployment_rollout c) tt s s' h in
      let (ns, n) = names.create_names dep d s t p in
      subst₂ (λ ns n. Saw c.deployments ns n IsRolledOut s') ns n
        (wait_for_deployment_rollout-Saw c polls d t s' q)

  update_deployment_saw :
      (dep : Resource (DeploymentBody B)) (s s' : S)
      → update_deployment c dep s ≡ (ok tt, s')
      → SawRollout dep s'
  unfolding update_deployment
  update_deployment_saw dep s s' h =
      let (d, t, p, q) =
        >>=-eq-ok (c.deployments.update dep) (wait_for_deployment_rollout c) tt s s' h in
      let (ns, n) = names.update_names dep d s t p in
      subst₂ (λ ns n. Saw c.deployments ns n IsRolledOut s') ns n
        (wait_for_deployment_rollout-Saw c polls d t s' q)

  recreate_deployment_saw :
      (existing required : Resource (DeploymentBody B)) (updated : Result (Unit {0})) (s t s' : S)
      → update_deployment c required s ≡ (updated, t)
      → recreate_deployment c existing required updated t ≡ (ok tt, s')
      → SawRollout required s'
  recreate_deployment_saw existing required (ok _) s t s' p h =
      update_deployment_saw required s s' (p ∙ ap (λ x. (ok tt, x.1)) h)
  recreate_deployment_saw existing required (err e) s t s' p h = elim (Bool-cases (is_invalid e)) [
    | inl invalid ↦
        let delete : M S (Unit {0}) =
          wrapped "deleting Deployment object failed" (delete_deployment c existing) in
        let create : M S (Unit {0}) =
          wrapped "creating Deployment object failed after update failed"
            (create_deployment c required) in
        let (_, u, _, q) = >>=-eq-ok delete (λ _. create) tt t s' (rw invalid at h) in
        create_deployment_saw required u s' (
          wrapped-eq-ok "creating Deployment object failed after update failed"
            (create_deployment c required) tt u s' q)
    | inr valid ↦ let h' = rw valid at h in cc
  ]

  -- Where a poll is rounds of its condition, and an object keeps its name: if
  -- `CreateOrUpdateDeployment` returns no error, the Deployment was found with the wanted spec and
  -- left alone, or the state that it leaves is that of a read that shows it rolled out.
  pub create_or_update_deployment_saw :
      (dep : Resource (DeploymentBody B)) (s s' : S)
      → create_or_update_deployment c dep s ≡ (ok tt, s')
      → SawRollout dep s'
        ⊎ ((existing : Resource (DeploymentBody B)) × (c.deployments.get dep.meta.namespace
                dep.meta.name s
              ≡ (ok existing, s'))
            × (c.same dep.body.spec existing.body.spec ≡ true))
  unfolding create_or_update_deployment merge_metadata
  create_or_update_deployment_saw dep s s' h =
      let get = c.deployments.get dep.meta.namespace dep.meta.name in
      let create : M S (Unit {0}) =
        wrapped "creating Deployment object failed" (create_deployment c dep) in
      let text : String = "retrieving Deployment object failed" in
      let replace : Resource (DeploymentBody B) → M S (Unit {0}) = λ existing. do
        updated ← attempt (update_deployment c (merged c dep existing))
        recreate_deployment c existing (merged c dep existing) updated
      in let go_on : Resource (DeploymentBody B) → M S (Unit {0}) = λ existing.
        if c.same dep.body.spec existing.body.spec then pure tt else replace existing in
        let rest : Result (Resource (DeploymentBody B)) → M S (Unit {0}) =
          λ existing. on_get c.is_not_found existing create text go_on in
        let (found, t, p, q) = >>=-eq-ok (attempt get) rest tt s s' h in
        elim (on_get-cases c.is_not_found found create text go_on t s' q) [
          | inl made ↦ inl (
              create_deployment_saw dep t s' (
                wrapped-eq-ok "creating Deployment object failed" (create_deployment c dep) tt t s'
                  made))
          | inr (existing, e, k) ↦ elim (Bool-cases (c.same dep.body.spec existing.body.spec)) [
            | inl same ↦ inr (
              existing,
              attempt-eq-ok get found s t p
                  ∙ ap (λ x. (x, t)) e
                  ∙ ap (λ x. (ok existing, x.1)) (rw same at k),
              same,
            )
            | inr differ ↦
                let required = merged c dep existing in
                let (updated, u, p', q') =
                  >>=-eq-ok (attempt (update_deployment c required))
                    (recreate_deployment c existing required) tt t s' (rw differ at k) in
                inl (
                  recreate_deployment_saw existing required updated t u s'
                    (attempt-eq-ok (update_deployment c required) updated t u p') q')
          ]
        ]
