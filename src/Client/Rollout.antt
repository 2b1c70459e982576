-- ===== src/Client/Rollout.antt =====
-- `CreateOrUpdateDeployment`, `CreateOrUpdateDaemonSet` and their helpers in pkg/client/client.go.
pub mod Laws
use cluster_monitoring_opera.Base.{
  ℕ, String, ◌<>◌, Bool, true, false, ◌&&◌, Eq, ◌==◌, string_eq, nat_eq, if◌then◌else◌, Error,
  Result, ok, err, status, wrap, M, pure, fail, wrapped, attempt, ignore, ◌>>=◌, ◌>>◌,
}
use cluster_monitoring_opera.Client.{Resource, DeploymentBody, DaemonSetBody, Client}
use cluster_monitoring_opera.Client.Apply.{on_get, merged}
use cluster_monitoring_opera.Client.Delete.{delete_deployment, delete_daemon_set}
use cluster_monitoring_opera.Client.Wait.{wait_for_deployment_rollout, wait_for_daemon_set_rollout}

-- `ok && uErr.ErrStatus.Code == 422 && uErr.ErrStatus.Reason == metav1.StatusReasonInvalid`
abbrev pub is_invalid : Error → Bool
is_invalid (status code reason) = code == 422 && reason == "Invalid"
is_invalid _ = false

module _ {S B : Type 0} (c : Client S B) where
  unfoldable pub create_deployment : Resource (DeploymentBody B) → M S (Unit {0})
  create_deployment dep = do d ← c.deployments.create dep; wait_for_deployment_rollout c d

  unfoldable pub update_deployment : Resource (DeploymentBody B) → M S (Unit {0})
  update_deployment dep = do d ← c.deployments.update dep; wait_for_deployment_rollout c d

  -- After a failed update: an object that cannot be changed so is deleted and made anew.
  abbrev pub recreate_deployment :
      Resource (DeploymentBody B) → Resource (DeploymentBody B) → Result (Unit {0}) → M S (Unit {0})
  recreate_deployment existing required (ok _) = pure tt
  recreate_deployment existing required (err e) =
      if is_invalid e
      then (do
        wrapped "deleting Deployment object failed" (delete_deployment c existing)
        wrapped "creating Deployment object failed after update failed"
            (create_deployment required))
      else fail (wrap e "updating Deployment object failed")

  unfoldable pub create_or_update_deployment : Resource (DeploymentBody B) → M S (Unit {0})
  create_or_update_deployment dep = do
    found ← attempt (c.deployments.get dep.meta.namespace dep.meta.name)
    on_get c.is_not_found found
        (wrapped "creating Deployment object failed" (create_deployment dep))
        "retrieving Deployment object failed"
        λ existing. if c.same dep.body.spec existing.body.spec then pure tt else do
          updated ← attempt (update_deployment (merged c dep existing))
          recreate_deployment existing (merged c dep existing) updated

  unfoldable pub create_daemon_set : Resource (DaemonSetBody B) → M S (Unit {0})
  create_daemon_set ds = do d ← c.daemon_sets.create ds; wait_for_daemon_set_rollout c d

  unfoldable pub update_daemon_set : Resource (DaemonSetBody B) → M S (Unit {0})
  update_daemon_set ds = do d ← c.daemon_sets.update ds; wait_for_daemon_set_rollout c d

  abbrev pub recreate_daemon_set :
      Resource (DaemonSetBody B) → Resource (DaemonSetBody B) → Result (Unit {0}) → M S (Unit {0})
  recreate_daemon_set existing required (ok _) = pure tt
  recreate_daemon_set existing required (err e) =
      if is_invalid e
      then (do
        wrapped "deleting DaemonSet object failed" (delete_daemon_set c existing)
        wrapped "creating DaemonSet object failed after update failed" (create_daemon_set required))
      else fail (wrap e "updating DaemonSet object failed")

  unfoldable pub create_or_update_daemon_set : Resource (DaemonSetBody B) → M S (Unit {0})
  create_or_update_daemon_set ds = do
    found ← attempt (c.daemon_sets.get ds.meta.namespace ds.meta.name)
    on_get c.is_not_found found (wrapped "creating DaemonSet object failed" (create_daemon_set ds))
        "retrieving DaemonSet object failed"
        λ existing. do
          updated ← attempt (update_daemon_set (merged c ds existing))
          recreate_daemon_set existing (merged c ds existing) updated
