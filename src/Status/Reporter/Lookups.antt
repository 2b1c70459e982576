-- ===== src/Status/Reporter/Lookups.antt =====
-- What a condition type looks up to in the statuses that the three setters write.
use cluster_monitoring_opera.Base.{
  ℕ, String, ◌<>◌, Bool, ◌&&◌, List, ◌==◌, string_eq, if◌then◌else◌, ◌≡◌, refl,
}
use cluster_monitoring_opera.Status.Conditions.{
  ClusterStatusConditionType, available, progressing, degraded, upgradeable, condition_true,
  condition_false, ObjectReference, ClusterOperatorStatus, type_eq, status_eq, condition_of,
  first_version, is_available,
}
use cluster_monitoring_opera.Status.Conditions.Set.{last_of}
use cluster_monitoring_opera.Status.Conditions.Reading.{
  Reading, before, set_at, new_conditions-Reads, set_plain-Reads, set_progressing-Reads,
  last_of-Reads,
}
use cluster_monitoring_opera.Status.Reporter.{done_status, in_progress_status, failed_status}

unfoldable pub done_at : ℕ → Reading → Reading
done_at time f = set_at (condition_of upgradeable condition_true "" "" time) (
    set_at (condition_of degraded condition_false "" "" time) (
      set_at (condition_of progressing condition_false "" "" time) (
        set_at
          (condition_of available condition_true "Successfully rolled out the stack." "RollOutDone"
            time)
          f)))

pub done_status_lookup :
    (version : String) (time : ℕ) (old : ClusterOperatorStatus) (j : ClusterStatusConditionType)
    → last_of j (done_status version time old).conditions ≡ done_at time (before old time) j
unfolding done_status done_at type_eq status_eq
done_status_lookup version time old =
    let r = new_conditions-Reads old version time in
    let r =
      set_plain-Reads r available condition_true "Successfully rolled out the stack." "RollOutDone"
        time refl in
    let r = set_plain-Reads r progressing condition_false "" "" time refl in
    let r = set_plain-Reads r degraded condition_false "" "" time refl in
    let r = set_plain-Reads r upgradeable condition_true "" "" time refl in last_of-Reads r

unfoldable pub failed_at : String → String → ℕ → Reading → Reading
failed_at status_err reason time f =
    set_at
      (condition_of upgradeable condition_true
        "Rollout of the monitoring stack failed and is degraded. Please investigate the degraded status error."
        reason time)
      (set_at
        (condition_of degraded condition_true ("Failed to rollout the stack. Error: " <> status_err)
          reason time)
        (set_at (condition_of progressing condition_false "" "" time)
          (set_at (condition_of available condition_false "" "" time) f)))

pub failed_status_lookup :
    (version status_err reason : String) (time : ℕ) (old : ClusterOperatorStatus)
    (j : ClusterStatusConditionType)
    → last_of j (failed_status version status_err reason time old).conditions
      ≡ failed_at status_err reason time (before old time) j
unfolding failed_status failed_at type_eq status_eq
failed_status_lookup version status_err reason time old =
    let r = new_conditions-Reads old version time in
    let r = set_plain-Reads r available condition_false "" "" time refl in
    let r = set_plain-Reads r progressing condition_false "" "" time refl in
    let r =
      set_plain-Reads r degraded condition_true
        ("Failed to rollout the stack. Error: " <> status_err) reason time refl in
    let r =
      set_plain-Reads r upgradeable condition_true
        "Rollout of the monitoring stack failed and is degraded. Please investigate the degraded status error."
        reason time refl in
    last_of-Reads r

unfoldable pub in_progress_at : Bool → ℕ → Reading → Reading
in_progress_at settled_already time f =
    set_at
      (condition_of upgradeable condition_true
        "Rollout of the monitoring stack is in progress. Please wait until it finishes."
        "RollOutInProgress" time)
      (if settled_already
        then f
        else set_at
            (condition_of progressing condition_true "Rolling out the stack." "RollOutInProgress"
              time)
            f)

pub in_progress_status_lookup :
    (version : String) (objects : List ObjectReference) (time : ℕ) (old : ClusterOperatorStatus)
    (j : ClusterStatusConditionType)
    → last_of j (in_progress_status version objects time old).conditions
      ≡ in_progress_at
          (is_available (before old time available) && version == first_version old.versions)
          time
          (before old time)
          j
unfolding in_progress_status in_progress_at type_eq status_eq
in_progress_status_lookup version objects time old =
    let r = new_conditions-Reads old version time in
    let r = set_progressing-Reads r "Rolling out the stack." "RollOutInProgress" time in
    let r =
      set_plain-Reads r upgradeable condition_true
        "Rollout of the monitoring stack is in progress. Please wait until it finishes."
        "RollOutInProgress" time refl in
    last_of-Reads r
