-- ===== src/Status/Reporter/Written.antt =====
-- The statuses that the three setters write, read back by type.
use mathlib.Core.Option
use cluster_monitoring_opera.Base.{
  ℕ, String, ◌<>◌, ◌&&◌, Option, some, or_else, List, ◌==◌, ==_refl, string_eq, if◌then◌else◌, ◌≡◌,
  refl, ap, ◌≢◌, arith,
}
use cluster_monitoring_opera.Status.Conditions.{
  ClusterStatusConditionType, available, progressing, degraded, upgradeable, other_type,
  ConditionStatus, condition_true, condition_false, Condition, ObjectReference,
  ClusterOperatorStatus, type_eq, status_eq, condition_of, first_version, is_available,
}
use cluster_monitoring_opera.Status.Conditions.Set.{last_of, settled, settled_status, settled_idem}
use cluster_monitoring_opera.Status.Conditions.Reading.{Reading, before}
use cluster_monitoring_opera.Status.Reporter.{done_status, in_progress_status, failed_status}
use cluster_monitoring_opera.Status.Reporter.Lookups.{
  done_at, done_status_lookup, failed_at, failed_status_lookup, in_progress_at,
  in_progress_status_lookup,
}

-- The status and the message under which a type is reported.
abbrev pub reported : ClusterOperatorStatus → ClusterStatusConditionType → Option ConditionStatus
reported st j = Option.map (λ c. c.status) (last_of j st.conditions)

abbrev pub message_of : ClusterOperatorStatus → ClusterStatusConditionType → Option String
message_of st j = Option.map (λ c. c.message) (last_of j st.conditions)

settled_reported :
    (old : Option Condition) (new : Condition)
    → Option.map (λ c. c.status) (some (settled old new)) ≡ some new.status
settled_reported old new = ap some (settled_status old new).0

-- After `SetDone` the operator is reported available, not progressing, not degraded and upgradeable,
-- whatever was reported before, at the reporter's version, or at none if that is empty.
pub done_status_reports :
    (version : String) (time : ℕ) (old : ClusterOperatorStatus)
    → let st = done_status version time old in
      (reported st available ≡ some condition_true)
      × (reported st progressing ≡ some condition_false)
      × (reported st degraded ≡ some condition_false)
      × (reported st upgradeable ≡ some condition_true)
      × (first_version st.versions ≡ version)
      × (st.related_objects ≡ old.related_objects)
unfolding done_status done_at type_eq
done_status_reports version time old =
    let look = done_status_lookup version time old in
    (
      rw (look available) (settled_reported _ _),
      rw (look progressing) (settled_reported _ _),
      rw (look degraded) (settled_reported _ _),
      rw (look upgradeable) (settled_reported _ _),
      ground arith,
      refl,
    )

-- After `SetFailed` the operator is reported not available, not progressing and degraded with the
-- text of the error, and still upgradeable; the versions stay.
pub failed_status_reports :
    (version status_err reason : String) (time : ℕ) (old : ClusterOperatorStatus)
    → let st = failed_status version status_err reason time old in
      (reported st available ≡ some condition_false)
      × (reported st progressing ≡ some condition_false)
      × (reported st degraded ≡ some condition_true)
      × (message_of st degraded ≡ some ("Failed to rollout the stack. Error: " <> status_err))
      × (reported st upgradeable ≡ some condition_true)
      × (st.versions ≡ old.versions)
unfolding failed_status failed_at type_eq
failed_status_reports version status_err reason time old =
    let look = failed_status_lookup version status_err reason time old in
    (
      rw (look available) (settled_reported _ _),
      rw (look progressing) (settled_reported _ _),
      rw (look degraded) (settled_reported _ _),
      rw (look degraded) (ap some (settled_status _ _).1),
      rw (look upgradeable) (settled_reported _ _),
      refl,
    )

done_again :
    (version : String) (time time' : ℕ) (old : ClusterOperatorStatus)
    (j : ClusterStatusConditionType) (status : ConditionStatus) (message reason : String)
    → ((t : ℕ) (f : Reading)
        → done_at t f j ≡ some (settled (f j) (condition_of j status message reason t)))
    → let st = done_status version time old in
      last_of j (done_status version time' st).conditions ≡ last_of j st.conditions
unfolding or_else
done_again version time time' old j status message reason at =
    let st = done_status version time old in
    ground (
      arith,
      done_status_lookup version time' st j,
      done_status_lookup version time old j,
      at time (before old time),
      at time' (before st time'),
      settled_idem (before old time j) (condition_of j status message reason time)
          (condition_of j status message reason time'),
    )

-- `SetDone` on a status that it has written already, later, leaves the condition of every type as
-- it was: in particular no transition time moves.
pub done_status_idem :
    (version : String) (time time' : ℕ) (old : ClusterOperatorStatus)
    (j : ClusterStatusConditionType)
    → let st = done_status version time old in
      last_of j (done_status version time' st).conditions ≡ last_of j st.conditions
unfolding done_at type_eq or_else
done_status_idem version time time' old available =
    done_again version time time' old available condition_true "Successfully rolled out the stack."
      "RollOutDone" λ t f. refl
done_status_idem version time time' old progressing =
    done_again version time time' old progressing condition_false "" "" λ t f. refl
done_status_idem version time time' old degraded =
    done_again version time time' old degraded condition_false "" "" λ t f. refl
done_status_idem version time time' old upgradeable =
    done_again version time time' old upgradeable condition_true "" "" λ t f. refl
done_status_idem version time time' old (other_type s) = ground (
  arith,
  done_status_lookup version time' (done_status version time old) (other_type s),
  done_status_lookup version time old (other_type s),
)

-- `SetInProgress` for the version that was rolled out last leaves every condition but `Upgradeable`
-- as `SetDone` wrote it, so a repeated sync does not report progress.
pub in_progress-done :
    (version : String) (objects : List ObjectReference) (time time' : ℕ)
    (old : ClusterOperatorStatus) (j : ClusterStatusConditionType)
    → j ≢ upgradeable
    → let st = done_status version time old in
      last_of j (in_progress_status version objects time' st).conditions ≡ last_of j st.conditions
unfolding in_progress_at done_at type_eq status_eq or_else
in_progress-done version objects time time' old upgradeable other = absurd (other refl)
in_progress-done version objects time time' old j other = ground (
  arith,
  in_progress_status_lookup version objects time' (done_status version time old) j,
  done_status_lookup version time old j,
  done_status_lookup version time old available,
  settled_status (before old time available) (
      condition_of available condition_true "Successfully rolled out the stack." "RollOutDone"
        time),
  (done_status_reports version time old).4,
  ==_refl version,
)

-- `SetInProgress` sets `Progressing` to true, unless the operator was available at the target
-- version: then what was said of progress before stays.
pub in_progress_status_reports :
    (version : String) (objects : List ObjectReference) (time : ℕ) (old : ClusterOperatorStatus)
    → let st = in_progress_status version objects time old in
      reported st progressing ≡ (
        if is_available (last_of available old.conditions) && version == first_version old.versions
        then Option.map (λ c. c.status) (before old time progressing)
        else some condition_true)
unfolding in_progress_at type_eq status_eq or_else
in_progress_status_reports version objects time old = ground (
  arith,
  in_progress_status_lookup version objects time old progressing,
  settled_status (before old time progressing)
      (condition_of progressing condition_true "Rolling out the stack." "RollOutInProgress" time),
)
