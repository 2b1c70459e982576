-- ===== src/Status/Conditions/Reading.antt =====
-- A well-formed map of conditions read as a function of the type, through each operation.
use cluster_monitoring_opera.Base.{
  ℕ, String, false, ◌&&◌, ◌||◌, Option, none, some, or_else, ◌==◌, string_eq, if◌then◌else◌, ◌≡◌,
  refl, ◌∙◌, arith,
}
use cluster_monitoring_opera.Base.Dict
use cluster_monitoring_opera.Status.Conditions.{
  ClusterStatusConditionType, available, progressing, degraded, upgradeable, ConditionStatus,
  condition_true, Condition, Conditions, ClusterOperatorStatus, type_eq, status_eq, condition_of,
  set_condition, new_conditions, first_version, unknown, entries, is_available,
}
use cluster_monitoring_opera.Status.Conditions.Set.{
  last_of, settled, set_condition-lookup, set_condition_versions, new_conditions-lookup,
}
use cluster_monitoring_opera.Status.Conditions.Entries.{
  IsValid, last_of-entries, new_conditions-IsValid, set_condition-IsValid,
}

abbrev pub Reading : Type 0
Reading = ClusterStatusConditionType → Option Condition

-- What is known of a type at first.
abbrev pub initial : ℕ → Reading
initial time j =
    if j == available || j == progressing || j == degraded || j == upgradeable
    then some (unknown j time)
    else none

-- What `newConditions` makes of a type in an old status.
abbrev pub before : ClusterOperatorStatus → ℕ → Reading
before old time j = or_else (last_of j old.conditions) (initial time j)

-- What `setCondition` makes of a reading.
abbrev pub set_at : Condition → Reading → Reading
set_at new f j = if j == new.type then some (settled (f j) new) else f j

pub record Reads (cs : Conditions) (f : Reading) (current target : String) : Type 0 where
  pub valid : IsValid cs
  pub at : (j : ClusterStatusConditionType) → Dict.lookup j cs.entry_map ≡ f j
  pub current_version : cs.current_version ≡ current
  pub target_version : cs.target_version ≡ target

pub new_conditions-Reads :
    (old : ClusterOperatorStatus) (target : String) (time : ℕ)
    → Reads (new_conditions old target time) (before old time) (first_version old.versions) target
unfolding new_conditions
new_conditions-Reads old target time = record {
  valid = new_conditions-IsValid old target time;
  at = new_conditions-lookup old target time;
  current_version = refl;
  target_version = refl;
}

module _ {cs : Conditions} {f : Reading} {current target : String}
    (reads : Reads cs f current target) (type : ClusterStatusConditionType)
    (status : ConditionStatus) (message reason : String) (time : ℕ) where
  -- A call that does not ask for `Progressing` to be true is never aborted.
  pub set_plain-Reads :
      (type == progressing && status == condition_true) ≡ false
      → Reads
          (set_condition cs type status message reason time)
          (set_at (condition_of type status message reason time) f)
          current
          target
  set_plain-Reads plain =
      let versions = set_condition_versions cs type status message reason time in
      record {
        valid = set_condition-IsValid cs type status message reason time reads.valid;
        at = λ j.
            ground (arith, set_condition-lookup cs type j status message reason time, reads.at j);
        current_version = versions.0 ∙ reads.current_version;
        target_version = versions.1 ∙ reads.target_version;
      }

-- `Progressing` becomes true unless the operator is available at its target version.
pub set_progressing-Reads :
    {cs : Conditions} {f : Reading} {current target : String}
    → Reads cs f current target
    → (message reason : String) (time : ℕ)
    → Reads
        (set_condition cs progressing condition_true message reason time)
        (if is_available (f available) && target == current
          then f
          else set_at (condition_of progressing condition_true message reason time) f)
        current
        target
unfolding type_eq status_eq
set_progressing-Reads {cs} {f} {current} {target} reads message reason time =
    let versions = set_condition_versions cs progressing condition_true message reason time in
    record {
      valid = set_condition-IsValid cs progressing condition_true message reason time reads.valid;
      at = λ j. ground (
        arith,
        set_condition-lookup cs progressing j condition_true message reason time,
        reads.at j,
        reads.at available,
      );
      current_version = versions.0 ∙ reads.current_version;
      target_version = versions.1 ∙ reads.target_version;
    }

-- The reported list reads as the map does.
pub last_of-Reads :
    {cs : Conditions} {f : Reading} {current target : String}
    → Reads cs f current target
    → (j : ClusterStatusConditionType) → last_of j (entries cs) ≡ f j
last_of-Reads {cs} reads j = last_of-entries j cs reads.valid ∙ reads.at j
