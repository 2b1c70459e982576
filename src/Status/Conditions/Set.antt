-- ===== src/Status/Conditions/Set.antt =====
-- What `newConditions` and `setCondition` do to each type's condition.
use cluster_monitoring_opera.Base.{
  ℕ, String, ◌&&◌, Option, none, some, List, [], ◌∷◌, ◌==◌, string_eq, if◌then◌else◌, ◌≡◌, refl,
  arith, or_else, not, ◌||◌,
}
use cluster_monitoring_opera.Base.Dict
use cluster_monitoring_opera.Base.Dict.{Dict}
use cluster_monitoring_opera.Status.Conditions.{
  ClusterStatusConditionType, available, progressing, degraded, upgradeable, ConditionStatus,
  Condition, Conditions, ClusterOperatorStatus, type_eq, status_eq, condition_of, is_changed,
  is_aborted, set_condition, new_conditions, add_all, initial_entries, unknown,
}

-- Setting a condition again, at any later time and for any reason, changes nothing more: neither
-- the condition itself nor its transition time.
pub set_condition_idem :
    (cs : Conditions) (condition : ClusterStatusConditionType) (status : ConditionStatus)
    (message reason reason' : String) (time time' : ℕ)
    → let cs' = set_condition cs condition status message reason time in
      set_condition cs' condition status message reason' time' ≡ cs'
unfolding set_condition
set_condition_idem cs condition status message reason reason' time time' = ground (
  arith,
  Dict.lookup-insert condition condition (condition_of condition status message reason time)
      cs.entry_map,
  Dict.lookup-insert condition available (condition_of condition status message reason time)
      cs.entry_map,
)

-- The condition that is kept where the old one has the same status and message.
unfoldable pub settled : Option Condition → Condition → Condition
settled none new = new
settled (some old) new = if is_changed (some old) new.status new.message then new else old

-- Unless it is aborted, `setCondition` leaves the type with the given status and message. The rest
-- of the condition, its transition time included, is the old one if status and message were as
-- given, and else the new one. No other type changes; an aborted call changes nothing.
pub set_condition-lookup :
    (cs : Conditions) (condition j : ClusterStatusConditionType) (status : ConditionStatus)
    (message reason : String) (time : ℕ)
    → Dict.lookup j (set_condition cs condition status message reason time).entry_map ≡ (
        if j == condition && not (is_aborted cs condition status)
        then some (
            settled
              (Dict.lookup j cs.entry_map)
              (condition_of condition status message reason time))
        else Dict.lookup j cs.entry_map)
unfolding set_condition settled
set_condition-lookup cs condition j status message reason time = ground (
  arith,
  Dict.lookup-insert condition j (condition_of condition status message reason time) cs.entry_map,
)

-- The versions are never touched.
pub set_condition_versions :
    (cs : Conditions) (condition : ClusterStatusConditionType) (status : ConditionStatus)
    (message reason : String) (time : ℕ)
    → let cs' = set_condition cs condition status message reason time in
      (cs'.current_version ≡ cs.current_version) × (cs'.target_version ≡ cs.target_version)
unfolding set_condition
set_condition_versions cs condition status message reason time = ground arith

-- The last condition of a type in a list.
unfoldable pub last_of : ClusterStatusConditionType → List Condition → Option Condition
last_of j [] = none
last_of j (c ∷ cs) = or_else (last_of j cs) (if c.type == j then some c else none)

lookup-add_all :
    (j : ClusterStatusConditionType) (cs : List Condition)
    (m : Dict ClusterStatusConditionType Condition)
    → Dict.lookup j (add_all cs m) ≡ or_else (last_of j cs) (Dict.lookup j m)
unfolding add_all last_of or_else
lookup-add_all j [] m = refl
lookup-add_all j (c ∷ cs) m =
    ground (arith, lookup-add_all j cs (Dict.insert c.type c m), Dict.lookup-insert c.type j c m)

-- A type reads as its last condition in the status; one that the status lacks is unknown if it is
-- one of the four that are always reported, and else absent.
pub new_conditions-lookup :
    (cos : ClusterOperatorStatus) (target_version : String) (time : ℕ)
    (j : ClusterStatusConditionType)
    → Dict.lookup j (new_conditions cos target_version time).entry_map
      ≡ or_else (last_of j cos.conditions) (
          if j == available || j == progressing || j == degraded || j == upgradeable
          then some (unknown j time)
          else none)
unfolding new_conditions Dict.lookup
new_conditions-lookup cos target_version time j =
    ground (arith, lookup-add_all j cos.conditions (initial_entries time))

-- The condition that is kept has the new status and message.
pub settled_status :
    (old : Option Condition) (new : Condition)
    → ((settled old new).status ≡ new.status) × ((settled old new).message ≡ new.message)
unfolding settled
settled_status none new = (refl, refl)
settled_status (some old) new = ground arith

-- Settling once more on the same status and message keeps the condition.
pub settled_idem :
    (old : Option Condition) (new new' : Condition)
    → new'.status ≡ new.status
    → new'.message ≡ new.message
    → settled (some (settled old new)) new' ≡ settled old new
unfolding settled
settled_idem none new new' p q = ground arith
settled_idem (some old) new new' p q = ground arith
