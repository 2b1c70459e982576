-- ===== src/Status/Conditions.antt =====
-- pkg/client/condition.go: the conditions of a ClusterOperator, by type. The two string types of the
-- API are enumerations with a case for any other text; times are the numbers that the clock gives.
pub mod Set
pub mod Entries
pub mod Reading
use cluster_monitoring_opera.Base.{
  ℕ, String, Bool, true, false, ◌&&◌, ◌||◌, not, Option, none, some, List, [], ◌∷◌, Eq, ◌==◌,
  string_eq, string_discrete, if◌then◌else◌,
}
use cluster_monitoring_opera.Base.Dict
use cluster_monitoring_opera.Base.Dict.{Dict}

pub data ClusterStatusConditionType : Type 0 where
  available progressing degraded upgradeable : ClusterStatusConditionType
  other_type : String → ClusterStatusConditionType

pub data ConditionStatus : Type 0 where
  condition_true condition_false condition_unknown : ConditionStatus
  other_status : String → ConditionStatus

type_discrete : Discrete ClusterStatusConditionType
type_discrete = hlevel string_discrete

status_discrete : Discrete ConditionStatus
status_discrete = hlevel string_discrete

instance unfoldable pub type_eq : Eq ClusterStatusConditionType
unfolding type_discrete
type_eq = record { dec = type_discrete }

instance unfoldable pub status_eq : Eq ConditionStatus
unfolding status_discrete
status_eq = record { dec = status_discrete }

pub record Condition : Type 0 where
  pub type : ClusterStatusConditionType
  pub status : ConditionStatus
  pub last_transition_time : ℕ
  pub reason : String
  pub message : String

pub record OperandVersion : Type 0 where
  pub name : String
  pub version : String

pub record ObjectReference : Type 0 where
  pub group : String
  pub resource : String
  pub name : String

pub record ClusterOperatorStatus : Type 0 where
  pub conditions : List Condition
  pub versions : List OperandVersion
  pub related_objects : List ObjectReference

pub record Conditions : Type 0 where
  pub entry_map : Dict ClusterStatusConditionType Condition
  pub current_version : String
  pub target_version : String

-- A condition that nothing is known of yet.
abbrev pub unknown : ClusterStatusConditionType → ℕ → Condition
unknown type time = record {
  type = type;
  status = condition_unknown;
  last_transition_time = time;
  reason = "";
  message = "";
}

-- The four types that are always reported.
abbrev pub initial_entries : ℕ → Dict ClusterStatusConditionType Condition
initial_entries time =
    (available, unknown available time)
    ∷ (progressing, unknown progressing time)
    ∷ (degraded, unknown degraded time)
    ∷ (upgradeable, unknown upgradeable time)
    ∷ []

-- `for _, c := range cos.Conditions { entries[c.Type] = c }`
unfoldable pub add_all :
    List Condition
    → Dict ClusterStatusConditionType Condition
    → Dict ClusterStatusConditionType Condition
add_all [] entries = entries
add_all (c ∷ cs) entries = add_all cs (Dict.insert c.type c entries)

abbrev pub first_version : List OperandVersion → String
first_version [] = ""
first_version (v ∷ _) = v.version

unfoldable pub new_conditions : ClusterOperatorStatus → String → ℕ → Conditions
new_conditions cos target_version time = record {
  entry_map = add_all cos.conditions (initial_entries time);
  current_version = first_version cos.versions;
  target_version = target_version;
}

-- `!ok || c.Status != status || c.Message != message`
abbrev pub is_changed : Option Condition → ConditionStatus → String → Bool
is_changed none status message = true
is_changed (some c) status message = not (c.status == status) || not (c.message == message)

-- `hasAvailable && available.Status == v1.ConditionTrue`
abbrev pub is_available : Option Condition → Bool
is_available none = false
is_available (some c) = c.status == condition_true

-- `entries`, the copy of the map with the new condition where that differs.
abbrev pub with_condition :
    Dict ClusterStatusConditionType Condition
    → Condition
    → Dict ClusterStatusConditionType Condition
with_condition m c =
    if is_changed (Dict.lookup c.type m) c.status c.message then Dict.insert c.type c m else m

-- `abort`
abbrev pub is_aborted : Conditions → ClusterStatusConditionType → ConditionStatus → Bool
is_aborted cs condition status =
    condition == progressing
    && status == condition_true
    && is_available (Dict.lookup available cs.entry_map)
    && cs.target_version == cs.current_version

abbrev pub condition_of :
    ClusterStatusConditionType → ConditionStatus → String → String → ℕ → Condition
condition_of type status message reason time = record {
  type = type;
  status = status;
  last_transition_time = time;
  reason = reason;
  message = message;
}

unfoldable pub set_condition :
    Conditions → ClusterStatusConditionType → ConditionStatus → String → String → ℕ → Conditions
set_condition cs condition status message reason time =
    let entries = with_condition cs.entry_map (condition_of condition status message reason time) in
    if is_aborted cs condition status then cs else record cs { entry_map = entries }

-- The values of the map, in the order of its entries: the code returns them in any order.
unfoldable pub entries : Conditions → List Condition
entries cs = Dict.values cs.entry_map
