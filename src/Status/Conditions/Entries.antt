-- ===== src/Status/Conditions/Entries.antt =====
-- The map of conditions is well formed, so its entries, in any one order, read as the map does.
use cluster_monitoring_opera.Base.{ℕ, String, or_else, List, [], ◌∷◌, ◌≡◌, refl, arith, string_eq}
use cluster_monitoring_opera.Base.Dict
use cluster_monitoring_opera.Base.Dict.{Dict}
use cluster_monitoring_opera.Status.Conditions.{
  ClusterStatusConditionType, ConditionStatus, Condition, Conditions, ClusterOperatorStatus,
  type_eq, status_eq, condition_of, set_condition, new_conditions, add_all, initial_entries,
  entries,
}
use cluster_monitoring_opera.Status.Conditions.Set.{last_of}

abbrev IsKeyed : Dict ClusterStatusConditionType Condition → Type 0
IsKeyed [] = Unit
IsKeyed ((k, c) ∷ m) = (c.type ≡ k) × IsKeyed m

-- Each type has one entry, and it holds a condition of that type.
pub record IsValid (cs : Conditions) : Type 0 where
  pub keyed : IsKeyed cs.entry_map
  pub nodup : Dict.NodupKeys cs.entry_map

insert-IsKeyed :
    (c : Condition) (m : Dict ClusterStatusConditionType Condition)
    → IsKeyed m
    → IsKeyed (Dict.insert c.type c m)
unfolding Dict.insert
insert-IsKeyed c [] _ = (refl, tt)
insert-IsKeyed c (_ ∷ m) (e, h) = ground (arith, insert-IsKeyed c m h)

add_all-IsKeyed :
    (cs : List Condition) (m : Dict ClusterStatusConditionType Condition)
    → IsKeyed m
    → IsKeyed (add_all cs m)
unfolding add_all
add_all-IsKeyed [] m h = h
add_all-IsKeyed (c ∷ cs) m h = add_all-IsKeyed cs _ (insert-IsKeyed c m h)

add_all-NodupKeys :
    (cs : List Condition) (m : Dict ClusterStatusConditionType Condition)
    → Dict.NodupKeys m
    → Dict.NodupKeys (add_all cs m)
unfolding add_all
add_all-NodupKeys [] m h = h
add_all-NodupKeys (c ∷ cs) m h = add_all-NodupKeys cs _ (Dict.insert-NodupKeys c.type c m h)

pub new_conditions-IsValid :
    (cos : ClusterOperatorStatus) (target_version : String) (time : ℕ)
    → IsValid (new_conditions cos target_version time)
unfolding new_conditions Dict.lookup type_eq
new_conditions-IsValid cos target_version time = record {
  keyed = add_all-IsKeyed cos.conditions _ (refl, (refl, (refl, (refl, tt))));
  nodup =
      add_all-NodupKeys cos.conditions (initial_entries time) (refl, (refl, (refl, (refl, tt))));
}

-- `setCondition` keeps the map valid: every entry stands under its own type, and once.
pub set_condition-IsValid :
    (cs : Conditions) (condition : ClusterStatusConditionType) (status : ConditionStatus)
    (message reason : String) (time : ℕ)
    → IsValid cs
    → IsValid (set_condition cs condition status message reason time)
unfolding set_condition
set_condition-IsValid cs condition status message reason time v =
    let c = condition_of condition status message reason time in
    ground (
      arith,
      insert-IsKeyed c cs.entry_map v.keyed,
      Dict.insert-NodupKeys condition c cs.entry_map v.nodup,
    )

last_of-values :
    (j : ClusterStatusConditionType) (m : Dict ClusterStatusConditionType Condition)
    → IsKeyed m
    → Dict.NodupKeys m
    → last_of j (Dict.values m) ≡ Dict.lookup j m
unfolding last_of Dict.values Dict.lookup or_else
last_of-values j [] _ _ = refl
last_of-values j (_ ∷ m) (e, h) (fresh, u) = ground (arith, last_of-values j m h u)

pub last_of-entries :
    (j : ClusterStatusConditionType) (cs : Conditions)
    → IsValid cs
    → last_of j (entries cs) ≡ Dict.lookup j cs.entry_map
unfolding entries
last_of-entries j cs v = last_of-values j cs.entry_map v.keyed v.nodup
