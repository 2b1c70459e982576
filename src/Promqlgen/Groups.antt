-- ===== src/Promqlgen/Groups.antt =====
-- What `GroupLabelSelectors` groups under a label.
use cluster_monitoring_opera.Base.{
  String, Option, none, some, List, [], ◌∷◌, ◌++◌, ◌==◌, string_eq, if◌then◌else◌, ◌≡◌, refl, sym,
  ap, ◌∙◌, arith,
}
use cluster_monitoring_opera.Base.Dict
use cluster_monitoring_opera.Base.Dict.{Dict}
use mathlib.Core.List.{append_assoc, append-nil}
use cluster_monitoring_opera.Promqlgen.{Matcher, add_value, add_values, group_values}

-- The values of the matchers of a label, in their order.
abbrev pub values_named : String → List Matcher → List String
values_named k [] = []
values_named k (lm ∷ ls) =
    let rest = values_named k ls in if lm.name == k then lm.value ∷ rest else rest

-- Values behind those that are known.
abbrev pub extended : Option (List String) → List String → Option (List String)
extended o [] = o
extended none (v ∷ vs) = some (v ∷ vs)
extended (some us) (v ∷ vs) = some (us ++ (v ∷ vs))

extended-append :
    (o : Option (List String)) (us vs : List String)
    → extended (extended o us) vs ≡ extended o (us ++ vs)
extended-append o [] vs = refl
extended-append none (u ∷ us) [] = ap some (sym (append-nil (u ∷ us)))
extended-append none (u ∷ us) (v ∷ vs) = refl
extended-append (some ws) (u ∷ us) [] = ap (λ x. some (ws ++ (u ∷ x))) (sym (append-nil us))
extended-append (some ws) (u ∷ us) (v ∷ vs) = ap some (append_assoc ws (u ∷ us) (v ∷ vs))

lookup-add_value :
    (k : String) (lm : Matcher) (groups : Dict String (List String))
    → Dict.lookup k (add_value lm groups)
      ≡ extended (Dict.lookup k groups) (values_named k (lm ∷ []))
unfolding add_value
lookup-add_value k lm groups = by_known (Dict.lookup lm.name groups) refl
  where
    by_known :
        (o : Option (List String))
        → Dict.lookup lm.name groups ≡ o
        → Dict.lookup k (elim o as (λ _. Dict String (List String)) [
          | none ↦ Dict.insert lm.name (lm.value ∷ []) groups
          | some values ↦ Dict.insert lm.name (values ++ (lm.value ∷ [])) groups
        ])
          ≡ extended (Dict.lookup k groups) (values_named k (lm ∷ []))
    by_known none e = ground (arith, Dict.lookup-insert lm.name k (lm.value ∷ []) groups)
    by_known (some vs) e =
        ground (arith, Dict.lookup-insert lm.name k (vs ++ (lm.value ∷ [])) groups)

values_named-cons :
    (k : String) (lm : Matcher) (ls : List Matcher)
    → values_named k (lm ∷ ls) ≡ values_named k (lm ∷ []) ++ values_named k ls
values_named-cons k lm ls = ground arith

lookup-add_values :
    (k : String) (ls : List Matcher) (groups : Dict String (List String))
    → Dict.lookup k (add_values ls groups) ≡ extended (Dict.lookup k groups) (values_named k ls)
unfolding add_values
lookup-add_values k [] groups = refl
lookup-add_values k (lm ∷ ls) groups =
    lookup-add_values k ls (add_value lm groups)
    ∙ ap (λ o. extended o (values_named k ls)) (lookup-add_value k lm groups)
    ∙ extended-append (Dict.lookup k groups) (values_named k (lm ∷ [])) (values_named k ls)
    ∙ ap (extended (Dict.lookup k groups)) (sym (values_named-cons k lm ls))

-- All matchers, in the order of the selectors.
abbrev pub all_matchers : List (List Matcher) → List Matcher
all_matchers [] = []
all_matchers (ls ∷ sets) = ls ++ all_matchers sets

values_named-append :
    (k : String) (ls ms : List Matcher)
    → values_named k (ls ++ ms) ≡ values_named k ls ++ values_named k ms
values_named-append k [] ms = refl
values_named-append k (lm ∷ ls) ms = ground (arith, values_named-append k ls ms)

group_values_onto :
    (k : String) (sets : List (List Matcher)) (groups : Dict String (List String))
    → Dict.lookup k (group_values sets groups)
      ≡ extended (Dict.lookup k groups) (values_named k (all_matchers sets))
unfolding group_values
group_values_onto k [] groups = refl
group_values_onto k (ls ∷ sets) groups =
    group_values_onto k sets (add_values ls groups)
    ∙ ap (λ o. extended o (values_named k (all_matchers sets))) (lookup-add_values k ls groups)
    ∙ extended-append (Dict.lookup k groups) (values_named k ls)
        (values_named k (all_matchers sets))
    ∙ ap (extended (Dict.lookup k groups)) (sym (values_named-append k ls (all_matchers sets)))

-- The label selector groups under each label the values of all its matchers, in the order of the
-- selectors, and has no entry for a label without a matcher.
pub group_values-lookup :
    (k : String) (sets : List (List Matcher))
    → Dict.lookup k (group_values sets []) ≡ extended none (values_named k (all_matchers sets))
unfolding Dict.lookup
group_values-lookup k sets = group_values_onto k sets []
