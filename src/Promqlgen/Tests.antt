-- ===== src/Promqlgen/Tests.antt =====
-- Label selectors and a relabelling at concrete selectors.
use cluster_monitoring_opera.Base.{List, [], ◌∷◌, none, string_eq, map, ◌≡◌, refl, All, ok}
use cluster_monitoring_opera.Base.Dict
use cluster_monitoring_opera.Texts.{join}
use cluster_monitoring_opera.Promqlgen.{
  Matcher, group_values, group_label_selectors, collect_labels, no_labels, label_values, blanks,
  parse_metric_selector_from_array, add_values, add_value, sort_strings, insert_sorted,
}
use cluster_monitoring_opera.Promqlgen.Groups.{
  values_named, extended, all_matchers, group_values-lookup,
}
use cluster_monitoring_opera.Promqlgen.Relabel.{last_value, collect_labels-values}

abbrev up : Matcher
up = record { name = "__name__"; value = "up" }

abbrev job : Matcher
job = record { name = "job"; value = "etcd" }

abbrev down : Matcher
down = record { name = "__name__"; value = "down" }

abbrev sets : List (List Matcher)
sets = (up ∷ job ∷ []) ∷ (down ∷ []) ∷ []

grouped :
    group_label_selectors (λ m. ok (up ∷ job ∷ [])) ("a" ∷ "b" ∷ [])
    ≡ ok "{__name__=~\"up|up\",job=~\"etcd|etcd|\"}"
unfolding group_label_selectors group_values add_values add_value sort_strings insert_sorted join
    parse_metric_selector_from_array Dict.lookup Dict.insert string_eq
grouped = refl

group_values-lookup_example :
    Dict.lookup "__name__" (group_values sets [])
    ≡ extended none (values_named "__name__" (all_matchers sets))
group_values-lookup_example = group_values-lookup "__name__" sets

collect_labels-values_example :
    All
      (λ ls.
        label_values
          (collect_labels sets no_labels).label_positions
          ls
          (blanks (collect_labels sets no_labels).source_labels)
        ≡ map (λ l. last_value ls l "") (collect_labels sets no_labels).source_labels)
      sets
collect_labels-values_example = collect_labels-values sets
