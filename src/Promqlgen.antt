-- ===== src/Promqlgen.antt =====
-- pkg/promqlgen/promqlgen.go: a label selector, or a relabelling, for a list of metric selectors.
pub mod Groups
pub mod Indices
pub mod Relabel
mod Tests
use Prim.Native.Nat.{Ordering}
use Prim.Native.String as Native
use cluster_monitoring_opera.Base.{
  ℕ, zero, suc, ◌+◌, String, ◌<>◌, Bool, true, false, Option, none, some, List, [], ◌∷◌, ◌++◌, map,
  ◌==◌, string_eq, if◌then◌else◌, length, Error, Result, ok, err, or_wrap,
}
use cluster_monitoring_opera.Base.Dict
use cluster_monitoring_opera.Base.Dict.{Dict}
use cluster_monitoring_opera.Texts.{join}

-- `labels.Matcher`, with the fields that the code reads.
pub record Matcher : Type 0 where
  pub name : String
  pub value : String

-- `monv1.RelabelConfig`, with the fields that are set.
pub record RelabelConfig : Type 0 where
  pub action : String
  pub source_labels : List String
  pub regex : String

abbrev pub with_rest : {A : Type 0} → Result A → Result (List A) → Result (List A)
with_rest (err e) rest = err e
with_rest (ok ls) (err e) = err e
with_rest (ok ls) (ok sets) = ok (ls ∷ sets)

-- `promql.ParseMetricSelector` is a parameter.
unfoldable pub parse_metric_selector_from_array :
    (String → Result (List Matcher)) → List String → Result (List (List Matcher))
parse_metric_selector_from_array parse [] = ok []
parse_metric_selector_from_array parse (m ∷ matches) =
    with_rest (parse m) (parse_metric_selector_from_array parse matches)

-- `newLabelSet[lm.Name] = append(newLabelSet[lm.Name], lm.Value)`, or a first value.
unfoldable pub add_value : Matcher → Dict String (List String) → Dict String (List String)
add_value lm groups = elim (Dict.lookup lm.name groups) [
  | none ↦ Dict.insert lm.name (lm.value ∷ []) groups
  | some values ↦ Dict.insert lm.name (values ++ (lm.value ∷ [])) groups
]

-- The two loops.
unfoldable pub add_values : List Matcher → Dict String (List String) → Dict String (List String)
unfolding add_value
add_values [] groups = groups
add_values (lm ∷ ls) groups = add_values ls (add_value lm groups)

unfoldable pub group_values :
    List (List Matcher) → Dict String (List String) → Dict String (List String)
unfolding add_values
group_values [] groups = groups
group_values (ls ∷ sets) groups = group_values sets (add_values ls groups)

-- `sort.Strings`
abbrev pub is_less : String → String → Bool
is_less s t = elim (Native.compare s t) [ Ordering.lt ↦ true | _ ↦ false ]

unfoldable pub insert_sorted : String → List String → List String
insert_sorted s [] = s ∷ []
insert_sorted s (t ∷ ts) =
    let rest = insert_sorted s ts in if is_less s t then s ∷ t ∷ ts else t ∷ rest

unfoldable pub sort_strings : List String → List String
unfolding insert_sorted
sort_strings [] = []
sort_strings (s ∷ ss) = insert_sorted s (sort_strings ss)

abbrev pub keys_of : Dict String (List String) → List String
keys_of [] = []
keys_of ((k, _) ∷ groups) = k ∷ keys_of groups

abbrev pub values_of : Dict String (List String) → String → List String
values_of groups k = elim (Dict.lookup k groups) [ none ↦ [] | some values ↦ values ]

-- One key with its values; other labels than the name of the metric may also be empty.
abbrev pub key_text : Dict String (List String) → String → String
key_text groups k =
    k <> "=~\"" <> join "|" (values_of groups k) <> (if k == "__name__" then "" else "|")

abbrev pub keys_text : Dict String (List String) → List String → String
keys_text groups [] = ""
keys_text groups (k ∷ []) = key_text groups k <> "\""
keys_text groups (k ∷ j ∷ ks) = key_text groups k <> "\"," <> keys_text groups (j ∷ ks)

abbrev pub selector_text : Dict String (List String) → String
selector_text groups = "{" <> keys_text groups (sort_strings (keys_of groups)) <> "}"

abbrev pub map_ok : {A B : Type 0} → (A → B) → Result A → Result B
map_ok f (ok a) = ok (f a)
map_ok f (err e) = err e

unfoldable pub group_label_selectors :
    (String → Result (List Matcher)) → List String → Result String
unfolding group_values sort_strings join
group_label_selectors parse matches =
    map_ok (λ sets. selector_text (group_values sets []))
      (or_wrap "could not parse metric selectors from matches array"
        (parse_metric_selector_from_array parse matches))

-- `labelPositions`, `sourceLabels` and `i`.
pub record Positions : Type 0 where
  pub label_positions : Dict String ℕ
  pub source_labels : List String
  pub next : ℕ

unfoldable pub add_label : Matcher → Positions → Positions
add_label lm p = elim (Dict.lookup lm.name p.label_positions) [
  | some _ ↦ p
  | none ↦ record {
    label_positions = Dict.insert lm.name p.next p.label_positions;
    source_labels = p.source_labels ++ (lm.name ∷ []);
    next = suc p.next;
  }
]

unfoldable pub add_labels : List Matcher → Positions → Positions
unfolding add_label
add_labels [] p = p
add_labels (lm ∷ ls) p = add_labels ls (add_label lm p)

unfoldable pub collect_labels : List (List Matcher) → Positions → Positions
unfolding add_labels
collect_labels [] p = p
collect_labels (ls ∷ sets) p = collect_labels sets (add_labels ls p)

abbrev pub no_labels : Positions
no_labels = record { label_positions = []; source_labels = []; next = 0 }

-- `make([]string, len(sourceLabels))`
abbrev pub blanks : List String → List String
blanks [] = []
blanks (_ ∷ labels) = "" ∷ blanks labels

-- `labelValues[i] = v`; the positions are inside the list.
unfoldable pub set_value_at : ℕ → String → List String → List String
set_value_at i v [] = []
set_value_at zero v (_ ∷ vs) = v ∷ vs
set_value_at (suc i) v (w ∷ vs) = w ∷ set_value_at i v vs

abbrev pub or_zero : Option ℕ → ℕ
or_zero none = 0
or_zero (some i) = i

-- `labelPositions[lm.Name]`
abbrev pub position_of : Dict String ℕ → String → ℕ
position_of positions name = or_zero (Dict.lookup name positions)

unfoldable pub label_values : Dict String ℕ → List Matcher → List String → List String
unfolding set_value_at
label_values positions [] vs = vs
label_values positions (lm ∷ ls) vs =
    label_values positions ls (set_value_at (position_of positions lm.name) lm.value vs)

abbrev pub regex_part : Positions → List Matcher → String
regex_part p ls = join ";" (label_values p.label_positions ls (blanks p.source_labels))

abbrev pub relabel_config : List (List Matcher) → Positions → RelabelConfig
relabel_config sets p = record {
  action = "keep";
  source_labels = p.source_labels;
  regex = "(" <> join "|" (map (regex_part p) sets) <> ")";
}

unfoldable pub label_selectors_to_relabel_config :
    (String → Result (List Matcher)) → List String → Result RelabelConfig
unfolding collect_labels label_values join
label_selectors_to_relabel_config parse matches =
    map_ok (λ sets. relabel_config sets (collect_labels sets no_labels))
      (or_wrap "could not parse metric selectors from matches array"
        (parse_metric_selector_from_array parse matches))
