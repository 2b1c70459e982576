-- ===== src/Promqlgen/Relabel.antt =====
-- What `LabelSelectorsToRelabelConfig` puts at the place of each label.
use cluster_monitoring_opera.Base.{
  ℕ, zero, suc, String, true, false, Option, none, some, List, [], ◌∷◌, map, ◌==◌, string_eq,
  if◌then◌else◌, ◌≡◌, refl, sym, ap, subst, ◌∙◌, arith, All, Bool-cases, inl, inr,
}
use cluster_monitoring_opera.Promqlgen.{
  or_zero, Matcher, Positions, collect_labels, no_labels, blanks, set_value_at, position_of,
  label_values,
}
use cluster_monitoring_opera.Promqlgen.Indices.{
  next_index, index_of, Nodup, Known, IsIndex, index_of-eq-none, no_labels-IsIndex,
  collect_labels-IsIndex, collect_labels-All,
}

-- The value that the last matcher of a label gives it.
abbrev pub last_value : List Matcher → String → String → String
last_value [] l v = v
last_value (lm ∷ ls) l v = last_value ls l (if l == lm.name then lm.value else v)

same_text : (s t : String) → (s == t) ≡ true → s ≡ t
same_text s t h = ground arith

next_index-eq-suc : (o : Option ℕ) (i : ℕ) → next_index o ≡ some (suc i) → o ≡ some i
next_index-eq-suc none i h = cc
next_index-eq-suc (some j) i h = cc

next_index-ne-zero : (o : Option ℕ) → ¬ (next_index o ≡ some 0)
next_index-ne-zero none h = cc
next_index-ne-zero (some j) h = ground arith

index_of-eq-zero :
    (l x : String) (xs : List String) → index_of l (x ∷ xs) ≡ some 0 → (x == l) ≡ true
index_of-eq-zero l x xs e = elim (Bool-cases (x == l)) [
  | inl same ↦ same
  | inr other ↦ let e' = rw other at e in elim (next_index-ne-zero (index_of l xs) e') [ ]
]

index_of-eq-suc :
    (l x : String) (xs : List String) (i : ℕ)
    → index_of l (x ∷ xs) ≡ some (suc i)
    → ((x == l) ≡ false) × (index_of l xs ≡ some i)
index_of-eq-suc l x xs i e = elim (Bool-cases (x == l)) [
  | inl same ↦ let e' = rw same at e in ground arith
  | inr other ↦ let e' = rw other at e in (other, next_index-eq-suc (index_of l xs) i e')
]

map-absent :
    (l v : String) (g : String → String) (xs : List String)
    → index_of l xs ≡ none
    → map (λ x. if x == l then v else g x) xs ≡ map g xs
map-absent l v g [] h = refl
map-absent l v g (x ∷ xs) h =
    let (other, h') = index_of-eq-none l x xs h in
    rw other (ap (λ ys. g x ∷ ys) (map-absent l v g xs h'))

-- One write, seen as a function of the label.
set_value_at-map :
    (l v : String) (g : String → String) (labels : List String) (i : ℕ)
    → Nodup labels
    → index_of l labels ≡ some i
    → set_value_at i v (map g labels) ≡ map (λ x. if x == l then v else g x) labels
unfolding set_value_at
set_value_at-map l v g [] i u e = cc
set_value_at-map l v g (x ∷ xs) zero (fresh, u) e =
    let same = index_of-eq-zero l x xs e in
    let fresh' : index_of l xs ≡ none =
      subst (λ y. index_of y xs ≡ none) (same_text x l same) fresh in
    rw same (ap (λ ys. v ∷ ys) (sym (map-absent l v g xs fresh')))
set_value_at-map l v g (x ∷ xs) (suc i) (fresh, u) e =
    let (other, e') = index_of-eq-suc l x xs i e in
    rw other (ap (λ ys. g x ∷ ys) (set_value_at-map l v g xs i u e'))

label_values-map :
    (p : Positions)
    → IsIndex p
    → (ls : List Matcher) (g : String → String) → All (Known p) ls
    → label_values p.label_positions ls (map g p.source_labels)
      ≡ map (λ l. last_value ls l (g l)) p.source_labels
unfolding label_values
label_values-map p h [] g k = refl
label_values-map p h (lm ∷ ls) g ((i, e), k) =
    let g' : String → String = λ l. if l == lm.name then lm.value else g l in
    let at : position_of p.label_positions lm.name ≡ i = ap or_zero e in
    ap (label_values p.label_positions ls) (
      ap (λ j. set_value_at j lm.value (map g p.source_labels)) at
      ∙ set_value_at-map lm.name lm.value g p.source_labels i h.nodup (sym (h.index lm.name) ∙ e))
    ∙ label_values-map p h ls g' k

blanks-map : (labels : List String) → blanks labels ≡ map (λ _. "") labels
blanks-map [] = refl
blanks-map (_ ∷ labels) = ap (λ vs. "" ∷ vs) (blanks-map labels)

pub collect_labels-values :
    (sets : List (List Matcher))
    → let p = collect_labels sets no_labels in
      All
        (λ ls.
          label_values p.label_positions ls (blanks p.source_labels)
          ≡ map (λ l. last_value ls l "") p.source_labels)
        sets
collect_labels-values sets = each sets (collect_labels-All sets no_labels)
  where
    each :
        (some_sets : List (List Matcher))
        → All (λ ls. All (Known (collect_labels sets no_labels)) ls) some_sets
        → All
            (λ ls.
              label_values
                (collect_labels sets no_labels).label_positions
                ls
                (blanks (collect_labels sets no_labels).source_labels)
              ≡ map (λ l. last_value ls l "") (collect_labels sets no_labels).source_labels)
            some_sets
    each [] k = tt
    each (ls ∷ rest) (k, ks) =
        let p = collect_labels sets no_labels in
        (
          ap (label_values p.label_positions ls) (blanks-map p.source_labels)
              ∙ label_values-map p (collect_labels-IsIndex sets no_labels no_labels-IsIndex) ls
                  (λ _. "") k,
          each rest ks,
        )
