-- ===== src/Promqlgen/Indices.antt =====
-- The positions of the labels that `LabelSelectorsToRelabelConfig` collects.
use cluster_monitoring_opera.Base.{
  ℕ, suc, String, Bool, true, false, Option, none, some, List, [], ◌∷◌, ◌++◌, length, ◌==◌, ==_refl,
  string_eq, if◌then◌else◌, ◌≡◌, refl, sym, ap, ◌∙◌, arith, All, Bool-cases, inl, inr, ◌⊎◌,
}
use cluster_monitoring_opera.Base.Dict
use cluster_monitoring_opera.Base.Dict.{Dict}
use cluster_monitoring_opera.Promqlgen.{
  Matcher, Positions, add_label, add_labels, collect_labels, no_labels,
}

abbrev pub next_index : Option ℕ → Option ℕ
next_index none = none
next_index (some i) = some (suc i)

-- Where a label stands first.
abbrev pub index_of : String → List String → Option ℕ
index_of l [] = none
index_of l (x ∷ xs) = let rest = next_index (index_of l xs) in if x == l then some 0 else rest

abbrev pub Nodup : List String → Type 0
Nodup [] = Unit
Nodup (x ∷ xs) = (index_of x xs ≡ none) × Nodup xs

abbrev or_at : Option ℕ → Bool → ℕ → Option ℕ
or_at (some i) b n = some i
or_at none b n = if b then some n else none

or_at-suc :
    (o : Option ℕ) (b : Bool) (n : ℕ) → next_index (or_at o b n) ≡ or_at (next_index o) b (suc n)
or_at-suc none true n = refl
or_at-suc none false n = refl
or_at-suc (some i) b n = refl

index_of-append :
    (l m : String) (xs : List String)
    → index_of l (xs ++ (m ∷ [])) ≡ or_at (index_of l xs) (m == l) (length xs)
index_of-append l m [] = refl
index_of-append l m (x ∷ xs) =
    let rest = index_of-append l m xs in
    let step = or_at-suc (index_of l xs) (m == l) (length xs) in
    elim (Bool-cases (x == l)) [
      | inl same ↦ rw same refl
      | inr other ↦ rw other (ap next_index rest ∙ step)
    ]

next_index-eq-none : (o : Option ℕ) → next_index o ≡ none → o ≡ none
next_index-eq-none none h = refl
next_index-eq-none (some i) h = cc

pub index_of-eq-none :
    (m x : String) (xs : List String)
    → index_of m (x ∷ xs) ≡ none
    → ((x == m) ≡ false) × (index_of m xs ≡ none)
index_of-eq-none m x xs h = elim (Bool-cases (x == m)) [
  | inl same ↦ let h' = rw same at h in cc
  | inr other ↦ let h' = rw other at h in (other, next_index-eq-none (index_of m xs) h')
]

differ : (x m : String) → (x == m) ≡ false → (m == x) ≡ false
differ x m h = ground arith

Nodup-append :
    (m : String) (xs : List String) → index_of m xs ≡ none → Nodup xs → Nodup (xs ++ (m ∷ []))
Nodup-append m [] h u = (refl, tt)
Nodup-append m (x ∷ xs) h (fresh, u) =
    let (other, absent) = index_of-eq-none m x xs h in
    (index_of-append x m xs ∙ rw fresh (rw (differ x m other) refl), Nodup-append m xs absent u)

length-append_one : (xs : List String) (m : String) → length (xs ++ (m ∷ [])) ≡ suc (length xs)
length-append_one [] m = refl
length-append_one (x ∷ xs) m = ap suc (length-append_one xs m)

-- The positions are those of the labels, each of which stands there once.
pub record IsIndex (p : Positions) : Type 0 where
  pub index : (l : String) → Dict.lookup l p.label_positions ≡ index_of l p.source_labels
  pub nodup : Nodup p.source_labels
  pub size : p.next ≡ length p.source_labels

pub no_labels-IsIndex : IsIndex no_labels
unfolding Dict.lookup
no_labels-IsIndex = record { index = λ l. refl; nodup = tt; size = refl }

add_label-IsIndex : (lm : Matcher) (p : Positions) → IsIndex p → IsIndex (add_label lm p)
unfolding add_label
add_label-IsIndex lm p h = by_known (Dict.lookup lm.name p.label_positions) refl
  where
    longer : Positions
    longer = record {
      label_positions = Dict.insert lm.name p.next p.label_positions;
      source_labels = p.source_labels ++ (lm.name ∷ []);
      next = suc p.next;
    }

    by_known :
        (o : Option ℕ)
        → Dict.lookup lm.name p.label_positions ≡ o
        → IsIndex (elim o as (λ _. Positions) [ some _ ↦ p | none ↦ longer ])
    by_known (some i) e = h
    by_known none e = record {
      index = λ l. ground (
        arith,
        Dict.lookup-insert lm.name l p.next p.label_positions,
        index_of-append l lm.name p.source_labels,
        h.index l,
        h.size,
      );
      nodup = Nodup-append lm.name p.source_labels (sym (h.index lm.name) ∙ e) h.nodup;
      size = ap suc h.size ∙ sym (length-append_one p.source_labels lm.name);
    }

-- A label that has a position.
abbrev pub Known : Positions → Matcher → Type 0
Known p lm = (i : ℕ) × (Dict.lookup lm.name p.label_positions ≡ some i)

-- A label keeps its position, and a label that is added has one.
add_label-Known :
    (lm m : Matcher) (p : Positions) → Known p m ⊎ (m.name ≡ lm.name) → Known (add_label lm p) m
unfolding add_label
add_label-Known lm m p h = by_known (Dict.lookup lm.name p.label_positions) refl h
  where
    longer : Positions
    longer = record {
      label_positions = Dict.insert lm.name p.next p.label_positions;
      source_labels = p.source_labels ++ (lm.name ∷ []);
      next = suc p.next;
    }

    by_known :
        (o : Option ℕ)
        → Dict.lookup lm.name p.label_positions ≡ o
        → Known p m ⊎ (m.name ≡ lm.name)
        → Known (elim o as (λ _. Positions) [ some _ ↦ p | none ↦ longer ]) m
    by_known (some i) e (inl known) = known
    by_known (some i) e (inr same) = (i, rw same e)
    by_known none e (inl (j, known)) = elim (Bool-cases (lm.name == m.name)) [
      | inl same ↦
          (p.next, Dict.lookup-insert lm.name m.name p.next p.label_positions ∙ rw same refl)
      | inr other ↦ (j, Dict.lookup-insert lm.name m.name p.next p.label_positions ∙ rw other known)
    ]
    by_known none e (inr same) = (
      p.next,
      rw same
          (Dict.lookup-insert lm.name lm.name p.next p.label_positions ∙ rw (==_refl lm.name) refl),
    )

add_labels-Known :
    (ls : List Matcher) (m : Matcher) (p : Positions) → Known p m → Known (add_labels ls p) m
unfolding add_labels
add_labels-Known [] m p h = h
add_labels-Known (lm ∷ ls) m p h =
    add_labels-Known ls m (add_label lm p) (add_label-Known lm m p (inl h))

add_labels-All : (ls : List Matcher) (p : Positions) → All (Known (add_labels ls p)) ls
unfolding add_labels
add_labels-All [] p = tt
add_labels-All (lm ∷ ls) p = (
  add_labels-Known ls lm (add_label lm p) (add_label-Known lm lm p (inr refl)),
  add_labels-All ls (add_label lm p),
)

add_labels-IsIndex : (ls : List Matcher) (p : Positions) → IsIndex p → IsIndex (add_labels ls p)
unfolding add_labels
add_labels-IsIndex [] p h = h
add_labels-IsIndex (lm ∷ ls) p h = add_labels-IsIndex ls (add_label lm p) (add_label-IsIndex lm p h)

pub collect_labels-IsIndex :
    (sets : List (List Matcher)) (p : Positions) → IsIndex p → IsIndex (collect_labels sets p)
unfolding collect_labels
collect_labels-IsIndex [] p h = h
collect_labels-IsIndex (ls ∷ sets) p h =
    collect_labels-IsIndex sets (add_labels ls p) (add_labels-IsIndex ls p h)

collect_labels-Known :
    (sets : List (List Matcher)) (ls : List Matcher) (p : Positions)
    → All (Known p) ls
    → All (Known (collect_labels sets p)) ls
unfolding collect_labels
collect_labels-Known [] ls p h = h
collect_labels-Known (ms ∷ sets) ls p h = collect_labels-Known sets ls (add_labels ms p) (each ls h)
  where
    each : (ls : List Matcher) → All (Known p) ls → All (Known (add_labels ms p)) ls
    each [] h = tt
    each (lm ∷ ls) (k, h) = (add_labels-Known ms lm p k, each ls h)

pub collect_labels-All :
    (sets : List (List Matcher)) (p : Positions)
    → All (λ ls. All (Known (collect_labels sets p)) ls) sets
unfolding collect_labels
collect_labels-All [] p = tt
collect_labels-All (ls ∷ sets) p = (
  collect_labels-Known sets ls (add_labels ls p) (add_labels-All ls p),
  collect_labels-All sets (add_labels ls p),
)
