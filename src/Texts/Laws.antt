-- ===== src/Texts/Laws.antt =====
-- How the parts of a text and the text that joins them determine each other.
use Prim.Native.Char.{Char}
use Prim.Native.String as Native
use text.Mathlib.TextLemmas.{nil-append, cons-append, append_assoc}
use cluster_monitoring_opera.Base.{
  String, ◌<>◌, true, false, List, [], ◌∷◌, ◌++◌, ◌==◌, ==_refl, ◌≡◌, refl, sym, ap, ◌∙◌, inl, inr,
  All, arith, Bool-cases,
}
use cluster_monitoring_opera.Texts.{char_eq, split, join, all_but_last, last_part}

-- The text does not have the character.
abbrev pub IsFree : Char → String → Type 0
IsFree c Native.[] = Unit
IsFree c (Native.◌∷◌ d s) = ((d == c) ≡ false) × IsFree c s

-- The separator as a text.
abbrev pub text_of : Char → String
text_of c = Native.◌∷◌ c ""

-- A text has at least one part.
pub split-cons : (c : Char) (s : String) → (p : String) × (ps : List String) × (split c s ≡ p ∷ ps)
unfolding split
split-cons c Native.[] = ("", [], refl)
split-cons c (Native.◌∷◌ d s) =
    let (p, ps, e) = split-cons c s in
    elim (Bool-cases (d == c)) [
      | inl same ↦ ("", split c s, rw same refl)
      | inr other ↦ (Native.◌∷◌ d p, ps, rw other (rw e refl))
    ]

-- The parts of two texts with a separator between them.
pub split-append :
    (c : Char) (s t : String) → split c (s <> Native.◌∷◌ c t) ≡ split c s ++ split c t
unfolding split
split-append c Native.[] t = ap (split c) (nil-append (Native.◌∷◌ c t)) ∙ rw (==_refl c) refl
split-append c (Native.◌∷◌ d s) t =
    let (p, ps, e) = split-cons c s in
    let rest = split-append c s t in
    ap (split c) (cons-append d s (Native.◌∷◌ c t)) ∙ elim (Bool-cases (d == c)) [
      | inl same ↦ rw same (ap (λ x. "" ∷ x) rest)
      | inr other ↦ rw other (rw rest (rw e refl))
    ]

pub split-IsFree : (c : Char) (s : String) → IsFree c s → split c s ≡ s ∷ []
unfolding split
split-IsFree c Native.[] h = refl
split-IsFree c (Native.◌∷◌ d s) (other, h) = rw other (rw (split-IsFree c s h) refl)

join-cons :
    (sep p : String) (ps : List String) (c : Char)
    → join sep (Native.◌∷◌ c p ∷ ps) ≡ Native.◌∷◌ c (join sep (p ∷ ps))
unfolding join
join-cons sep p [] c = refl
join-cons sep p (q ∷ qs) c = cons-append c p (sep <> join sep (q ∷ qs))

same_char : (d c : Char) → (d == c) ≡ true → d ≡ c
same_char d c h = ground arith

separated : (c : Char) (s : String) → "" <> text_of c <> s ≡ Native.◌∷◌ c s
separated c s =
    nil-append (text_of c <> s) ∙ cons-append c "" s ∙ ap (λ x. Native.◌∷◌ c x) (nil-append s)

-- The parts joined again are the text.
pub join-split : (c : Char) (s : String) → join (text_of c) (split c s) ≡ s
unfolding split join
join-split c Native.[] = refl
join-split c (Native.◌∷◌ d s) =
    let (p, ps, e) = split-cons c s in
    let rest = join-split c s in
    elim (Bool-cases (d == c)) [
      | inl same ↦ rw same (
          rw e (
            separated c (join (text_of c) (p ∷ ps))
            ∙ ap (λ x. Native.◌∷◌ c x) (rw (← e) rest)
            ∙ ap (λ x. Native.◌∷◌ x s) (sym (same_char d c same))))
      | inr other ↦
          rw other (rw e (join-cons (text_of c) p ps d ∙ ap (λ x. Native.◌∷◌ d x) (rw (← e) rest)))
    ]

-- Parts without the separator are the parts of the text that joins them.
pub split-join :
    (c : Char) (p : String) (ps : List String)
    → All (IsFree c) (p ∷ ps)
    → split c (join (text_of c) (p ∷ ps)) ≡ p ∷ ps
unfolding join
split-join c p [] h = split-IsFree c p h.0
split-join c p (q ∷ qs) h =
    let tail = join (text_of c) (q ∷ qs) in
    ap (λ x. split c (p <> x)) (cons-append c "" tail ∙ ap (λ x. Native.◌∷◌ c x) (nil-append tail))
    ∙ split-append c p tail
    ∙ ap (λ x. x ++ split c tail) (split-IsFree c p h.0)
    ∙ ap (λ x. p ∷ x) (split-join c q qs h.1)

-- All parts but the last, joined, and then the last, are the text that joins all.
pub join-all_but_last :
    (c : Char) (p q : String) (ps : List String)
    → join (text_of c) (all_but_last (p ∷ q ∷ ps)) <> text_of c <> last_part (p ∷ q ∷ ps)
      ≡ join (text_of c) (p ∷ q ∷ ps)
unfolding join all_but_last last_part
join-all_but_last c p q [] = refl
join-all_but_last c p q (r ∷ rs) =
    append_assoc p (text_of c <> join (text_of c) (all_but_last (q ∷ r ∷ rs))) _
    ∙ ap (λ x. p <> x)
        (append_assoc (text_of c) (join (text_of c) (all_but_last (q ∷ r ∷ rs))) _
          ∙ ap (λ x. text_of c <> x) (join-all_but_last c q r rs))

pub all_but_last-append : (ps : List String) (p : String) → all_but_last (ps ++ (p ∷ [])) ≡ ps
unfolding all_but_last
all_but_last-append [] p = refl
all_but_last-append (q ∷ []) p = refl
all_but_last-append (q ∷ r ∷ rs) p = ap (λ x. q ∷ x) (all_but_last-append (r ∷ rs) p)

pub last_part-append : (ps : List String) (p : String) → last_part (ps ++ (p ∷ [])) ≡ p
unfolding last_part
last_part-append [] p = refl
last_part-append (q ∷ []) p = refl
last_part-append (q ∷ r ∷ rs) p = last_part-append (r ∷ rs) p
