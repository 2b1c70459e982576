-- ===== src/Words/Separators.antt =====
-- What `ToPascalCase` returns: no separators, and a raised first letter.
use Prim.Native.Char.{Char, code}
use cluster_monitoring_opera.Base.{
  ℕ, suc, ◌+◌, ◌<◌, ◌≤◌, ◌⊎◌, String, Bool, true, false, not, List, [], ◌∷◌, ◌++◌, nat_eq,
  string_eq, ◌≡◌, refl, arith, All, All-append, select,
}
use cluster_monitoring_opera.Words.{
  Mode, outside, behind_letter, in_digits, next_mode, add_boundaries,
  add_word_boundaries_to_numbers, between, upper_in, upper, joins_word, title_from, title,
  translate_word, is_space, is_separator, split, join, to_pascal,
}

abbrev Plain : Char → Type 0
Plain c = is_separator c ≡ false

abbrev PlainText : String → Type 0
PlainText String.[] = Unit
PlainText (String.◌∷◌ c s) = Plain c × PlainText s

upper_in-Plain : (ls us : String) (c : Char) → PlainText us → Plain c → Plain (upper_in ls us c)
unfolding upper_in
upper_in-Plain String.[] _ c _ p = p
upper_in-Plain (String.◌∷◌ l ls) String.[] c _ p = p
upper_in-Plain (String.◌∷◌ l ls) (String.◌∷◌ u us) c (q, h) p =
    ground (arith, upper_in-Plain ls us c h p)

upper-Plain : (c : Char) → Plain c → Plain (upper c)
unfolding upper nat_eq
upper-Plain c p =
    let plain : PlainText "ABCDEFGHIJKLMNOPQRSTUVWXYZ" = ground arith in
    upper_in-Plain "abcdefghijklmnopqrstuvwxyz" "ABCDEFGHIJKLMNOPQRSTUVWXYZ" c plain p

title_from-Plain : (inside : Bool) (s : List Char) → All Plain s → All Plain (title_from inside s)
unfolding title_from
title_from-Plain inside [] _ = tt
title_from-Plain true (c ∷ s) (p, h) = (p, title_from-Plain (joins_word c) s h)
title_from-Plain false (c ∷ s) (p, h) = (upper-Plain c p, title_from-Plain (joins_word c) s h)

split-Plain : (n s : List Char) → All Plain n → All (All Plain) (split n s)
unfolding split
split-Plain n [] h = (h, tt)
split-Plain n (c ∷ s) h =
    ground (arith, split-Plain [] s tt, All-append Plain n (c ∷ []) h, split-Plain (n ++ c ∷ []) s)

translate_word-Plain :
    (word : List Char) (init_case : Bool)
    → All Plain word
    → All Plain (translate_word word init_case)
unfolding translate_word nat_eq
translate_word-Plain word init_case h = ground (arith, title_from-Plain false word h)

join-Plain :
    (init_case : Bool) (bits : List (List Char))
    → All (All Plain) bits
    → All Plain (join init_case bits)
unfolding join
join-Plain init_case [] _ = tt
join-Plain init_case (word ∷ bits) (p, h) =
    All-append Plain (translate_word word init_case) (join true bits)
      (translate_word-Plain word init_case p) (join-Plain true bits h)

-- The result holds no underscore, no space and no hyphen.
pub to_pascal-Plain : (s : List Char) → All (λ c. is_separator c ≡ false) (to_pascal s)
unfolding to_pascal
to_pascal-Plain s = title_from-Plain false _ (join-Plain false _ (split-Plain [] _ tt))

add_boundaries-select :
    (mode : Mode) (s : List Char)
    → select (λ c. not (is_space c)) (add_boundaries mode s) ≡ select (λ c. not (is_space c)) s
unfolding add_boundaries nat_eq
add_boundaries-select in_digits [] = refl
add_boundaries-select outside [] = refl
add_boundaries-select behind_letter [] = refl
add_boundaries-select mode (c ∷ s) = ground (arith, add_boundaries-select (next_mode mode c) s)

-- Marking the numbers changes nothing but spaces.
pub add_word_boundaries-select :
    (s : List Char)
    → select (λ c. not (is_space c)) (add_word_boundaries_to_numbers s)
      ≡ select (λ c. not (is_space c)) s
unfolding add_word_boundaries_to_numbers
add_word_boundaries-select s = add_boundaries-select outside s

abbrev pub FirstIsNotLower : List Char → Type 0
FirstIsNotLower [] = Unit
FirstIsNotLower (c ∷ _) = between b'a' b'z' c ≡ false

-- The first text lists the letters from a number up to `z`, the second text no small letter.
abbrev Raises : ℕ → String → String → Type 0
Raises lo String.[] String.[] = lo ≡ b'z' + 1
Raises lo (String.◌∷◌ l ls) (String.◌∷◌ u us) =
    (code l ≡ lo) × (between b'a' b'z' u ≡ false) × Raises (suc lo) ls us
Raises _ _ _ = ⊥

upper_in_not_lower :
    (lo : ℕ) (ls us : String) (c : Char)
    → Raises lo ls us
    → (code c < b'a') ⊎ (lo ≤ code c)
    → between b'a' b'z' (upper_in ls us c) ≡ false
unfolding upper_in
upper_in_not_lower lo String.[] String.[] c e h = ground arith
upper_in_not_lower lo (String.◌∷◌ l ls) (String.◌∷◌ u us) c (e, q, r) h =
    ground (arith, upper_in_not_lower (suc lo) ls us c r)
upper_in_not_lower lo String.[] (String.◌∷◌ u us) c e h = absurd e
upper_in_not_lower lo (String.◌∷◌ l ls) String.[] c e h = absurd e

upper_not_lower : (c : Char) → between b'a' b'z' (upper c) ≡ false
unfolding upper
upper_not_lower c =
    let table : Raises b'a' "abcdefghijklmnopqrstuvwxyz" "ABCDEFGHIJKLMNOPQRSTUVWXYZ" =
      ground arith in
    upper_in_not_lower b'a' "abcdefghijklmnopqrstuvwxyz" "ABCDEFGHIJKLMNOPQRSTUVWXYZ" c table
      (ground arith)

title_first : (s : List Char) → FirstIsNotLower (title s)
unfolding title
title_first [] = tt
title_first (c ∷ s) = upper_not_lower c

-- The result does not begin with a small letter.
pub to_pascal_first : (s : List Char) → FirstIsNotLower (to_pascal s)
unfolding to_pascal
to_pascal_first s = title_first _
