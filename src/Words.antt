-- ===== src/Words.antt =====
-- pkg/strings/strings.go: `ToPascalCase` and its helpers, with what they use of the standard library
-- (a regular expression, `Trim`, `Title`). Letters and digits are those of ASCII.
pub mod Separators
mod Tests
use Prim.Native.Char.{Char, code}
use mathlib.Core.List.{reverse}
use cluster_monitoring_opera.Base.{
  ℕ, String, ◌<>◌, Bool, true, false, ◌&&◌, ◌||◌, not, Option, none, some, List, [], ◌∷◌, ◌++◌, Eq,
  ◌==◌, nat_eq, string_eq, ltb, if◌then◌else◌,
}
use cluster_monitoring_opera.Base.Dict
use cluster_monitoring_opera.Base.Dict.{Dict}

abbrev pub between : ℕ → ℕ → Char → Bool
between lo hi c = not (ltb (code c) lo) && not (ltb hi (code c))

abbrev pub is_digit : Char → Bool
is_digit = between b'0' b'9'

abbrev pub is_letter : Char → Bool
is_letter c = between b'a' b'z' c || between b'A' b'Z' c

-- Where the scan for `([a-zA-Z])(\d+)([a-zA-Z]?)` stands: behind a letter that may begin a match,
-- inside the digits of one, or neither.
pub data Mode : Type 0 where
  outside behind_letter in_digits : Mode

abbrev pub next_mode : Mode → Char → Mode
next_mode outside c = if is_letter c then behind_letter else outside
next_mode behind_letter c =
    if is_digit c then in_digits else if is_letter c then behind_letter else outside
next_mode in_digits c = if is_digit c then in_digits else outside

-- Whether the replacement `$1 $2 $3` puts a space in front of the character.
abbrev pub is_boundary : Mode → Char → Bool
is_boundary outside c = false
is_boundary behind_letter c = is_digit c
is_boundary in_digits c = not (is_digit c)

unfoldable pub add_boundaries : Mode → List Char → List Char
add_boundaries in_digits [] = " " ∷ []
add_boundaries _ [] = []
add_boundaries mode (c ∷ s) =
    let rest = add_boundaries (next_mode mode c) s in
    if is_boundary mode c then " " ∷ c ∷ rest else c ∷ rest

unfoldable pub add_word_boundaries_to_numbers : List Char → List Char
add_word_boundaries_to_numbers = add_boundaries outside

-- `strings.Title` of a text: a letter is raised where it begins a word, which is at the start and
-- behind a character that is no letter, digit or underscore.
unfoldable pub upper_in : String → String → Char → Char
upper_in (String.◌∷◌ l ls) (String.◌∷◌ u us) c = if code l == code c then u else upper_in ls us c
upper_in _ _ c = c

unfoldable pub upper : Char → Char
unfolding upper_in
upper = upper_in "abcdefghijklmnopqrstuvwxyz" "ABCDEFGHIJKLMNOPQRSTUVWXYZ"

abbrev pub joins_word : Char → Bool
joins_word c = is_letter c || is_digit c || code c == b'_'

unfoldable pub title_from : Bool → List Char → List Char
unfolding upper
title_from inside [] = []
title_from inside (c ∷ s) = (if inside then c else upper c) ∷ title_from (joins_word c) s

unfoldable pub title : List Char → List Char
unfolding title_from
title = title_from false

abbrev pub word_mapping : Dict String (List Char)
word_mapping =
    ("http", "H" ∷ "T" ∷ "T" ∷ "P" ∷ [])
    ∷ ("url", "U" ∷ "R" ∷ "L" ∷ [])
    ∷ ("ip", "I" ∷ "P" ∷ [])
    ∷ []

unfoldable pub text : List Char → String
text [] = ""
text (c ∷ s) = String.◌∷◌ c (text s)

unfoldable pub chars : String → List Char
chars String.[] = []
chars (String.◌∷◌ c s) = c ∷ chars s

abbrev pub translated : Option (List Char) → List Char → Bool → List Char
translated (some val) word init_case = val
translated none word init_case = if init_case then title word else word

unfoldable pub translate_word : List Char → Bool → List Char
unfolding text title Dict.lookup
translate_word word init_case = translated (Dict.lookup (text word) word_mapping) word init_case

abbrev pub is_space : Char → Bool
is_space c = code c == b' '

abbrev pub is_separator : Char → Bool
is_separator c = code c == b'_' || is_space c || code c == b'-'

-- `Trim(s, " ")`: the front, and then the back.
unfoldable pub trim_left : List Char → List Char
trim_left [] = []
trim_left (c ∷ s) = let rest = trim_left s in if is_space c then rest else c ∷ s

unfoldable pub trim : List Char → List Char
unfolding trim_left
trim s = reverse (trim_left (reverse (trim_left s)))

-- The loop that collects `bits`; `n` is the word that it has read so far.
unfoldable pub split : List Char → List Char → List (List Char)
split n [] = n ∷ []
split n (c ∷ s) =
    let ended = n ∷ split [] s in
    let longer = split (n ++ c ∷ []) s in if is_separator c then ended else longer

-- The loop that joins them; the first word keeps its case.
unfoldable pub join : Bool → List (List Char) → List Char
unfolding translate_word
join init_case [] = []
join init_case (word ∷ bits) = translate_word word init_case ++ join true bits

-- `ToPascalCase`, on the characters of its argument.
unfoldable pub to_pascal : List Char → List Char
unfolding add_word_boundaries_to_numbers trim split join title
to_pascal s = title (join false (split [] (trim (add_word_boundaries_to_numbers s))))

unfoldable pub to_pascal_case : String → String
unfolding to_pascal text chars
to_pascal_case s = text (to_pascal (chars s))
