-- ===== src/Texts.antt =====
-- Go's `strings.Split` at a separator of one character, and `strings.Join`, which
-- pkg/manifests/image.go, pkg/promqlgen/promqlgen.go and cmd/operator/main.go call.
pub mod Laws
use Prim.Native.Char.{Char, code}
use Prim.Native.String as Native
use mathlib.Core.Logic.{dite}
use text.Mathlib.TextEquality.{Char-path}
use cluster_monitoring_opera.Base.{String, ◌<>◌, List, [], ◌∷◌, Eq, ◌==◌, nat_eq, if◌then◌else◌, ap}

unfoldable pub char_discrete : Discrete Char
char_discrete c d =
    dite (nat_eq.dec (code c) (code d)) (λ p. yes (Char-path c d p)) (λ n. no (λ p. n (ap code p)))

instance unfoldable pub char_eq : Eq Char
unfolding char_discrete nat_eq
char_eq = record { dec = char_discrete }

-- A character in front of the first part.
abbrev pub onto_first : Char → List String → List String
onto_first d [] = Native.◌∷◌ d "" ∷ []
onto_first d (p ∷ ps) = Native.◌∷◌ d p ∷ ps

-- `strings.Split(s, sep)`
unfoldable pub split : Char → String → List String
split sep Native.[] = "" ∷ []
split sep (Native.◌∷◌ d s) =
    let rest = split sep s in if d == sep then "" ∷ rest else onto_first d rest

-- `strings.Join(parts, sep)`
unfoldable pub join : String → List String → String
join sep [] = ""
join sep (p ∷ []) = p
join sep (p ∷ q ∷ ps) = p <> sep <> join sep (q ∷ ps)

-- `parts[0:len(parts)-1]` and `parts[len(parts)-1]` of a list that is not empty.
unfoldable pub all_but_last : List String → List String
all_but_last [] = []
all_but_last (p ∷ []) = []
all_but_last (p ∷ q ∷ ps) = p ∷ all_but_last (q ∷ ps)

unfoldable pub last_part : List String → String
last_part [] = ""
last_part (p ∷ []) = p
last_part (p ∷ q ∷ ps) = last_part (q ∷ ps)
