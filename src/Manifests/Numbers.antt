-- ===== src/Manifests/Numbers.antt =====
-- What pkg/manifests/manifests.go uses of Go's standard library on numbers and bytes: the 64-bit
-- FNV-1 hash (`fnv.New64`), `strconv.FormatUint`, and the bytes of a text.
pub mod Laws
use Prim.Native.Char.{Char, code}
use Prim.Native.String as Native
use Prim.Native.Nat.{◌^◌, ◌%◌, bit_xor}
use cluster_monitoring_opera.Base.{
  ℕ, zero, suc, ◌+◌, ◌*◌, ◌/◌, String, List, [], ◌∷◌, ltb, if◌then◌else◌,
}

-- The width of a `uint64`.
abbrev pub u64 : ℕ → ℕ
u64 n = n % 2 ^ 64

abbrev pub utf_8 : Char → List ℕ
utf_8 c =
    if ltb (code c) 128
    then code c ∷ []
    else if ltb (code c) 2048
    then (192 + code c / 64) ∷ (128 + code c % 64) ∷ []
    else if ltb (code c) 65536
    then (224 + code c / 4096) ∷ (128 + code c / 64 % 64) ∷ (128 + code c % 64) ∷ []
    else (240 + code c / 262144)
      ∷ (128 + code c / 4096 % 64)
      ∷ (128 + code c / 64 % 64)
      ∷ (128 + code c % 64)
      ∷ []

abbrev pub offset_64 : ℕ
offset_64 = 14695981039346656037

abbrev pub prime_64 : ℕ
prime_64 = 1099511628211

-- One byte: a multiplication and then an exclusive or.
abbrev pub mix : ℕ → ℕ → ℕ
mix h b = u64 (bit_xor (u64 (h * prime_64)) b)

abbrev pub mix_all : ℕ → List ℕ → ℕ
mix_all h [] = h
mix_all h (b ∷ bs) = mix_all (mix h b) bs

-- `h.Write([]byte(s))`
unfoldable pub write : ℕ → String → ℕ
write h Native.[] = h
write h (Native.◌∷◌ c s) = write (mix_all h (utf_8 c)) s

-- The digits of a number, the last one first found, in front of those that are known. Sixty-four
-- divisions are enough for a `uint64` in any base.
unfoldable pub digits_onto : ℕ → ℕ → ℕ → List ℕ → List ℕ
digits_onto base zero n ds = n ∷ ds
digits_onto base (suc fuel) n ds =
    let rest = digits_onto base fuel (n / base) (n % base ∷ ds) in
    if ltb n base then n ∷ ds else rest

abbrev pub digits : ℕ → ℕ → List ℕ
digits base n = digits_onto base 64 n []

-- The digits as characters.
unfoldable pub digit_text : List ℕ → String
digit_text [] = ""
digit_text (d ∷ ds) =
    Native.◌∷◌ (Native.char_at "0123456789abcdefghijklmnopqrstuvwxyz" d) (digit_text ds)

-- `strconv.FormatUint`
unfoldable pub format_uint : ℕ → ℕ → String
unfolding digits_onto digit_text
format_uint n base = digit_text (digits base n)
