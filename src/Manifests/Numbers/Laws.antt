-- ===== src/Manifests/Numbers/Laws.antt =====
-- The numbers that a hash and its text can be.
use Prim.Native.Nat.{◌^◌, ◌%◌, bit_xor}
use Prim.Native.String as Native
use cluster_monitoring_opera.Base.{
  ℕ, zero, suc, ◌+◌, ◌*◌, ◌/◌, ◌≤◌, ◌<◌, ◌≡◌, ap, List, [], ◌∷◌, length, String, arith,
}
use cluster_monitoring_opera.Manifests.Numbers.{
  u64, mix, mix_all, utf_8, write, digits_onto, digits,
}

-- The number that digits of a base stand for, behind a number that was read.
abbrev pub number_onto : ℕ → ℕ → List ℕ → ℕ
number_onto base n [] = n
number_onto base n (d ∷ ds) = number_onto base (n * base + d) ds

u64-< : (n : ℕ) → u64 n < 2 ^ 64
u64-< n = omega arith

mix_all-< : (h : ℕ) (bs : List ℕ) → h < 2 ^ 64 → mix_all h bs < 2 ^ 64
mix_all-< h [] p = p
mix_all-< h (b ∷ bs) p = mix_all-< (mix h b) bs (u64-< (bit_xor (u64 (h * 1099511628211)) b))

-- A hash is a `uint64`.
pub write-< : (h : ℕ) (s : String) → h < 2 ^ 64 → write h s < 2 ^ 64
unfolding write
write-< h Native.[] p = p
write-< h (Native.◌∷◌ c s) p = write-< (mix_all h (utf_8 c)) s (mix_all-< h (utf_8 c) p)

divided : (n : ℕ) → n / 32 * 32 + n % 32 ≡ n
divided n = omega arith

-- The digits in base 32 stand for the number.
number_onto-digits_onto :
    (fuel n : ℕ) (ds : List ℕ) → number_onto 32 0 (digits_onto 32 fuel n ds) ≡ number_onto 32 n ds
unfolding digits_onto
number_onto-digits_onto zero n ds = ap (λ k. number_onto 32 k ds) (omega arith)
number_onto-digits_onto (suc fuel) n ds =
    ground (arith, number_onto-digits_onto fuel (n / 32) (n % 32 ∷ ds), divided n)

abbrev power_32 : ℕ → ℕ
power_32 zero = 1
power_32 (suc p) = 32 * power_32 p

shorter : (n q : ℕ) → n < 32 * q → n / 32 < q
shorter n q h = omega arith

length-digits_onto :
    (fuel n p : ℕ) (ds : List ℕ)
    → n < power_32 (suc p)
    → length (digits_onto 32 fuel n ds) ≤ suc p + length ds
unfolding digits_onto
length-digits_onto zero n p ds h = omega arith
length-digits_onto (suc fuel) n zero ds h = ground arith
length-digits_onto (suc fuel) n (suc p) ds h =
    ground
      (arith, length-digits_onto fuel (n / 32) p (n % 32 ∷ ds) (shorter n (power_32 (suc p)) h))

-- The base-32 text of a `uint64` has at most thirteen digits, which stand for the number.
pub digits-IsShort :
    (n : ℕ) → n < 2 ^ 64 → (length (digits 32 n) ≤ 13) × (number_onto 32 0 (digits 32 n) ≡ n)
digits-IsShort n h = (length-digits_onto 64 n 12 [] (omega arith), number_onto-digits_onto 64 n [])
