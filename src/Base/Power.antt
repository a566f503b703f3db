-- ===== src/Base/Power.antt =====
-- Powers of two under a variable exponent.
use Prim.Native.Nat.{ℕ, zero, suc, ◌+◌, ◌-◌, ◌%◌, ◌*◌, ◌/◌, ◌^◌, ◌≤◌, ◌<◌}
use mathlib.Core.Path.{◌≡◌, ap, ◌∙◌}
use native.Mathlib.Omega.{arith}
use native.Mathlib.Decide.{dec_lt}
use native.Mathlib.Nat.{
  pow-le-pow_right, le-div_iff_mul-le, div-add-mod, mul_assoc, add-mul, lt_of_mul-lt-mul_right,
  mul-le-mul_right,
}
use native.Mathlib.Numerals.{towards_suc, unary_clauses}

pub pow-pos : (s : ℕ) → 0 < 2 ^ s
pow-pos zero = omega arith
pow-pos (suc s) = omega (arith, pow-pos s)

-- A power below another has the smaller exponent.
pub lt_of_pow-lt : (s t : ℕ) → 2 ^ s < 2 ^ t → s < t
lt_of_pow-lt s t h = elim (dec_lt s t) [
  | yes below ↦ below
  | no above ↦
      let grown : 2 ^ t ≤ 2 ^ s = pow-le-pow_right (omega arith) (omega arith) in
      absurd (omega arith)
]

pub pow_seven : (s : ℕ) → 2 ^ (s + 7) ≡ 128 * 2 ^ s
pow_seven s = simp towards_suc (omega arith)

-- What the overflow test of a shifted sum decides.
pub le_div_of_mul-le : (g r p : ℕ) → 0 < p → g * p ≤ r → g ≤ r / p
le_div_of_mul-le g r p h k = (le-div_iff_mul-le h).1 k

-- A mask of at most eight bits is a byte.
pub pow-le_byte : (p : ℕ) → p ≤ 8 → 2 ^ p ≤ 256
pow-le_byte p h = let grown : 2 ^ p ≤ 2 ^ 8 = pow-le-pow_right (omega arith) h in omega arith

-- The bits above a mask, with a value put under the mask.
pub high_bits-mod : (b p x : ℕ) → x < 2 ^ p → (b - b % 2 ^ p + x) % 2 ^ p ≡ x
high_bits-mod b p x h = grind (arith, div-add-mod b (2 ^ p), pow-pos p)

pub pow_eight : (s : ℕ) → 2 ^ (s + 8) ≡ 256 * 2 ^ s
pow_eight s = simp towards_suc (omega arith)

pub pow-add : (b a : ℕ) → 2 ^ (b + a) ≡ 2 ^ b * 2 ^ a
pow-add b zero = simp unary_clauses (omega arith)
pow-add b (suc a) = simp unary_clauses (omega (arith, pow-add b a))

pub pow_split : (c a : ℕ) → a ≤ c → 2 ^ c ≡ 2 ^ a * 2 ^ (c - a)
pow_split c a h =
    let whole : c ≡ a + (c - a) = omega arith in ap (λ (t : ℕ). 2 ^ t) whole ∙ pow-add a (c - a)

-- Words whose low bits are clear have room for them.
pub low_bits_clear :
    (be n pack a p : ℕ) → be * (a * p) + pack ≡ n * p → pack < a * p → pack + p ≤ a * p
low_bits_clear be n pack a p e lt =
    let below : n * p < (be * a + a) * p = omega (arith, mul_assoc be a p, add-mul (be * a) a p) in
    let next : suc n ≤ be * a + a = lt_of_mul-lt-mul_right p below in
    let grown : suc n * p ≤ (be * a + a) * p = mul-le-mul_right p next in
    omega (arith, mul_assoc be a p, add-mul (be * a) a p)
