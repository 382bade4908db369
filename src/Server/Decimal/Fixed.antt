-- ===== src/Server/Decimal/Fixed.antt =====
-- Numbers with 28 places after the point, which meet what the program assumes of decimals.
use Prim.Native.Nat.{zero, suc}
use native.Mathlib.Nat.{pow-le-pow_right, mul-div_cancel, mul-zero}
use oracle_pallet.Prelude.{
  ℕ, ◌-◌, ◌*◌, ◌/◌, ◌%◌, ◌^◌, ◌≤◌, ◌<◌, ◌≡◌, ◌∙◌, ap, refl, Bool, true, false, ◌&&◌, not, Option,
  none, some, arith, ltb, if◌then◌else◌,
}
use oracle_pallet.Server.Decimal.{DecimalApi, one, IsLawfulDecimal}

-- A sign, `true` for below zero, and a magnitude in units of 10^-28.
abbrev Fixed : Type 0
Fixed = Bool × ℕ

abbrev below_zero : Fixed → Bool
below_zero (sign, u) = sign && ltb 0 u

abbrev xor : Bool → Bool → Bool
xor true b = not b
xor false b = b

unfoldable pub limit : ℕ
limit = 2 ^ 96 * one

unfoldable pub mul : Fixed → Fixed → Option Fixed
mul (s, u) (t, v) =
    let product = u * v / one in if ltb product limit then some (xor s t, product) else none

abbrev pub fixed : DecimalApi
fixed = record {
  Decimal = Fixed;
  fract = λ (s, u). (s, u % one);
  trunc = λ (s, u). (s, u / one * one);
  mul = mul;
  from_u128 = λ n. (false, n * one);
  new = λ n scale. (false, n * 10 ^ (28 - scale));
  to_u128 = λ (s, u). if s && ltb 0 (u / one) then none else some (u / one);
  units = λ (s, u). u;
  is_negative = below_zero;
}

lt→ltb : (a b : ℕ) → a < b → ltb a b ≡ true
lt→ltb a b h = ground arith

power_bounds : (e : ℕ) → (1 ≤ 10 ^ (28 - e)) × (10 ^ (28 - e) ≤ one)
power_bounds e = (
  pow-le-pow_right {n = 10} (omega arith) {i = 0} {j = 28 - e} (omega arith),
  pow-le-pow_right {n = 10} (omega arith) {i = 28 - e} {j = 28} (omega arith),
)

product_fits : (m p : ℕ) → m < 2 ^ 96 → 1 ≤ p → p ≤ one → m * p < limit
unfolding limit
product_fits m p hm lo hi = grind arith

mul_exact :
    (a b : Fixed) (m e : ℕ)
    → e ≤ 28
    → m < 2 ^ 96
    → a.1 * b.1 ≡ m * 10 ^ (28 - e) * one
    → (c : Fixed) × (mul a b ≡ some c) × (c.1 ≡ m * 10 ^ (28 - e))
unfolding mul
mul_exact (s, u) (t, v) m e he hm product =
    let q : u * v / one ≡ m * 10 ^ (28 - e) =
      ap (λ (n : ℕ). n / one) product ∙ mul-div_cancel (m * 10 ^ (28 - e)) (omega arith) in
    (
      (xor s t, u * v / one),
      rw (q, lt→ltb _ _ (product_fits m (10 ^ (28 - e)) hm (power_bounds e).0 (power_bounds e).1)),
      q,
    )

product_zero : (v : ℕ) → 0 * v ≡ 0
product_zero v = omega arith

mul_sign :
    (a b c : Fixed)
    → below_zero b ≡ false
    → mul a b ≡ some c
    → 1 ≤ c.1
    → below_zero c ≡ below_zero a
unfolding mul
mul_sign (s, zero) (t, v) (r, w) hb e pos = absurd (ground (arith, product_zero v))
mul_sign (s, suc u) (t, zero) (r, w) hb e pos = absurd (ground (arith, mul-zero (suc u)))
mul_sign (true, suc u) (t, suc v) (r, w) hb e pos = ground arith
mul_sign (false, suc u) (t, suc v) (r, w) hb e pos = ground arith

mul_overflow : (a b : Fixed) → 2 ^ 96 * one * one ≤ a.1 * b.1 → mul a b ≡ none
unfolding mul limit
mul_overflow (s, u) (t, v) h = ground arith

pub fixed-IsLawful : IsLawfulDecimal fixed
fixed-IsLawful = record {
  units_of_negative = λ (s, u) h. ground arith;
  units-fract = λ d. refl;
  fract-nonneg = λ (s, u) h. ground arith;
  fract-negative = λ (s, u) h p. ground arith;
  units-trunc = λ d. refl;
  trunc-nonneg = λ (s, u) h. ground arith;
  units-from_u128 = λ n h. refl;
  units-new = λ n scale h k. refl;
  new-nonneg = λ n scale. refl;
  from_u128-nonneg = λ n. refl;
  mul_exact = mul_exact;
  mul_sign = mul_sign;
  mul_overflow = mul_overflow;
  to_u128-nonneg = λ (s, u) h. ground arith;
  to_u128-negative = λ (s, u) h p. ground arith;
}
