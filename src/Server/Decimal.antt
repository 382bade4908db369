-- ===== src/Server/Decimal.antt =====
-- The decimal numbers of the crate `rust_decimal`, as a parameter, and what its documentation says
-- of them. A value has the form m / 10^e with an integer m of magnitude below 2^96 and e at most
-- 28, so that it is a whole number of units of 10^-28.
pub mod Fixed
use oracle_pallet.Prelude.{
  ℕ, ◌-◌, ◌*◌, ◌/◌, ◌%◌, ◌^◌, ◌≤◌, ◌<◌, ◌≡◌, Bool, true, false, Option, none, some,
}

-- `mul` is the operator `*`; `none` is its panic on overflow.
pub record DecimalApi : Type 1 where
  pub Decimal : Type 0
  pub fract : Decimal → Decimal
  pub trunc : Decimal → Decimal
  pub mul : Decimal → Decimal → Option Decimal
  pub from_u128 : ℕ → Decimal
  -- `Decimal::new` of a number that is not below zero, and a scale
  pub new : ℕ → ℕ → Decimal
  pub to_u128 : Decimal → Option ℕ
  -- the magnitude in units of 10^-28, and whether the value is below zero
  pub units : Decimal → ℕ
  pub is_negative : Decimal → Bool

abbrev pub one : ℕ
one = 10 ^ 28

pub record IsLawfulDecimal (D : DecimalApi) : Type 0 where
  pub units_of_negative : (d : D.Decimal) → D.is_negative d ≡ true → 1 ≤ D.units d
  -- the part after the point, with the sign of the number
  pub units-fract : (d : D.Decimal) → D.units (D.fract d) ≡ D.units d % one
  pub fract-nonneg : (d : D.Decimal) → D.is_negative d ≡ false → D.is_negative (D.fract d) ≡ false
  pub fract-negative :
      (d : D.Decimal)
      → D.is_negative d ≡ true
      → 1 ≤ D.units (D.fract d)
      → D.is_negative (D.fract d) ≡ true
  -- the part before the point; no rounding is done
  pub units-trunc : (d : D.Decimal) → D.units (D.trunc d) ≡ D.units d / one * one
  pub trunc-nonneg : (d : D.Decimal) → D.is_negative d ≡ false → D.is_negative (D.trunc d) ≡ false
  pub units-from_u128 : (n : ℕ) → n < 2 ^ 96 → D.units (D.from_u128 n) ≡ n * one
  pub units-new :
      (n scale : ℕ) → n < 2 ^ 63 → scale ≤ 28 → D.units (D.new n scale) ≡ n * 10 ^ (28 - scale)
  pub new-nonneg : (n scale : ℕ) → D.is_negative (D.new n scale) ≡ false
  pub from_u128-nonneg : (n : ℕ) → D.is_negative (D.from_u128 n) ≡ false
  -- a product that has the form m / 10^e is exact
  pub mul_exact :
      (a b : D.Decimal) (m e : ℕ)
      → e ≤ 28
      → m < 2 ^ 96
      → D.units a * D.units b ≡ m * 10 ^ (28 - e) * one
      → (c : D.Decimal) × (D.mul a b ≡ some c) × (D.units c ≡ m * 10 ^ (28 - e))
  -- the sign of a product by a number that is not negative
  pub mul_sign :
      (a b c : D.Decimal)
      → D.is_negative b ≡ false
      → D.mul a b ≡ some c
      → 1 ≤ D.units c
      → D.is_negative c ≡ D.is_negative a
  -- a product of magnitude 2^96 or more has no such form
  pub mul_overflow :
      (a b : D.Decimal) → 2 ^ 96 * one * one ≤ D.units a * D.units b → D.mul a b ≡ none
  -- the part before the point, if it is not below zero
  pub to_u128-nonneg :
      (d : D.Decimal) → D.is_negative d ≡ false → D.to_u128 d ≡ some (D.units d / one)
  pub to_u128-negative :
      (d : D.Decimal) → D.is_negative d ≡ true → one ≤ D.units d → D.to_u128 d ≡ none
