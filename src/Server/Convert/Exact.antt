-- ===== src/Server/Convert/Exact.antt =====
-- What the conversion of a decimal returns: its value in units of 10^-12, rounded down; and when
-- it fails or panics.
use oracle_pallet.Prelude.{
  ℕ, ◌*◌, ◌/◌, ◌%◌, ◌^◌, ◌≤◌, ◌<◌, ◌≡◌, true, false, Bool-cases, inl, inr, none, some, arith, ◌∙◌,
  ap,
}
use oracle_pallet.Result.{ok, err}
use oracle_pallet.Server.Decimal.{DecimalApi, one, IsLawfulDecimal}
use oracle_pallet.Server.Types.{decimal_too_large}
use oracle_pallet.Server.Convert.{convert_decimal_to_u128, price_scale}

module _ (D : DecimalApi) (L : IsLawfulDecimal D) where
  units-price_scale : D.units (D.from_u128 price_scale) ≡ price_scale * one
  units-price_scale = L.units-from_u128 price_scale (omega arith)

  -- The fractional part times 10^12 is always exact.
  scaled_fract :
      (d : D.Decimal)
      → (c : D.Decimal) × (D.mul (D.fract d) (D.from_u128 price_scale) ≡ some c)
        × (D.units c ≡ (D.units d % one) * price_scale)
  scaled_fract d =
      L.mul_exact (D.fract d) (D.from_u128 price_scale) (D.units d % one) 16 (omega arith)
        (omega arith) (rw (L.units-fract d, units-price_scale) (omega arith))

  scaled_trunc :
      (d : D.Decimal)
      → D.units d / one * price_scale < 2 ^ 96
      → (c : D.Decimal) × (D.mul (D.trunc d) (D.from_u128 price_scale) ≡ some c)
        × (D.units c ≡ (D.units d / one * price_scale) * one)
  scaled_trunc d fits =
      L.mul_exact (D.trunc d) (D.from_u128 price_scale) (D.units d / one * price_scale) 0
        (omega arith) fits (rw (L.units-trunc d, units-price_scale) (omega arith))

  mul_nonneg :
      (a c : D.Decimal)
      → D.is_negative a ≡ false
      → D.mul a (D.from_u128 price_scale) ≡ some c
      → D.is_negative c ≡ false
  mul_nonneg a c h e = elim (Bool-cases (D.is_negative c)) [
    | inl below ↦ absurd (
        ground (
          arith,
          L.mul_sign a (D.from_u128 price_scale) c (L.from_u128-nonneg price_scale) e
              (L.units_of_negative c below),
        ))
    | inr above ↦ above
  ]

  -- A product by 10^12 that is not below zero becomes its part before the point.
  to_u128-product :
      (a c : D.Decimal)
      → D.is_negative a ≡ false
      → D.mul a (D.from_u128 price_scale) ≡ some c
      → D.to_u128 c ≡ some (D.units c / one)
  to_u128-product a c h e = L.to_u128-nonneg c (mul_nonneg a c h e)

  -- Over decimals with the documented laws, a decimal that is not below zero, and whose whole
  -- part times 10^12 is below 2^96, is converted to its value in units of 10^-12, rounded down.
  pub convert_exact :
      (d : D.Decimal)
      → D.is_negative d ≡ false
      → D.units d / one * price_scale < 2 ^ 96
      → convert_decimal_to_u128 D d ≡ some (ok (D.units d / 10 ^ 16))
  unfolding convert_decimal_to_u128
  convert_exact d nonneg fits =
      let (f, ef, uf) = scaled_fract d in
      let (t, et, ut) = scaled_trunc d fits in
      rw
        (
          ef,
          to_u128-product (D.fract d) f (L.fract-nonneg d nonneg) ef,
          et,
          to_u128-product (D.trunc d) t (L.trunc-nonneg d nonneg) et,
        )
        (ap (λ (n : ℕ). some (ok n)) (omega (arith, uf, ut)))

  -- Over decimals with the documented laws, the conversion of a decimal that is not below zero,
  -- and whose whole part times 10^12 is 2^96 or more, panics.
  pub convert_panics :
      (d : D.Decimal)
      → D.is_negative d ≡ false
      → 2 ^ 96 ≤ D.units d / one * price_scale
      → convert_decimal_to_u128 D d ≡ none
  unfolding convert_decimal_to_u128
  convert_panics d nonneg large =
      let (f, ef, uf) = scaled_fract d in
      rw (
        ef,
        to_u128-product (D.fract d) f (L.fract-nonneg d nonneg) ef,
        L.mul_overflow (D.trunc d) (D.from_u128 price_scale)
            (rw (L.units-trunc d, units-price_scale) (omega arith)),
      )

  -- Over decimals with the documented laws, the conversion of a decimal below zero whose
  -- fractional part is 10^-12 or more fails with `DecimalTooLarge`.
  pub convert_negative :
      (d : D.Decimal)
      → D.is_negative d ≡ true
      → 10 ^ 16 ≤ D.units d % one
      → convert_decimal_to_u128 D d ≡ some (err decimal_too_large)
  unfolding convert_decimal_to_u128
  convert_negative d negative big =
      let (f, ef, uf) = scaled_fract d in
      let below =
        L.mul_sign (D.fract d) (D.from_u128 price_scale) f (L.from_u128-nonneg price_scale) ef
          (omega (arith, uf))
        ∙ L.fract-negative d negative (rw (L.units-fract d) (omega arith)) in
      rw (ef, L.to_u128-negative f below (omega (arith, uf)))
