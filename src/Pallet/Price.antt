-- ===== src/Pallet/Price.antt =====
-- `Serialize` and `Deserialize` of `PriceInfo` in pallets/dia-oracle/src/dia.rs: the price is a text
-- of decimal digits, since JSON numbers do not hold a `u128`. The serializer of strings is the
-- library's: it is given the text, and gives a text or its error.
mod Tests
use oracle_pallet.Prelude.{ℕ, ◌+◌, ◌^◌, ◌<◌, ◌≡◌, sym, some, none, arith, Option-cases, inl, inr}
use oracle_pallet.Result.{Result, ok, err, and_then, map_ok, map_err, ok_or}
use oracle_pallet.Text.{codes}
use oracle_pallet.Text.Number.{to_string, parse_u128, parse-to_string, parse-bound}
use oracle_pallet.Pallet.Types.{Bytes, PriceInfo}

unfoldable pub serialize : PriceInfo → Bytes
unfolding to_string
serialize p = to_string p.value

-- An error is its message.
unfoldable pub deserialize : Result Bytes Bytes → Result Bytes PriceInfo
unfolding parse_u128
deserialize text =
    and_then text (λ s.
      map_ok (λ x. record { value = x }) (ok_or (parse_u128 s) (codes "Parse from str failed")))

-- A price that fits `u128` is read back as it was written.
pub deserialize-serialize :
    (p : PriceInfo) → p.value < 2 ^ 128 → deserialize (ok (serialize p)) ≡ ok p
unfolding deserialize serialize
deserialize-serialize p h = rw (parse-to_string p.value h)

-- A text that is read as a price gives one that fits `u128`, and writing and reading this price
-- gives it again.
pub deserialize_bound :
    (s : Bytes) (p : PriceInfo)
    → deserialize (ok s) ≡ ok p
    → (p.value < 2 ^ 128) × (deserialize (ok (serialize p)) ≡ ok p)
unfolding deserialize
deserialize_bound s p h = elim (Option-cases (parse_u128 s)) [
  | inl bad ↦ absurd (ground arith)
  | inr (v, good) ↦
      let same : v ≡ p.value = ground arith in
      let fits : p.value < 2 ^ 128 = rw (sym same) (parse-bound s v good) in
      (fits, deserialize-serialize p fits)
]
