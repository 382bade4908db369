-- ===== src/Server/Convert.antt =====
-- `convert_decimal_to_u128` and `convert_to_coin_info` of
-- dia-batching-server/src/price_updater.rs. A panic is a value: `none`.
pub mod Exact
mod Tests
use Prim.Native.Nat.{min}
use oracle_pallet.Prelude.{ℕ, ◌+◌, ◌-◌, ◌^◌, Option, none, some}
use oracle_pallet.Prelude.Int.{unsigned_abs}
use oracle_pallet.Result.{Result, ok, err, map_err}
use oracle_pallet.Text.{codes}
use oracle_pallet.Server.Decimal.{DecimalApi}
use oracle_pallet.Server.Types.{
  Text, Crates, Quotation, CoinInfo, ConvertingError, decimal_too_large, BoxError, converting,
}

-- A computation that may panic, with a result that the code handles by `?`.
abbrev pub Fallible : Type 0 → Type 0 → Type 0
Fallible E A = Option (Result E A)

infixl 5 ◌>>=◌
abbrev pub ◌>>=◌ : {E A B : Type 0} → Fallible E A → (A → Fallible E B) → Fallible E B
none >>= f = none
some (ok a) >>= f = f a
some (err e) >>= f = some (err e)

abbrev pub return : {E A : Type 0} → A → Fallible E A
return a = some (ok a)

-- A value of the libraries that panics instead of failing.
abbrev pub or_panic : {E A : Type 0} → Option A → Fallible E A
or_panic none = none
or_panic (some a) = some (ok a)

abbrev pub or_error : {E A : Type 0} → Option A → E → Fallible E A
or_error none e = some (err e)
or_error (some a) e = some (ok a)

-- `u128::saturating_add`
abbrev pub saturating_add : ℕ → ℕ → ℕ
saturating_add a b = min (a + b) (2 ^ 128 - 1)

abbrev pub price_scale : ℕ
price_scale = 1_000_000_000_000

module _ (D : DecimalApi) where
  unfoldable pub convert_decimal_to_u128 : D.Decimal → Fallible ConvertingError ℕ
  convert_decimal_to_u128 input = do
    scaled_fract ← or_panic (D.mul (D.fract input) (D.from_u128 price_scale))
    fract ← or_error (D.to_u128 scaled_fract) decimal_too_large
    scaled_trunc ← or_panic (D.mul (D.trunc input) (D.from_u128 price_scale))
    trunc ← or_error (D.to_u128 scaled_trunc) decimal_too_large
    return (saturating_add trunc fract)

-- `?` on a `ConvertingError` where a `Box<dyn Error>` is returned.
abbrev boxed : {A : Type 0} → Fallible ConvertingError A → Fallible BoxError A
boxed none = none
boxed (some r) = some (map_err converting r)

abbrev blockchain_or_fiat : Option Text → Text
blockchain_or_fiat none = codes "FIAT"
blockchain_or_fiat (some blockchain) = blockchain

module _ (X : Crates) where
  unfoldable pub convert_to_coin_info : Quotation X → Fallible BoxError CoinInfo
  convert_to_coin_info value = do
    price ← boxed (convert_decimal_to_u128 X.decimal value.price)
    supply ← boxed (convert_decimal_to_u128 X.decimal value.volume_yesterday)
    return (record {
      name = value.name;
      symbol = value.symbol;
      blockchain = blockchain_or_fiat value.blockchain;
      price = price;
      last_update_timestamp = unsigned_abs (X.timestamp value.time);
      supply = supply;
    })
