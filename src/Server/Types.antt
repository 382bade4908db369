-- ===== src/Server/Types.antt =====
-- The data of dia-batching-server/src: dia.rs, storage.rs, handlers.rs and main.rs. A text is its
-- list of characters.
use oracle_pallet.Prelude.{ℕ, ℕ_discrete, Option, List, Eq}
use oracle_pallet.Prelude.Int.{ℤ}
use oracle_pallet.Server.Decimal.{DecimalApi}

abbrev pub Text : Type 0
Text = List ℕ

pub record AssetSpecifier : Type 0 where
  pub blockchain : Text
  pub symbol : Text

asset_specifier_dec : Discrete AssetSpecifier
asset_specifier_dec = hlevel ℕ_discrete

instance unfoldable pub asset_specifier_eq : Eq AssetSpecifier
unfolding asset_specifier_dec ℕ_discrete
asset_specifier_eq = record { dec = asset_specifier_dec }

-- `handlers::Currency`
pub record Currency : Type 0 where
  pub blockchain : Text
  pub symbol : Text

-- `storage::CoinInfo`: `supply` and `price` are `u128`, `last_update_timestamp` is `u64`.
pub record CoinInfo : Type 0 where
  pub symbol : Text
  pub name : Text
  pub blockchain : Text
  pub supply : ℕ
  pub last_update_timestamp : ℕ
  pub price : ℕ

pub record Asset : Type 0 where
  pub symbol : Text
  pub name : Text
  pub address : Text
  pub decimals : ℕ
  pub blockchain : Text

-- The types of the crates that a quotation holds: `rust_decimal`, `chrono`, and the floating-point
-- numbers, of which the program uses only the default value.
pub record Crates : Type 1 where
  pub decimal : DecimalApi
  pub DateTime : Type 0
  pub timestamp : DateTime → ℤ
  pub Float : Type 0
  pub default_float : Float

pub record QuotedAsset (X : Crates) : Type 0 where
  pub asset : Asset
  pub volume : X.Float

pub record Quotation (X : Crates) : Type 0 where
  pub symbol : Text
  pub name : Text
  pub address : Option Text
  pub blockchain : Option Text
  pub price : X.decimal.Decimal
  pub price_yesterday : X.decimal.Decimal
  pub volume_yesterday : X.decimal.Decimal
  pub time : X.DateTime
  pub source : Text

pub data ConvertingError : Type 0 where
  decimal_too_large : ConvertingError

-- `Box<dyn Error>`: an error of the conversion, or one of the libraries with its message.
pub data BoxError : Type 0 where
  converting : ConvertingError → BoxError
  outside : Text → BoxError
