-- ===== src/Pallet/Types.antt =====
-- The data of pallets/dia-oracle/src/dia.rs, and the events and errors of src/lib.rs beside it.
use oracle_pallet.Prelude.{ℕ, ℕ_discrete, List, [], Eq}

-- `Vec<u8>`
abbrev pub Bytes : Type 0
Bytes = List ℕ

-- `supply` and `price` are `u128`, `last_update_timestamp` is `u64`.
pub record CoinInfo : Type 0 where
  pub symbol : Bytes
  pub name : Bytes
  pub blockchain : Bytes
  pub supply : ℕ
  pub last_update_timestamp : ℕ
  pub price : ℕ

-- `#[derive(Default)]`
abbrev pub default_coin_info : CoinInfo
default_coin_info = record {
  symbol = [];
  name = [];
  blockchain = [];
  supply = 0;
  last_update_timestamp = 0;
  price = 0;
}

pub record AssetId : Type 0 where
  pub blockchain : Bytes
  pub symbol : Bytes

-- `AssetId::new`
abbrev pub new_asset_id : Bytes → Bytes → AssetId
new_asset_id blockchain symbol = record { blockchain = blockchain; symbol = symbol }

pub record PriceInfo : Type 0 where
  pub value : ℕ

asset_id_dec : Discrete AssetId
asset_id_dec = hlevel ℕ_discrete

instance unfoldable pub asset_id_eq : Eq AssetId
unfolding asset_id_dec ℕ_discrete
asset_id_eq = record { dec = asset_id_dec }

pub data Error : Type 0 where
  no_coin_info_available : Error
  this_account_id_is_not_authorized : Error
  no_batching_api_end_point : Error
  deserialize_str_error : Error
  deserialize_error : Error
  http_request_send_failed : Error
  http_request_failed : Error
  failed_signed_transaction : Error
  user_unable_to_deauthorize_themself : Error
  bad_origin : Error

-- What a call fails with: the `BadOrigin` of `ensure_signed` and `ensure_root`, or an error of the
-- pallet.
pub data DispatchError : Type 0 where
  frame_bad_origin : DispatchError
  module_error : Error → DispatchError

-- The argument of `set_updated_coin_infos`.
abbrev pub CoinInfos : Type 0
CoinInfos = List ((Bytes × Bytes) × CoinInfo)

pub data Event (AccountId : Type 0) : Type 0 where
  updated_prices : CoinInfos → Event AccountId
  account_id_authorized : AccountId → Event AccountId
  account_id_deauthorized : AccountId → Event AccountId
  currency_added : Bytes → Bytes → Event AccountId
  currency_removed : Bytes → Bytes → Event AccountId
  batching_api_route_set : Bytes → Event AccountId

-- Whether the sender of a call is charged for it.
pub data Pays : Type 0 where
  pays_yes pays_no : Pays

-- The calls of the pallet, by their call index from 0 to 5.
pub data Call (AccountId : Type 0) : Type 0 where
  add_currency : Bytes → Bytes → Call AccountId
  remove_currency : Bytes → Bytes → Call AccountId
  authorize_account : AccountId → Call AccountId
  deauthorize_account : AccountId → Call AccountId
  set_updated_coin_infos : CoinInfos → Call AccountId
  set_batching_api : Bytes → Call AccountId
