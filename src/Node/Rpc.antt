-- ===== src/Node/Rpc.antt =====
-- pallets/dia-oracle/rpc/src/lib.rs: the RPC methods `dia_getCoinInfo` and `dia_getValue`, over the
-- runtime API of pallets/dia-oracle/rpc/runtime-api as runtime/src/lib.rs implements it.
pub mod Answers
pub mod Full
use oracle_pallet.Prelude.{Option, none, some}
use oracle_pallet.Prelude.Int.{ℤ, pos}
use oracle_pallet.Result.{Result, ok, err, map_err, and_then}
use oracle_pallet.Text.{codes}
use oracle_pallet.Pallet.Types.{Bytes, CoinInfo, PriceInfo, DispatchError}
use oracle_pallet.Pallet.Config.{Config, Storage}
use oracle_pallet.Pallet.Oracle

-- What the RPC uses of the client: a runtime API call at a block runs in the storage of this
-- block, or fails; and the texts that `{:?}` gives for errors.
pub record Client (C : Config) : Type 1 where
  pub BlockHash : Type 0
  pub best_hash : BlockHash
  pub ApiError : Type 0
  pub storage_at : BlockHash → Result ApiError (Storage C)
  pub debug_api_error : ApiError → Bytes
  pub debug_dispatch_error : DispatchError → Bytes

-- `Error` of the RPC, and its code.
pub data RpcError : Type 0 where
  decode_error runtime_error : RpcError

unfoldable pub code_of : RpcError → ℤ
code_of runtime_error = pos 1
code_of decode_error = pos 2

-- `ErrorObject::owned(code, message, data)`
pub record ErrorObject : Type 0 where
  pub code : ℤ
  pub message : Bytes
  pub data_ : Option Bytes

unfoldable pub custom : Bytes → Bytes → ErrorObject
unfolding code_of
custom message debug = record {
  code = code_of runtime_error;
  message = message;
  data_ = some debug;
}

abbrev pub unwrap_or : {A : Type 0} → Option A → A → A
unwrap_or none d = d
unwrap_or (some a) d = a

module _ {C : Config} (N : Client C) where
  -- The runtime API: a call of the pallet's `DiaOracle` in the storage of a block.
  abbrev pub at_block : {A : Type 0} → N.BlockHash → (Storage C → A) → Result N.ApiError A
  at_block at f = elim (N.storage_at at) [ ok s ↦ ok (f s) | err e ↦ err e ]

  unfoldable pub api_get_coin_info :
      N.BlockHash → Bytes → Bytes → Result N.ApiError (Result DispatchError CoinInfo)
  api_get_coin_info at blockchain symbol = at_block at (Oracle.get_coin_info C blockchain symbol)

  unfoldable pub api_get_value :
      N.BlockHash → Bytes → Bytes → Result N.ApiError (Result DispatchError PriceInfo)
  api_get_value at blockchain symbol = at_block at (Oracle.get_value C blockchain symbol)

  -- `r.map_err(..)?.map_err(..)?`
  unfoldable pub unnest :
      {A : Type 0} → Bytes → Result N.ApiError (Result DispatchError A) → Result ErrorObject A
  unfolding custom
  unnest message r =
      and_then (map_err (λ e. custom message (N.debug_api_error e)) r)
        (map_err (λ e. custom message (N.debug_dispatch_error e)))

  unfoldable pub get_coin_info : Bytes → Bytes → Option N.BlockHash → Result ErrorObject CoinInfo
  unfolding api_get_coin_info unnest
  get_coin_info blockchain symbol at =
      unnest (codes "Unable to query get_coin_info.")
        (api_get_coin_info (unwrap_or at N.best_hash) blockchain symbol)

  unfoldable pub get_value : Bytes → Bytes → Option N.BlockHash → Result ErrorObject PriceInfo
  unfolding api_get_value unnest
  get_value blockchain symbol at =
      unnest (codes "Unable to query get_value.")
        (api_get_value (unwrap_or at N.best_hash) blockchain symbol)
