-- ===== src/Node/Rpc/Full.antt =====
-- `create_full` of node/src/rpc.rs: the RPC methods of a node, put together from those of the system,
-- of the transaction payment and of pallets/dia-oracle/rpc/src/lib.rs. The modules of jsonrpsee are
-- the library's, as parameters.
pub mod Methods
mod Tests
use oracle_pallet.Prelude.{Option, none, some, if◌then◌else◌, ◌==◌, bytes_eq}
use oracle_pallet.Result.{Result, ok, err, and_then}
use oracle_pallet.Text.{codes}
use oracle_pallet.Pallet.Types.{Bytes, CoinInfo, PriceInfo}
use oracle_pallet.Pallet.Config.{Config}
use oracle_pallet.Node.Rpc.{Client, ErrorObject, get_coin_info, get_value}

-- `RpcModule` with `new` and `merge`, and the modules that `into_rpc` makes of `System`,
-- `TransactionPayment` and `DiaOracleRpc`.
pub record RpcLibrary (FullClient Pool : Type 0) : Type 1 where
  pub DenyUnsafe : Type 0
  pub RpcModule : Type 0
  pub RegisterError : Type 0
  pub new : RpcModule
  pub merge : RpcModule → RpcModule → Result RegisterError RpcModule
  pub system : FullClient → Pool → DenyUnsafe → RpcModule
  pub transaction_payment : FullClient → RpcModule
  pub dia_oracle : FullClient → RpcModule

module _ {FullClient Pool : Type 0} (R : RpcLibrary FullClient Pool) where
  pub record FullDeps : Type 0 where
    pub client : FullClient
    pub pool : Pool
    pub deny_unsafe : R.DenyUnsafe

  infixl 5 ◌>>=◌
  abbrev ◌>>=◌ :
      {A B : Type 0}
      → Result R.RegisterError A
      → (A → Result R.RegisterError B)
      → Result R.RegisterError B
  m >>= f = and_then m f

  unfoldable pub create_full : FullDeps → Result R.RegisterError R.RpcModule
  create_full deps = do
    module₁ ← R.merge R.new (R.system deps.client deps.pool deps.deny_unsafe)
    module₂ ← R.merge module₁ (R.transaction_payment deps.client)
    module₃ ← R.merge module₂ (R.dia_oracle deps.client)
    ok module₃

-- What `#[rpc(server)]` reads of a request's parameters and writes as its answer.
pub record RpcServer {C : Config} (N : Client C) : Type 1 where
  pub Params : Type 0
  pub Reply : Type 0
  pub parse : Params → Option (Bytes × Bytes × Option N.BlockHash)
  pub invalid_params : Reply
  pub coin_info_reply : Result ErrorObject CoinInfo → Reply
  pub price_reply : Result ErrorObject PriceInfo → Reply

-- The methods of the trait `DiaOracleApi`, by their names.
module _ {C : Config} {N : Client C} (S : RpcServer N) where
  abbrev pub Method : Type 0
  Method = S.Params → S.Reply

  pub get_coin_info_method : Method
  get_coin_info_method params = elim (S.parse params) [
    | none ↦ S.invalid_params
    | some (blockchain, symbol, at) ↦ S.coin_info_reply (get_coin_info N blockchain symbol at)
  ]

  pub get_value_method : Method
  get_value_method params = elim (S.parse params) [
    | none ↦ S.invalid_params
    | some (blockchain, symbol, at) ↦ S.price_reply (get_value N blockchain symbol at)
  ]

  unfoldable pub dia_methods : Bytes → Option Method
  unfolding get_coin_info_method get_value_method
  dia_methods name =
      if name == codes "dia_getCoinInfo"
      then some get_coin_info_method
      else if name == codes "dia_getValue"
      then some get_value_method
      else none
