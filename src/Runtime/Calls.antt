-- ===== src/Runtime/Calls.antt =====
-- `construct_runtime!` of runtime/src/lib.rs: the calls of the composed pallets and where they are
-- dispatched. The pallets of FRAME are parameters; the calls of the oracle are Pallet/Calls.
use oracle_pallet.Prelude.{Bool, true, false}
use oracle_pallet.Result.{Result}
use oracle_pallet.Pallet.Types.{Call, DispatchError, Pays}
use oracle_pallet.Pallet.Config.{Config, Storage}
use oracle_pallet.Pallet.Calls

-- The storage of the chain: the oracle's, and that of the other pallets.
pub record Chain (C : Config) (Rest : Type 0) : Type 0 where
  pub rest : Rest
  pub oracle : Storage C

-- The pallets of FRAME that have calls, and what a call gives beside the new storage.
pub record Pallets (C : Config) : Type 1 where
  pub Rest : Type 0
  pub SystemCall : Type 0
  pub TimestampCall : Type 0
  pub GrandpaCall : Type 0
  pub BalancesCall : Type 0
  pub SudoCall : Type 0
  pub Outcome : Type 0
  pub outcome : Result DispatchError Pays → Outcome
  pub system : SystemCall → C.Origin → Chain C Rest → Outcome × Chain C Rest
  pub timestamp : TimestampCall → C.Origin → Chain C Rest → Outcome × Chain C Rest
  pub grandpa : GrandpaCall → C.Origin → Chain C Rest → Outcome × Chain C Rest
  pub balances : BalancesCall → C.Origin → Chain C Rest → Outcome × Chain C Rest
  pub sudo : SudoCall → C.Origin → Chain C Rest → Outcome × Chain C Rest

module _ {C : Config} (P : Pallets C) where
  -- `RuntimeCall`; the randomness, Aura and the transaction payment have no calls.
  pub data RuntimeCall : Type 0 where
    system : P.SystemCall → RuntimeCall
    timestamp : P.TimestampCall → RuntimeCall
    grandpa : P.GrandpaCall → RuntimeCall
    balances : P.BalancesCall → RuntimeCall
    sudo : P.SudoCall → RuntimeCall
    dia_oracle_module : Call C.AccountId → RuntimeCall

  abbrev pub Dispatcher : Type 0
  Dispatcher = RuntimeCall → C.Origin → Chain C P.Rest → P.Outcome × Chain C P.Rest

  -- No call is filtered out: `BaseCallFilter` is `Everything`.
  unfoldable pub dispatch_call : Dispatcher
  dispatch_call (system c) origin chain = P.system c origin chain
  dispatch_call (timestamp c) origin chain = P.timestamp c origin chain
  dispatch_call (grandpa c) origin chain = P.grandpa c origin chain
  dispatch_call (balances c) origin chain = P.balances c origin chain
  dispatch_call (sudo c) origin chain = P.sudo c origin chain
  dispatch_call (dia_oracle_module c) origin chain =
      let (result, oracle) = Calls.dispatch C c origin chain.oracle in
      (P.outcome result, record chain { oracle = oracle })

  abbrev pub is_sudo : RuntimeCall → Bool
  is_sudo (sudo c) = true
  is_sudo c = false
