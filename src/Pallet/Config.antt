-- ===== src/Pallet/Config.antt =====
-- `Config` of pallets/dia-oracle/src/lib.rs with the parts of FRAME that the pallet calls, and the
-- pallet's storage. The deposited events are kept in order, the oldest first.
use oracle_pallet.Prelude.{Bool, Option, List, Eq, ◌==◌}
use oracle_pallet.Frame.{StorageMap, IsLawful}
use oracle_pallet.Result.{Result}
use oracle_pallet.Pallet.Types.{Bytes, CoinInfo, AssetId, asset_id_eq, DispatchError, Event}

pub record Config : Type 1 where
  pub AccountId : Type 0
  pub account_eq : Eq AccountId
  pub Origin : Type 0
  pub ensure_signed : Origin → Result DispatchError AccountId
  pub ensure_root : Origin → Result DispatchError (Unit {0})
  pub authorized : StorageMap AccountId (Unit {0})
  pub supported : StorageMap AssetId (Unit {0})
  pub coin_infos : StorageMap AssetId CoinInfo

-- `==` on account ids.
abbrev pub same_account : (C : Config) → C.AccountId → C.AccountId → Bool
same_account C = ◌==◌ ⦃e = C.account_eq⦄

pub record IsLawfulConfig (C : Config) : Type 0 where
  pub authorized : IsLawful ⦃e = C.account_eq⦄ C.authorized
  pub supported : IsLawful C.supported
  pub coin_infos : IsLawful C.coin_infos

pub record Storage (C : Config) : Type 0 where
  pub authorized_accounts : C.authorized.Map
  pub supported_currencies : C.supported.Map
  pub batching_api : Option Bytes
  pub coin_infos_map : C.coin_infos.Map
  pub events : List (Event C.AccountId)
