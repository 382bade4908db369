-- ===== src/Node/Rpc/Answers.antt =====
-- What the RPC answers, from the calls that the pallet has run.
use oracle_pallet.Prelude.{◌≡◌, refl, Bool, true, false, Option, some, arith, is_some}
use oracle_pallet.Prelude.Int.{pos}
use oracle_pallet.Result.{Result, ok, err, is_ok}
use oracle_pallet.Text.{codes}
use oracle_pallet.Pallet.Types.{Bytes, CoinInfo, CoinInfos, AssetId, new_asset_id, Call}
use oracle_pallet.Pallet.Config.{Config, Storage, IsLawfulConfig}
use oracle_pallet.Pallet.Calls.{is_authorized, dispatch}
use oracle_pallet.Pallet.Oracle
use oracle_pallet.Pallet.Oracle.{last_of, get_coin_info_exact, get_value-set_updated}
use oracle_pallet.Node.Rpc.{Client, ErrorObject, custom, unwrap_or, get_coin_info, get_value}

module _ {C : Config} (L : IsLawfulConfig C) (N : Client C) where
  -- Over storage maps with the laws of FRAME, after an authorized account has sent prices, the
  -- RPC at a block with this storage, the best block if none is named, answers with the last
  -- coin info that was sent for a blockchain and symbol, and with its price.
  pub rpc_reads_update :
      (b y : Bytes) (at : Option N.BlockHash) (cs : CoinInfos) (c : CoinInfo) (o : C.Origin)
      (who : C.AccountId) (s : Storage C)
      → C.ensure_signed o ≡ ok who
      → is_authorized C s who ≡ true
      → last_of cs (new_asset_id b y) ≡ some c
      → N.storage_at (unwrap_or at N.best_hash)
        ≡ ok (dispatch C (Call.set_updated_coin_infos cs) o s).1
      → (get_coin_info N b y at ≡ ok c) × (get_value N b y at ≡ ok (record { value = c.price }))
  unfolding get_coin_info get_value
  rpc_reads_update b y at cs c o who s signed known last here =
      let reads = get_value-set_updated C L b y cs o who s signed known in
      (ground (arith, reads.0), ground (arith, reads.1))

  -- Whether a coin info is stored in what the client returns for a block.
  abbrev pub is_stored : Result N.ApiError (Storage C) → AssetId → Bool
  is_stored (ok s) k = is_some (C.coin_infos.get s.coin_infos_map k)
  is_stored (err e) k = false

  is_ok-get_coin_info :
      (b y : Bytes) (at : Option N.BlockHash) (r : Result N.ApiError (Storage C))
      → N.storage_at (unwrap_or at N.best_hash) ≡ r
      → is_ok (get_coin_info N b y at) ≡ is_stored r (new_asset_id b y)
  unfolding get_coin_info
  is_ok-get_coin_info b y at (err x) h = ground arith
  is_ok-get_coin_info b y at (ok s) h = ground (arith, get_coin_info_exact C L b y s)

  is_ok-get_value :
      (b y : Bytes) (at : Option N.BlockHash) (r : Result N.ApiError (Storage C))
      → N.storage_at (unwrap_or at N.best_hash) ≡ r
      → is_ok (get_value N b y at) ≡ is_stored r (new_asset_id b y)
  unfolding get_value Oracle.get_value
  is_ok-get_value b y at (err x) h = ground arith
  is_ok-get_value b y at (ok s) h = ground (arith, get_coin_info_exact C L b y s)

  -- Over storage maps with the laws of FRAME, the two methods answer exactly when the block has
  -- a storage and a coin info is stored there for the blockchain and symbol.
  pub rpc_answers :
      (b y : Bytes) (at : Option N.BlockHash)
      → let stored = is_stored (N.storage_at (unwrap_or at N.best_hash)) (new_asset_id b y) in
        (is_ok (get_coin_info N b y at) ≡ stored) × (is_ok (get_value N b y at) ≡ stored)
  rpc_answers b y at = (is_ok-get_coin_info b y at _ refl, is_ok-get_value b y at _ refl)

module _ {C : Config} (N : Client C) where
  -- An error of `dia_getValue` has the code 1 and the message of the method, whether the block or
  -- the coin info is missing.
  pub rpc_error :
      (b y : Bytes) (at : Option N.BlockHash) (e : ErrorObject)
      → get_value N b y at ≡ err e
      → (e.code ≡ pos 1) × (e.message ≡ codes "Unable to query get_value.")
  unfolding get_value custom
  rpc_error b y at e h = (ground arith, ground arith)
