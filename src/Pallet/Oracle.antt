-- ===== src/Pallet/Oracle.antt =====
-- `impl DiaOracle for Pallet<T>` of pallets/dia-oracle/src/lib.rs, what other pallets and the
-- runtime API read.
use oracle_pallet.Prelude.{
  ◌≡◌, refl, ap, true, Option, none, some, [], ◌∷◌, arith, if◌then◌else◌, ◌==◌,
}
use oracle_pallet.Result.{Result, ok, err, ok_or, map_ok}
use oracle_pallet.Pallet.Types.{
  Bytes, CoinInfo, default_coin_info, PriceInfo, AssetId, new_asset_id, asset_id_eq, DispatchError,
  module_error, no_coin_info_available, CoinInfos, Call,
}
use oracle_pallet.Pallet.Config.{Config, Storage, IsLawfulConfig}
use oracle_pallet.Pallet.Calls.{is_authorized, dispatch}
use oracle_pallet.Pallet.Calls.Spec.{View, update, update_all}
use oracle_pallet.Pallet.Calls.Refinement.{view-dispatch}

-- The read of a `ValueQuery` map: the default of a key that is not stored.
abbrev value_query : Option CoinInfo → CoinInfo
value_query none = default_coin_info
value_query (some c) = c

module _ (C : Config) where
  unfoldable pub get_coin_info : Bytes → Bytes → Storage C → Result DispatchError CoinInfo
  get_coin_info blockchain symbol s =
      let asset_id = new_asset_id blockchain symbol in
      if C.coin_infos.contains_key s.coin_infos_map asset_id
      then ok (value_query (C.coin_infos.get s.coin_infos_map asset_id))
      else err (module_error no_coin_info_available)

  unfoldable pub get_value : Bytes → Bytes → Storage C → Result DispatchError PriceInfo
  unfolding get_coin_info
  get_value blockchain symbol s =
      map_ok (λ info. record { value = info.price }) (get_coin_info blockchain symbol s)

-- The last coin info that a list has for a key.
abbrev pub last_of : CoinInfos → AssetId → Option CoinInfo
last_of [] k = none
last_of (((b, y), c) ∷ rest) k = elim (last_of rest k) [
  | some d ↦ some d
  | none ↦ if new_asset_id b y == k then some c else none
]

-- The last info of a list if it has one, else what was known before.
abbrev pub latest : Option CoinInfo → Option CoinInfo → Option CoinInfo
latest (some c) old = some c
latest none old = old

pub update_all-last_of :
    (cs : CoinInfos) (f : AssetId → Option CoinInfo) (k : AssetId)
    → update_all cs f k ≡ latest (last_of cs k) (f k)
update_all-last_of [] f k = refl
update_all-last_of (((b, y), c) ∷ rest) f k =
    ground (arith, update_all-last_of rest (update (new_asset_id b y) (some c) f) k)

module _ (C : Config) (L : IsLawfulConfig C) where
  -- Over storage maps with the laws of FRAME, a coin info is read exactly as it is stored; for a
  -- key with none the answer is an error, never the default value.
  pub get_coin_info_exact :
      (b y : Bytes) (s : Storage C)
      → get_coin_info C b y s
        ≡ ok_or
            (C.coin_infos.get s.coin_infos_map (new_asset_id b y))
            (module_error no_coin_info_available)
  unfolding get_coin_info
  get_coin_info_exact b y s =
      ground (arith, L.coin_infos.contains_key-get s.coin_infos_map (new_asset_id b y))

  coin_info-set_updated :
      (cs : CoinInfos) (o : C.Origin) (who : C.AccountId) (s : Storage C) (k : AssetId)
      → C.ensure_signed o ≡ ok who
      → is_authorized C s who ≡ true
      → C.coin_infos.get (dispatch C (Call.set_updated_coin_infos cs) o s).1.coin_infos_map k
        ≡ latest (last_of cs k) (C.coin_infos.get s.coin_infos_map k)
  coin_info-set_updated cs o who s k signed known = ground (
    arith,
    ap (λ (v : View C.AccountId). v.coin_info k)
        (view-dispatch C L (Call.set_updated_coin_infos cs) o s),
    update_all-last_of cs (C.coin_infos.get s.coin_infos_map) k,
  )

  -- Over storage maps with the laws of FRAME, after an authorized account has sent prices, each
  -- coin info reads as the last one that was sent for its blockchain and symbol, or as before if
  -- none was; `get_value` is its price.
  pub get_value-set_updated :
      (b y : Bytes) (cs : CoinInfos) (o : C.Origin) (who : C.AccountId) (s : Storage C)
      → C.ensure_signed o ≡ ok who
      → is_authorized C s who ≡ true
      → let s' = (dispatch C (Call.set_updated_coin_infos cs) o s).1 in
        let found =
          ok_or
            (latest
              (last_of cs (new_asset_id b y))
              (C.coin_infos.get s.coin_infos_map (new_asset_id b y)))
            (module_error no_coin_info_available) in
        (get_coin_info C b y s' ≡ found)
        × (get_value C b y s' ≡ map_ok (λ info. record { value = info.price }) found)
  unfolding get_value
  get_value-set_updated b y cs o who s signed known =
      let s' = (dispatch C (Call.set_updated_coin_infos cs) o s).1 in
      let e = coin_info-set_updated cs o who s (new_asset_id b y) signed known in
      (cc (get_coin_info_exact b y s', e), cc (get_coin_info_exact b y s', e))
