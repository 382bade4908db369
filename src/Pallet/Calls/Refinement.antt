-- ===== src/Pallet/Calls/Refinement.antt =====
-- Every call of the pallet against its specification.
use oracle_pallet.Prelude.{
  ◌≡◌, ◌∙◌, ap, refl, fun_ext, true, false, [], ◌∷◌, arith, if◌then◌else◌, Eq,
}
use oracle_pallet.Frame.{StorageMap, IsLawful}
use oracle_pallet.Result.{is_ok}
use oracle_pallet.Pallet.Types.{new_asset_id, asset_id_eq, CoinInfos, Call}
use oracle_pallet.Pallet.Config.{Config, Storage, IsLawfulConfig}
use oracle_pallet.Pallet.Calls.{is_authorized, is_supported, insert_coin_infos, dispatch}
use oracle_pallet.Pallet.Calls.Spec.{update, update_all, sender, view, permitted, effect}

module _ {K : Type 0} ⦃e : Eq K⦄ where
  pub update_same : {V : Type 0} (k : K) (v : V) (f : K → V) → f k ≡ v → update k v f ≡ f
  update_same k v f h = fun_ext λ j. ground arith

  module _ (S : StorageMap K (Unit {0})) (L : IsLawful S) (m : S.Map) (k : K) where
    pub contains_key-insert : S.contains_key (S.insert m k tt) ≡ update k true (S.contains_key m)
    contains_key-insert = fun_ext λ j. ground (
      arith,
      L.contains_key-get (S.insert m k tt) j,
      L.contains_key-get m j,
      L.get-insert m k j tt,
    )

    pub contains_key-remove : S.contains_key (S.remove m k) ≡ update k false (S.contains_key m)
    contains_key-remove = fun_ext λ j.
        ground
          (arith, L.contains_key-get (S.remove m k) j, L.contains_key-get m j, L.get-remove m k j)

module _ (C : Config) where
  -- A call that fails leaves the whole storage as it was, the events included.
  pub dispatch_atomic :
      (c : Call C.AccountId) (o : C.Origin) (s : Storage C)
      → is_ok (dispatch C c o s).0 ≡ false
      → (dispatch C c o s).1 ≡ s
  unfolding dispatch
  dispatch_atomic (Call.add_currency b y) o s h = ground arith
  dispatch_atomic c o s h = ground arith

  -- A call succeeds exactly when the table permits it.
  pub is_ok-dispatch :
      (c : Call C.AccountId) (o : C.Origin) (s : Storage C)
      → is_ok (dispatch C c o s).0 ≡ permitted C (view C s) (sender C o) c
  unfolding dispatch
  is_ok-dispatch (Call.add_currency b y) o s = ground arith
  is_ok-dispatch c o s = ground arith

module _ (C : Config) (L : IsLawfulConfig C) where
  pub get-insert_coin_infos :
      (cs : CoinInfos) (m : C.coin_infos.Map)
      → C.coin_infos.get (insert_coin_infos C cs m) ≡ update_all cs (C.coin_infos.get m)
  unfolding insert_coin_infos
  get-insert_coin_infos [] m = refl
  get-insert_coin_infos (((b, y), c) ∷ rest) m =
      get-insert_coin_infos rest _
      ∙ ap (update_all rest) (fun_ext (λ k. L.coin_infos.get-insert m (new_asset_id b y) k c))

  -- Over storage maps with the laws of FRAME, a permitted call has its specified effect on what
  -- can be read, and any other call has none.
  pub view-dispatch :
      (c : Call C.AccountId) (o : C.Origin) (s : Storage C)
      → view C (dispatch C c o s).1
        ≡ (if permitted C (view C s) (sender C o) c then effect C c (view C s) else view C s)
  unfolding dispatch
  view-dispatch (Call.add_currency b y) o s = ground (
    arith,
    contains_key-insert C.supported L.supported s.supported_currencies (new_asset_id b y),
    update_same (new_asset_id b y) true (is_supported C s),
  )
  view-dispatch (Call.remove_currency b y) o s = ground (
    arith,
    contains_key-remove C.supported L.supported s.supported_currencies (new_asset_id b y),
    update_same (new_asset_id b y) false (is_supported C s),
  )
  view-dispatch (Call.authorize_account a) o s = ground (
    arith,
    contains_key-insert ⦃e = C.account_eq⦄ C.authorized L.authorized s.authorized_accounts a,
    update_same ⦃e = C.account_eq⦄ a true (is_authorized C s),
  )
  view-dispatch (Call.deauthorize_account a) o s = ground (
    arith,
    contains_key-remove ⦃e = C.account_eq⦄ C.authorized L.authorized s.authorized_accounts a,
    update_same ⦃e = C.account_eq⦄ a false (is_authorized C s),
  )
  view-dispatch (Call.set_updated_coin_infos cs) o s =
      ground (arith, get-insert_coin_infos cs s.coin_infos_map)
  view-dispatch (Call.set_batching_api api) o s = ground arith
