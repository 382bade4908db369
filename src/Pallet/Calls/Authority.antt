-- ===== src/Pallet/Calls/Authority.antt =====
-- Who can lose rights, and what no call can undo.
use oracle_pallet.Prelude.{
  ◌≡◌, ◌≢◌, ◌⊎◌, ap, true, some, List, [], ◌∷◌, arith, if◌then◌else◌, All, is_some, inl, inr,
  Bool-cases,
}
use oracle_pallet.Result.{ok, Result-cases}
use oracle_pallet.Pallet.Types.{
  AssetId, new_asset_id, asset_id_eq, CoinInfos, Call, Pays, pays_yes, pays_no,
}
use oracle_pallet.Pallet.Config.{Config, Storage, IsLawfulConfig}
use oracle_pallet.Pallet.Calls.{is_authorized, dispatch}
use oracle_pallet.Pallet.Calls.Spec.{
  View, Sender, sender, view, permitted, effect, update, update_all,
}
use oracle_pallet.Pallet.Calls.Refinement.{view-dispatch}
use oracle_pallet.Pallet.Calls.Stored.{is_update}
use oracle_pallet.Pallet.Calls.History.{Extrinsic, run}

module _ (C : Config) where
  -- Some account is authorized.
  abbrev pub IsGoverned : Storage C → Type 0
  IsGoverned s = (a : C.AccountId) × (is_authorized C s a ≡ true)

  -- The origin is an account or nobody.
  abbrev pub IsNotRoot : Extrinsic C → Type 0
  IsNotRoot (c, o) = sender C o ≢ Sender.root

  sender-cases :
      (o : C.Origin)
      → ((a : C.AccountId) × (sender C o ≡ Sender.signed a))
        ⊎ ((sender C o ≡ Sender.nobody) ⊎ (sender C o ≡ Sender.root))
  sender-cases o = elim (Result-cases (C.ensure_signed o)) [
    | inl (a, e) ↦ inl (a, ground arith)
    | inr (x, e) ↦ elim (Result-cases (C.ensure_root o)) [
      | inl (u, r) ↦ inr (inr (ground arith))
      | inr (y, r) ↦ inr (inl (ground arith))
    ]
  ]

  -- A permitted call leaves its signer authorized.
  effect-authorized :
      (v : View C.AccountId) (who : C.AccountId) (c : Call C.AccountId)
      → permitted C v (Sender.signed who) c ≡ true
      → (effect C c v).authorized who ≡ true
  effect-authorized v who (Call.add_currency b y) h = ground arith
  effect-authorized v who c h = ground arith

module _ (C : Config) (L : IsLawfulConfig C) where
  authorized-dispatch :
      (c : Call C.AccountId) (o : C.Origin) (s : Storage C) (a : C.AccountId)
      → is_authorized C (dispatch C c o s).1 a
        ≡ (if permitted C (view C s) (sender C o) c
              then effect C c (view C s)
              else view C s).authorized
            a
  authorized-dispatch c o s a =
      ap (λ (v : View C.AccountId). v.authorized a) (view-dispatch C L c o s)

  signed-IsGoverned :
      (c : Call C.AccountId) (o : C.Origin) (s : Storage C) (who : C.AccountId)
      → sender C o ≡ Sender.signed who
      → IsGoverned C s
      → IsGoverned C (dispatch C c o s).1
  signed-IsGoverned c o s who signed (a, known) =
      elim (Bool-cases (permitted C (view C s) (Sender.signed who) c)) [
        | inl yes_ ↦ (
          who,
          ground (arith, authorized-dispatch c o s who, effect-authorized C (view C s) who c),
        )
        | inr no_ ↦ (a, ground (arith, authorized-dispatch c o s a))
      ]

  dispatch-IsGoverned :
      (c : Call C.AccountId) (o : C.Origin) (s : Storage C)
      → IsNotRoot C (c, o)
      → IsGoverned C s
      → IsGoverned C (dispatch C c o s).1
  dispatch-IsGoverned c o s rootless (a, known) = elim (sender-cases C o) [
    | inl (who, signed) ↦ signed-IsGoverned c o s who signed (a, known)
    | inr (inl nobody) ↦ (a, rw (authorized-dispatch c o s a) (rw nobody (ground arith)))
    | inr (inr root) ↦ absurd (rootless root)
  ]

  -- Over storage maps with the laws of FRAME, if some account is authorized and the root makes
  -- no call, then some account is authorized after any calls.
  pub run-IsGoverned :
      (txs : List (Extrinsic C)) (s : Storage C)
      → All (IsNotRoot C) txs
      → IsGoverned C s
      → IsGoverned C (run C txs s)
  unfolding run
  run-IsGoverned [] s rootless h = h
  run-IsGoverned ((c, o) ∷ rest) s rootless h =
      run-IsGoverned rest (dispatch C c o s).1 rootless.1 (dispatch-IsGoverned c o s rootless.0 h)

update_all-is_some :
    (cs : CoinInfos) (f : AssetId → _) (k : AssetId)
    → is_some (f k) ≡ true
    → is_some (update_all cs f k) ≡ true
update_all-is_some [] f k h = h
update_all-is_some (((b, y), c) ∷ rest) f k h =
    update_all-is_some rest (update (new_asset_id b y) (some c) f) k (ground arith)

module _ (C : Config) (L : IsLawfulConfig C) where
  effect-coin_info :
      (c : Call C.AccountId) (v : View C.AccountId) (k : AssetId)
      → is_some (v.coin_info k) ≡ true
      → is_some ((effect C c v).coin_info k) ≡ true
  effect-coin_info (Call.set_updated_coin_infos cs) v k h = update_all-is_some cs v.coin_info k h
  effect-coin_info c v k h = h

  -- Over storage maps with the laws of FRAME, a coin info that is stored once is never removed
  -- again, by any calls of anybody.
  pub run_keeps_coin_info :
      (txs : List (Extrinsic C)) (s : Storage C) (k : AssetId)
      → is_some (C.coin_infos.get s.coin_infos_map k) ≡ true
      → is_some (C.coin_infos.get (run C txs s).coin_infos_map k) ≡ true
  unfolding run
  run_keeps_coin_info [] s k h = h
  run_keeps_coin_info ((c, o) ∷ rest) s k h = run_keeps_coin_info rest (dispatch C c o s).1 k (
      ground (
        arith,
        ap (λ (v : View C.AccountId). v.coin_info k) (view-dispatch C L c o s),
        effect-coin_info c (view C s) k h,
      ))

module _ (C : Config) where
  -- A successful call is free of charge exactly when it updates the prices.
  pub dispatch_pays :
      (c : Call C.AccountId) (o : C.Origin) (s : Storage C) (p : Pays)
      → (dispatch C c o s).0 ≡ ok p
      → p ≡ (if is_update c then pays_no else pays_yes)
  unfolding dispatch
  dispatch_pays (Call.set_updated_coin_infos cs) o s p h = ground arith
  dispatch_pays c o s p h = ground arith
