-- ===== src/Pallet/Calls/Stored.antt =====
-- A property of the stored coin infos that every update keeps holds after any call.
use mathlib.Core.Path.{subst₂}
use oracle_pallet.Prelude.{
  ◌≡◌, ap, Bool-cases, inl, inr, Bool, true, false, Option, some, [], ◌∷◌, arith, if◌then◌else◌,
  ◌==◌, All,
}
use oracle_pallet.Pallet.Types.{AssetId, new_asset_id, asset_id_eq, CoinInfo, CoinInfos, Call}
use oracle_pallet.Pallet.Config.{Config, Storage, IsLawfulConfig}
use oracle_pallet.Pallet.Calls.{dispatch}
use oracle_pallet.Pallet.Calls.Spec.{View, view, effect, update, update_all, permitted, sender}
use oracle_pallet.Pallet.Calls.Refinement.{view-dispatch}

abbrev pub is_update : {A : Type 0} → Call A → Bool
is_update (Call.set_updated_coin_infos cs) = true
is_update c = false

module _ (P : AssetId → CoinInfo → Type 0) where
  abbrev pub Holds : (AssetId → Option CoinInfo) → Type 0
  Holds f = (k : AssetId) (c : CoinInfo) → f k ≡ some c → P k c

  abbrev pub Sends : {A : Type 0} → Call A → Type 0
  Sends (Call.set_updated_coin_infos cs) = All (λ e. P (new_asset_id e.0.0 e.0.1) e.1) cs
  Sends c = Unit

  pub other-Sends : {A : Type 0} (c : Call A) → is_update c ≡ false → Sends c
  other-Sends (Call.set_updated_coin_infos cs) other = cc
  other-Sends c other = tt

  update-Holds :
      (k : AssetId) (c : CoinInfo) (f : AssetId → Option CoinInfo)
      → P k c
      → Holds f
      → Holds (update k (some c) f)
  update-Holds k c f p h j d e = elim (Bool-cases (k == j)) [
    | inl same ↦ let ek : k ≡ j = ground arith in let ec : c ≡ d = ground arith in subst₂ P ek ec p
    | inr other ↦ h j d (ground arith)
  ]

  update_all-Holds :
      (cs : CoinInfos) (f : AssetId → Option CoinInfo)
      → All (λ e. P (new_asset_id e.0.0 e.0.1) e.1) cs
      → Holds f
      → Holds (update_all cs f)
  update_all-Holds [] f own h = h
  update_all-Holds (((b, y), c) ∷ rest) f own h =
      update_all-Holds rest (update (new_asset_id b y) (some c) f) own.1
        (update-Holds (new_asset_id b y) c f own.0 h)

  module _ (C : Config) where
    effect-Holds :
        (c : Call C.AccountId) (v : View C.AccountId)
        → Sends c
        → Holds v.coin_info
        → Holds (effect C c v).coin_info
    effect-Holds (Call.set_updated_coin_infos cs) v own h = update_all-Holds cs v.coin_info own h
    effect-Holds c v own h = h

    chosen-Holds :
        (b : Bool) (v w : View C.AccountId)
        → Holds v.coin_info
        → Holds w.coin_info
        → Holds (if b then v else w).coin_info
    chosen-Holds true v w hv hw = hv
    chosen-Holds false v w hv hw = hw

    module _ (L : IsLawfulConfig C) (c : Call C.AccountId) (o : C.Origin) (s : Storage C)
        (h : Holds (C.coin_infos.get s.coin_infos_map)) where
      pub dispatch-Holds : Sends c → Holds (C.coin_infos.get (dispatch C c o s).1.coin_infos_map)
      dispatch-Holds own =
          rw (ap (λ (v : View C.AccountId). v.coin_info) (view-dispatch C L c o s)) (
            chosen-Holds (permitted C (view C s) (sender C o) c) (effect C c (view C s)) (view C s)
              (effect-Holds c (view C s) own h) h)

      -- A call that is not permitted may hold anything.
      pub refused-Holds :
          permitted C (view C s) (sender C o) c ≡ false
          → Holds (C.coin_infos.get (dispatch C c o s).1.coin_infos_map)
      refused-Holds refused =
          rw (ap (λ (v : View C.AccountId). v.coin_info) (view-dispatch C L c o s)) (rw refused h)
