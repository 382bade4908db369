-- ===== src/Pallet/Calls/Spec.antt =====
-- What the pallet promises, with no storage maps, origins or early returns: a state of plain
-- functions, a table of who may make which call, and the effect of each call.
use oracle_pallet.Prelude.{
  Bool, true, false, not, ◌&&◌, Option, some, if◌then◌else◌, ◌==◌, [], ◌∷◌, Eq,
}
use oracle_pallet.Result.{ok, err}
use oracle_pallet.Pallet.Types.{
  Bytes, CoinInfo, AssetId, new_asset_id, asset_id_eq, CoinInfos, Event, Call,
}
use oracle_pallet.Pallet.Config.{Config, same_account, Storage}
use oracle_pallet.Pallet.Calls.{is_authorized, is_supported}

pub data Sender (A : Type 0) : Type 0 where
  signed : A → Sender A
  root nobody : Sender A

pub record View (A : Type 0) : Type 0 where
  pub authorized : A → Bool
  pub supported : AssetId → Bool
  pub batching_api : Option Bytes
  pub coin_info : AssetId → Option CoinInfo

-- A function changed at one argument.
abbrev pub update : {K V : Type 0} ⦃e : Eq K⦄ → K → V → (K → V) → K → V
update k v f j = if k == j then v else f j

abbrev pub update_all : CoinInfos → (AssetId → Option CoinInfo) → AssetId → Option CoinInfo
update_all [] f = f
update_all (((b, y), c) ∷ rest) f = update_all rest (update (new_asset_id b y) (some c) f)

module _ (C : Config) where
  abbrev pub sender : C.Origin → Sender C.AccountId
  sender o = elim (C.ensure_signed o) [
    | ok a ↦ Sender.signed a
    | err _ ↦ elim (C.ensure_root o) [ ok _ ↦ Sender.root | err _ ↦ Sender.nobody ]
  ]

  abbrev pub view : Storage C → View C.AccountId
  view s = record {
    authorized = is_authorized C s;
    supported = is_supported C s;
    batching_api = s.batching_api;
    coin_info = C.coin_infos.get s.coin_infos_map;
  }

  -- Authorized accounts may make every call, but not deauthorize themselves. The root may
  -- authorize and deauthorize, and nothing else.
  abbrev pub permitted : View C.AccountId → Sender C.AccountId → Call C.AccountId → Bool
  permitted v (Sender.signed a) (Call.deauthorize_account b) =
      v.authorized a && not (same_account C b a)
  permitted v (Sender.signed a) _ = v.authorized a
  permitted v Sender.root (Call.authorize_account b) = true
  permitted v Sender.root (Call.deauthorize_account b) = true
  permitted v _ _ = false

  abbrev pub effect : Call C.AccountId → View C.AccountId → View C.AccountId
  effect (Call.add_currency b y) v = record v {
    supported = update (new_asset_id b y) true v.supported;
  }
  effect (Call.remove_currency b y) v = record v {
    supported = update (new_asset_id b y) false v.supported;
  }
  effect (Call.authorize_account a) v = record v {
    authorized = update ⦃e = C.account_eq⦄ a true v.authorized;
  }
  effect (Call.deauthorize_account a) v = record v {
    authorized = update ⦃e = C.account_eq⦄ a false v.authorized;
  }
  effect (Call.set_updated_coin_infos cs) v = record v { coin_info = update_all cs v.coin_info }
  effect (Call.set_batching_api api) v = record v { batching_api = some api }

  -- What an event says of the change that it reports.
  abbrev pub report : Event C.AccountId → View C.AccountId → View C.AccountId
  report (Event.updated_prices cs) = effect (Call.set_updated_coin_infos cs)
  report (Event.account_id_authorized a) = effect (Call.authorize_account a)
  report (Event.account_id_deauthorized a) = effect (Call.deauthorize_account a)
  report (Event.currency_added b y) = effect (Call.add_currency b y)
  report (Event.currency_removed b y) = effect (Call.remove_currency b y)
  report (Event.batching_api_route_set api) = effect (Call.set_batching_api api)
