-- ===== src/Wire/Quoted.antt =====
-- From the quotations of DIA to the prices on chain: a round of the updater, and then a run of the
-- worker against the server.
pub mod Tests
use mathlib.Core.Path.{subst}
use oracle_pallet.Prelude.{
  ℕ, ◌≤◌, ◌≡◌, sym, ap, ◌∙◌, true, false, none, some, Option, List, [], ◌∷◌, if◌then◌else◌, length,
  All,
}
use oracle_pallet.Result.{ok, ok_or, map_ok}
use oracle_pallet.Pallet.Types.{
  Bytes, AssetId, new_asset_id, Call, module_error, no_coin_info_available,
}
use oracle_pallet.Pallet.Config.{Config, Storage, IsLawfulConfig}
use oracle_pallet.Pallet.Calls.{is_authorized, dispatch}
use oracle_pallet.Pallet.Oracle.{get_value, latest}
use oracle_pallet.Pallet.Worker.{Offchain, Action, HttpRequest, update_prices}
use oracle_pallet.Pallet.Worker.Request.{request_items, request_body}
use oracle_pallet.Pallet.Worker.Json.{IsPlainAsset}
use oracle_pallet.Pallet.Worker.Outcome.{keys}
use oracle_pallet.Server.Types.{AssetSpecifier, Crates, CoinInfo}
use oracle_pallet.Server.Storage.{CoinInfoStorage, replace_currencies_by_symbols}
use oracle_pallet.Server.Updater
use oracle_pallet.Server.Updater.{DiaApi}
use oracle_pallet.Server.Updater.Rounds.{requests, panics, successes, IsSteady, update_prices_exact}
use oracle_pallet.Wire.{JsonApi, IsLawfulJson}
use oracle_pallet.Wire.Answer.{Fits}
use oracle_pallet.Wire.Found.{asked, served, AllAscii}
use oracle_pallet.Wire.Served.{IsConnected, served_prices_on_chain}

module _ {X : Crates} (A : DiaApi X) (T : IsSteady A) (before : CoinInfoStorage)
    (m : Option (List AssetSpecifier)) (rate : ℕ) (st : A.State)
    (calm : panics T.answer (requests T.listing m) ≡ false) where
  -- The coin infos of the quotations of the round.
  abbrev pub quoted : List CoinInfo
  quoted = successes T.answer (requests T.listing m)

  pub round_stores :
      (Updater.update_prices A before m rate st).coins ≡ replace_currencies_by_symbols before quoted
  round_stores = rw calm at (update_prices_exact A T before m rate st).1

  module _ (C : Config) (W : Offchain C) (J : JsonApi) (L : IsLawfulJson J)
      (N : IsConnected C W J (Updater.update_prices A before m rate st).coins) (s : Storage C)
      (k : AssetId) (ks : List AssetId) (supports : keys C W s ≡ k ∷ ks)
      (small : length (request_body (request_items (k ∷ ks))) ≤ J.limit)
      (plain : All IsPlainAsset (k ∷ ks)) (ascii : AllAscii (k ∷ ks)) (fits : All Fits quoted) where
    -- Over lawful storage maps and JSON libraries, after a round without a panic against an API of
    -- DIA whose answers stay the same, and whose converted numbers fit their types: if the
    -- supported currencies are in ASCII without quotes, backslashes and control characters and
    -- their request is within the server's size limit, a run of the worker has submitted a call,
    -- and the call is dispatched for its account while this is authorized, then each supported
    -- currency has on chain the price of the last quotation of the round that names it, converted;
    -- any other currency, or one without a quotation, has the price that it had before.
    pub quoted_prices_on_chain :
        (CL : IsLawfulConfig C) (t : Storage C) (o : C.Origin) (b y : Bytes) {req : HttpRequest}
        {account : C.AccountId} {call : Call C.AccountId}
        → (update_prices C W s []).1 ≡ Action.posted req ∷ Action.submitted account call ∷ []
        → C.ensure_signed o ≡ ok account
        → is_authorized C t account ≡ true
        → get_value C b y (dispatch C call o t).1
          ≡ map_ok
              (λ info. record { value = info.price })
              (ok_or
                (latest
                  (if asked (k ∷ ks) b y then served quoted b y else none)
                  (C.coin_infos.get t.coin_infos_map (new_asset_id b y)))
                (module_error no_coin_info_available))
    quoted_prices_on_chain CL t o b y log signed known =
        served_prices_on_chain C W J L before quoted (subst (IsConnected C W J) round_stores N) s k
          ks supports small plain ascii fits CL t o b y log signed known
