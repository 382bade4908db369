-- ===== src/Pallet/Calls.antt =====
-- The calls of pallets/dia-oracle/src/lib.rs, in the order in which the source checks, deposits
-- and writes.
pub mod Spec
pub mod Refinement
pub mod History
pub mod Authority
pub mod Stored
use oracle_pallet.Prelude.{Bool, not, some, [], ◌∷◌, ◌++◌, if◌then◌else◌}
use oracle_pallet.Result.{ok, err, Exec, pure, lift, gets, ensure, modify, ◌>>=◌, ◌>>◌}
use oracle_pallet.Pallet.Types.{
  Bytes, AssetId, new_asset_id, this_account_id_is_not_authorized,
  user_unable_to_deauthorize_themself, DispatchError, module_error, CoinInfos, Event, Pays,
  pays_yes, pays_no, Call,
}
use oracle_pallet.Pallet.Config.{Config, same_account, Storage}

module _ (C : Config) where
  abbrev pub Dispatch : Type 0 → Type 0
  Dispatch A = Exec (Storage C) DispatchError A

  abbrev pub deposit_event : Event C.AccountId → Dispatch (Unit {0})
  deposit_event e = modify (λ s. record s { events = s.events ++ (e ∷ []) })

  -- The body of an `if` with no `else`.
  abbrev pub when : Bool → Dispatch (Unit {0}) → Dispatch (Unit {0})
  when b m = if b then m else pure tt

  abbrev pub is_authorized : Storage C → C.AccountId → Bool
  is_authorized s = C.authorized.contains_key s.authorized_accounts

  abbrev pub is_supported : Storage C → AssetId → Bool
  is_supported s = C.supported.contains_key s.supported_currencies

  pub check_origin_rights : C.AccountId → Dispatch (Unit {0})
  check_origin_rights who = do
    known ← gets (λ s. is_authorized s who)
    ensure known (module_error this_account_id_is_not_authorized)

  pub add_currency : C.Origin → Bytes → Bytes → Dispatch (Unit {0})
  unfolding check_origin_rights
  add_currency origin blockchain symbol = do
    who ← lift (C.ensure_signed origin)
    check_origin_rights who
    let asset_id = new_asset_id blockchain symbol
    known ← gets (λ s. is_supported s asset_id)
    when (not known) (do
      deposit_event (Event.currency_added blockchain symbol)
      modify (λ s. record s {
        supported_currencies = C.supported.insert s.supported_currencies asset_id tt;
      }))

  pub remove_currency : C.Origin → Bytes → Bytes → Dispatch (Unit {0})
  unfolding check_origin_rights
  remove_currency origin blockchain symbol = do
    who ← lift (C.ensure_signed origin)
    check_origin_rights who
    let asset_id = new_asset_id blockchain symbol
    known ← gets (λ s. is_supported s asset_id)
    when known (do
      deposit_event (Event.currency_removed blockchain symbol)
      modify (λ s. record s {
        supported_currencies = C.supported.remove s.supported_currencies asset_id;
      }))

  pub authorize_account : C.Origin → C.AccountId → Dispatch (Unit {0})
  unfolding check_origin_rights
  authorize_account origin account_id = do
    elim (C.ensure_signed origin) [
      | ok who ↦ check_origin_rights who
      | err _ ↦ lift (C.ensure_root origin)
    ]
    known ← gets (λ s. is_authorized s account_id)
    when (not known) (do
      deposit_event (Event.account_id_authorized account_id)
      modify (λ s. record s {
        authorized_accounts = C.authorized.insert s.authorized_accounts account_id tt;
      }))

  pub deauthorize_account : C.Origin → C.AccountId → Dispatch (Unit {0})
  unfolding check_origin_rights
  deauthorize_account origin account_id = do
    elim (C.ensure_signed origin) [
      | ok who ↦ (do
        check_origin_rights who
        ensure (not (same_account C account_id who))
            (module_error user_unable_to_deauthorize_themself))
      | err _ ↦ lift (C.ensure_root origin)
    ]
    known ← gets (λ s. is_authorized s account_id)
    when known (do
      deposit_event (Event.account_id_deauthorized account_id)
      modify (λ s. record s {
        authorized_accounts = C.authorized.remove s.authorized_accounts account_id;
      }))

  -- The loop of `set_updated_coin_infos`.
  unfoldable pub insert_coin_infos : CoinInfos → C.coin_infos.Map → C.coin_infos.Map
  insert_coin_infos [] m = m
  insert_coin_infos (((blockchain, symbol), c) ∷ rest) m =
      insert_coin_infos rest (C.coin_infos.insert m (new_asset_id blockchain symbol) c)

  pub set_updated_coin_infos : C.Origin → CoinInfos → Dispatch Pays
  unfolding check_origin_rights
  set_updated_coin_infos origin coin_infos = do
    who ← lift (C.ensure_signed origin)
    check_origin_rights who
    deposit_event (Event.updated_prices coin_infos)
    modify (λ s. record s { coin_infos_map = insert_coin_infos coin_infos s.coin_infos_map })
    pure pays_no

  pub set_batching_api : C.Origin → Bytes → Dispatch (Unit {0})
  unfolding check_origin_rights
  set_batching_api origin api = do
    who ← lift (C.ensure_signed origin)
    check_origin_rights who
    modify (λ s. record s { batching_api = some api })
    deposit_event (Event.batching_api_route_set api)

  -- A call that returns `Ok(())` is paid for.
  abbrev pub charged : Dispatch (Unit {0}) → Dispatch Pays
  charged m = m >> pure pays_yes

  unfoldable pub dispatch : Call C.AccountId → C.Origin → Dispatch Pays
  unfolding add_currency remove_currency authorize_account deauthorize_account
      set_updated_coin_infos set_batching_api
  dispatch (Call.add_currency b y) origin = charged (add_currency origin b y)
  dispatch (Call.remove_currency b y) origin = charged (remove_currency origin b y)
  dispatch (Call.authorize_account a) origin = charged (authorize_account origin a)
  dispatch (Call.deauthorize_account a) origin = charged (deauthorize_account origin a)
  dispatch (Call.set_updated_coin_infos cs) origin = set_updated_coin_infos origin cs
  dispatch (Call.set_batching_api api) origin = charged (set_batching_api origin api)
