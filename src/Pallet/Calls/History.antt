-- ===== src/Pallet/Calls/History.antt =====
-- Sequences of calls, and what holds of the storage after them.
use oracle_pallet.Prelude.{◌≡◌, refl, List, [], ◌∷◌, ◌++◌, arith}
use oracle_pallet.Pallet.Types.{new_asset_id, asset_id_eq, Event, Call}
use oracle_pallet.Pallet.Config.{Config, Storage, IsLawfulConfig}
use oracle_pallet.Pallet.Calls.{dispatch}
use oracle_pallet.Pallet.Calls.Spec.{View, view, report}
use oracle_pallet.Pallet.Calls.Refinement.{
  contains_key-insert, contains_key-remove, get-insert_coin_infos,
}

module _ (C : Config) where
  -- A call with its origin.
  abbrev pub Extrinsic : Type 0
  Extrinsic = Call C.AccountId × C.Origin

  -- The calls of some blocks, one after the other. A call that fails leaves what it wrote.
  unfoldable pub run : List Extrinsic → Storage C → Storage C
  run [] s = s
  run ((c, o) ∷ rest) s = run rest (dispatch C c o s).1

  -- The view that a list of events tells of, the oldest event first.
  unfoldable pub replay : List (Event C.AccountId) → View C.AccountId → View C.AccountId
  replay [] v = v
  replay (e ∷ rest) v = replay rest (report C e v)

  replay-append :
      (es : List (Event C.AccountId)) (e : Event C.AccountId) (v : View C.AccountId)
      → replay (es ++ (e ∷ [])) v ≡ report C e (replay es v)
  unfolding replay
  replay-append [] e v = refl
  replay-append (x ∷ es) e v = replay-append es e (report C x v)

module _ (C : Config) (L : IsLawfulConfig C) where
  -- The deposited events tell, from `start`, all that can be read.
  abbrev IsTold : View C.AccountId → Storage C → Type 0
  IsTold start s = replay C s.events start ≡ view C s

  dispatch-IsTold :
      (start : View C.AccountId) (c : Call C.AccountId) (o : C.Origin) (s : Storage C)
      → IsTold start s
      → IsTold start (dispatch C c o s).1
  unfolding dispatch
  dispatch-IsTold start (Call.add_currency b y) o s h = ground (
    arith,
    replay-append C s.events (Event.currency_added b y) start,
    contains_key-insert C.supported L.supported s.supported_currencies (new_asset_id b y),
  )
  dispatch-IsTold start (Call.remove_currency b y) o s h = ground (
    arith,
    replay-append C s.events (Event.currency_removed b y) start,
    contains_key-remove C.supported L.supported s.supported_currencies (new_asset_id b y),
  )
  dispatch-IsTold start (Call.authorize_account a) o s h = ground (
    arith,
    replay-append C s.events (Event.account_id_authorized a) start,
    contains_key-insert ⦃e = C.account_eq⦄ C.authorized L.authorized s.authorized_accounts a,
  )
  dispatch-IsTold start (Call.deauthorize_account a) o s h = ground (
    arith,
    replay-append C s.events (Event.account_id_deauthorized a) start,
    contains_key-remove ⦃e = C.account_eq⦄ C.authorized L.authorized s.authorized_accounts a,
  )
  dispatch-IsTold start (Call.set_updated_coin_infos cs) o s h = ground (
    arith,
    replay-append C s.events (Event.updated_prices cs) start,
    get-insert_coin_infos C L cs s.coin_infos_map,
  )
  dispatch-IsTold start (Call.set_batching_api api) o s h =
      ground (arith, replay-append C s.events (Event.batching_api_route_set api) start)

  run-IsTold :
      (start : View C.AccountId) (txs : List (Extrinsic C)) (s : Storage C)
      → IsTold start s
      → IsTold start (run C txs s)
  unfolding run
  run-IsTold start [] s h = h
  run-IsTold start ((c, o) ∷ rest) s h =
      run-IsTold start rest (dispatch C c o s).1 (dispatch-IsTold start c o s h)

  -- Over storage maps with the laws of FRAME, from a storage with no events, after any calls by
  -- anybody, replaying the deposited events over what could be read at first gives what can be
  -- read at the end.
  pub replay-run :
      (txs : List (Extrinsic C)) (s : Storage C)
      → s.events ≡ []
      → replay C (run C txs s).events (view C s) ≡ view C (run C txs s)
  unfolding replay
  replay-run txs s h = run-IsTold (view C s) txs s (rw (h, replay))
