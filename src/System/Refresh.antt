-- ===== src/System/Refresh.antt =====
-- The way of new prices to the chain, from any world in which the server still runs.
use mathlib.Core.Path.{subst}
use oracle_pallet.Prelude.{
  Bool, ℕ, ◌≤◌, ◌≡◌, refl, ◌∙◌, true, false, none, some, Option, List, [], ◌∷◌, ◌++◌, arith,
  if◌then◌else◌, length, All,
}
use oracle_pallet.Result.{ok, ok_or, map_ok}
use oracle_pallet.Text.{is_utf8}
use oracle_pallet.Pallet.Types.{
  Bytes, AssetId, new_asset_id, CoinInfo, Call, module_error, no_coin_info_available,
}
use oracle_pallet.Pallet.Config.{Config, Storage, IsLawfulConfig}
use oracle_pallet.Pallet.Calls.{is_authorized, dispatch}
use oracle_pallet.Pallet.Oracle.{get_value, latest}
use oracle_pallet.Pallet.Worker.{
  Offchain, Action, HttpRequest, keyed, endpoint, update_prices, offchain_worker,
}
use oracle_pallet.Pallet.Worker.Request.{request_items, request_body}
use oracle_pallet.Pallet.Worker.Json.{IsPlainAsset}
use oracle_pallet.Pallet.Worker.Outcome.{keys, request, has_items}
use oracle_pallet.Server.Types
use oracle_pallet.Server.Types.{AssetSpecifier, Crates}
use oracle_pallet.Server.Updater
use oracle_pallet.Server.Updater.{DiaApi}
use oracle_pallet.Server.Updater.Rounds.{requests, panics, IsSteady, update_prices_exact}
use oracle_pallet.Wire.{JsonApi, IsLawfulJson}
use oracle_pallet.Wire.Answer.{Fits, has_plain_texts, read_back-plain}
use oracle_pallet.Wire.Found.{asked, served, AllAscii, found, found-All}
use oracle_pallet.Wire.Served.{IsConnected, answer-reads}
use oracle_pallet.Wire.Quoted.{quoted, round_stores, quoted_prices_on_chain}
use oracle_pallet.System.{
  World, Step, Reach, IsTrusted, Trusted, IsRouted, after_round, submissions,
}

-- A worker whose requests arrive, and whose calls are signed for this account and go to the pool.
pub record IsReliable (C : Config) (W : Offchain C) (account : C.AccountId) : Type 0 where
  pub sends : (req : HttpRequest) → (p : W.PendingRequest) × (W.send req ≡ some p)
  pub waits : (p : W.PendingRequest) → (r : W.Response) × (W.wait p ≡ some r)
  pub signs : (f : C.AccountId → Call C.AccountId) → W.send_signed f ≡ some (account, some tt)

submits :
    (C : Config) (W : Offchain C) (s : Storage C) (account : C.AccountId) (k : AssetId)
    (ks : List AssetId) (prices : List CoinInfo) (p : W.PendingRequest) (r : W.Response)
    → keys C W s ≡ k ∷ ks
    → is_utf8 (endpoint C W s) ≡ true
    → W.send (request C W s) ≡ some p
    → W.wait p ≡ some r
    → W.from_slice (W.body r) ≡ some prices
    → W.send_signed (λ account'. Call.set_updated_coin_infos (keyed prices))
      ≡ some (account, some tt)
    → (update_prices C W s []).1
      ≡ Action.posted (request C W s)
        ∷ Action.submitted account (Call.set_updated_coin_infos (keyed prices))
        ∷ []
unfolding update_prices
submits C W s account k ks prices p r supports valid sent received read signed =
    ground (arith, has_items C W s (λ e. cc))

submissions-worker :
    (C : Config) (W : Offchain C) (s : Storage C) (req : HttpRequest) (account : C.AccountId)
    (call : Call C.AccountId)
    → (update_prices C W s []).1 ≡ Action.posted req ∷ Action.submitted account call ∷ []
    → submissions (offchain_worker C W s) ≡ (account, call) ∷ []
unfolding offchain_worker
submissions-worker C W s req account call log = rw log

module _ {X : Crates} (A : DiaApi X) (T : IsSteady A) (C : Config) (CL : IsLawfulConfig C)
    (J : JsonApi) (L : IsLawfulJson J) (server : Bytes → Bool)
    (supported : Option (List AssetSpecifier)) (rate : ℕ)
    (calm : panics T.answer (requests T.listing supported) ≡ false) (w : World A C) (W : Offchain C)
    (account : C.AccountId) (R : IsReliable C W account)
    (N : IsConnected C W J (Updater.update_prices A w.coins supported rate w.api_state).coins)
    (k : AssetId) (ks : List AssetId) (supports : keys C W w.chain ≡ k ∷ ks)
    (small : length (request_body (request_items (k ∷ ks))) ≤ J.limit)
    (plain : All IsPlainAsset (k ∷ ks)) (ascii : AllAscii (k ∷ ks))
    (fits : All Fits (quoted A T w.coins supported rate w.api_state calm))
    (unescaped : All
      (λ c. has_plain_texts c ≡ true)
      (quoted A T w.coins supported rate w.api_state calm)) where
  abbrev infos : List Types.CoinInfo
  infos = quoted A T w.coins supported rate w.api_state calm

  -- What the worker reads of the server's answer after the round.
  run_submits :
      is_utf8 (endpoint C W w.chain) ≡ true
      → (prices : List CoinInfo) × ((update_prices C W w.chain []).1
          ≡ Action.posted (request C W w.chain)
            ∷ Action.submitted account (Call.set_updated_coin_infos (keyed prices))
            ∷ [])
  run_submits valid =
      let (p, sent) = R.sends (request C W w.chain) in
      let (r, received) = R.waits p in
      let (prices, read) =
        read_back-plain (found infos (k ∷ ks)) (found-All _ infos (k ∷ ks) unescaped) in
      let N' =
        subst (IsConnected C W J) (round_stores A T w.coins supported rate w.api_state calm) N in
      let answered =
        answer-reads C W J L w.coins infos N' w.chain k ks supports small plain ascii fits p r sent
          received in
      (
        prices,
        submits C W w.chain account k ks prices p r supports valid sent received (answered ∙ read)
            (R.signs (λ account'. Call.set_updated_coin_infos (keyed prices))),
      )

  -- Over lawful storage maps and JSON libraries, and against an API of DIA whose answers stay the
  -- same, no request panics, and whose converted numbers fit their types and texts need no
  -- escape: in any world in which the updater runs, a worker has an authorized account that it can
  -- sign for and its calls get into the pool, its requests arrive at the server that the round
  -- leaves, the endpoint is UTF-8, and the supported currencies are one or more, in ASCII without
  -- quotes, backslashes and control characters and within the server's size limit for a request,
  -- there is a run, in which each permitted update of the prices is a transaction that a worker
  -- has submitted and no permitted call sets an endpoint that is not the server's, to a world in
  -- which the updater runs and each supported currency has on chain the price of the last
  -- quotation that names it, converted, and every other price is as before.
  pub prices_refresh :
      (o : C.Origin)
      → w.running ≡ true
      → is_utf8 (endpoint C W w.chain) ≡ true
      → C.ensure_signed o ≡ ok account
      → is_authorized C w.chain account ≡ true
      → (v : World A C) × (r : Reach A C J server supported rate w v) × Trusted A C J server
          supported rate r
        × (v.running ≡ true)
        × ((b y : Bytes)
            → get_value C b y v.chain
              ≡ map_ok
                  (λ info. record { value = info.price })
                  (ok_or
                    (latest
                      (if asked (k ∷ ks) b y then served infos b y else none)
                      (C.coin_infos.get w.chain.coin_infos_map (new_asset_id b y)))
                    (module_error no_coin_info_available)))
  prices_refresh o running valid signed known =
      let (prices, log) = run_submits valid in
      let call : Call C.AccountId = Call.set_updated_coin_infos (keyed prices) in
      let u = after_round w (Updater.update_prices A w.coins supported rate w.api_state) in
      let u' : World A C = record u {
        pool = u.pool ++ submissions (offchain_worker C W u.chain);
      } in
      let routed : IsRouted C W J server u.coins = record {
        reads = N.reads;
        answers = λ req p r here sent received. N.answers req p r sent received;
      } in
      let pooled : u'.pool ≡ u.pool ++ ((account, call) ∷ []) =
        rw (submissions-worker C W w.chain _ account call log) refl in
      (
        record u' { chain = (dispatch C call o w.chain).1 },
        Reach.next (Reach.next (Reach.next Reach.here (Step.round running)) (Step.work W routed))
            (Step.call call o),
        (((tt, tt), tt), IsTrusted.submitted account u.pool [] pooled signed),
        ground (arith, (update_prices_exact A T w.coins supported rate w.api_state).0),
        λ b y.
            quoted_prices_on_chain A T w.coins supported rate w.api_state calm C W J L N w.chain k
              ks supports small plain ascii fits CL w.chain o b y log signed known,
      )
