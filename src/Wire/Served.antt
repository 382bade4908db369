-- ===== src/Wire/Served.antt =====
-- From the server's storage through the worker to the prices on chain, in one run.
use mathlib.Core.List.{append-nil}
use oracle_pallet.Prelude.{
  ◌≤◌, ◌≡◌, ap, sym, ◌∙◌, true, false, none, some, List, [], ◌∷◌, map, arith, if◌then◌else◌, length,
  All, bytes_eq,
}
use oracle_pallet.Result.{ok, err, ok_or, map_ok}
use oracle_pallet.Text.{concat, is_utf8}
use oracle_pallet.Pallet.Types.{
  Bytes, AssetId, new_asset_id, asset_id_eq, Call, module_error, no_coin_info_available,
  deserialize_error,
}
use oracle_pallet.Pallet.Config.{Config, Storage, IsLawfulConfig}
use oracle_pallet.Pallet.Calls.{is_authorized, dispatch}
use oracle_pallet.Pallet.Oracle.{get_value, latest}
use oracle_pallet.Pallet.Worker.{
  Offchain, Action, HttpRequest, price_request, endpoint, update_prices,
}
use oracle_pallet.Pallet.Worker.Request.{request_items, request_body}
use oracle_pallet.Pallet.Worker.Json.{IsPlainAsset}
use oracle_pallet.Pallet.Worker.Outcome.{keys, has_items, request}
use oracle_pallet.Pallet.Worker.Delivery.{worker_to_chain}
use oracle_pallet.Server.Types.{CoinInfo}
use oracle_pallet.Server.Storage.{CoinInfoStorage, replace_currencies_by_symbols}
use oracle_pallet.Server.Storage.Answers.{last_info, get_currencies-replace}
use oracle_pallet.Server.Handlers.{currencies_post}
use oracle_pallet.Wire.{JsonApi, IsLawfulJson, from_slice, answer, serialize_coin_info}
use oracle_pallet.Wire.Answer.{
  as_currency, Fits, has_plain_texts, read_back, from_slice-respond, answer-request,
}
use oracle_pallet.Wire.Found.{
  asked, served, AllAscii, found, found-All, last_info-found, read_back-found,
}

-- The worker's HTTP client and JSON reader are connected to a server that keeps this storage: its
-- answer to a request that arrives is the answer to the request's body.
pub record IsConnected (C : Config) (W : Offchain C) (J : JsonApi) (storage : CoinInfoStorage)
    : Type 0 where
  pub reads : (body : Bytes) → W.from_slice body ≡ from_slice J body
  pub answers :
      (req : HttpRequest) (p : W.PendingRequest) (r : W.Response)
      → W.send req ≡ some p
      → W.wait p ≡ some r
      → W.body r ≡ answer J storage (concat req.chunks)

currencies_post-found :
    (before : CoinInfoStorage) (cs : List CoinInfo) (ks : List AssetId)
    → currencies_post (map as_currency ks) (replace_currencies_by_symbols before cs) ≡ found cs ks
unfolding currencies_post
currencies_post-found before cs ks = get_currencies-replace before cs (map as_currency ks)

-- The body of the request is its only chunk.
concat-chunks : (api items : Bytes) → concat (price_request api items).chunks ≡ request_body items
unfolding price_request concat
concat-chunks api items = append-nil (request_body items)

module _ (C : Config) (W : Offchain C) (J : JsonApi) (L : IsLawfulJson J) (before : CoinInfoStorage)
    (cs : List CoinInfo) (N : IsConnected C W J (replace_currencies_by_symbols before cs))
    (s : Storage C) (k : AssetId) (ks : List AssetId) (supports : keys C W s ≡ k ∷ ks)
    (small : length (request_body (request_items (k ∷ ks))) ≤ J.limit)
    (plain : All IsPlainAsset (k ∷ ks)) (ascii : AllAscii (k ∷ ks)) (fits : All Fits cs) where
  -- What the answer to the worker's request reads as.
  pub answer-reads :
      (p : W.PendingRequest) (r : W.Response)
      → W.send (request C W s) ≡ some p
      → W.wait p ≡ some r
      → W.from_slice (W.body r) ≡ read_back (found cs (k ∷ ks))
  answer-reads p r sent received =
      N.reads (W.body r)
      ∙ ap (from_slice J) (
          N.answers (request C W s) p r sent received
          ∙ ap (answer J _) (concat-chunks _ _ ∙ ap (λ a. request_body (request_items a)) supports)
          ∙ answer-request J L _ k ks small plain ascii
          ∙ ap (λ a. J.respond (map serialize_coin_info a))
              (currencies_post-found before cs (k ∷ ks)))
      ∙ from_slice-respond J L (found cs (k ∷ ks)) (found-All Fits cs (k ∷ ks) fits)

  -- Over lawful storage maps and JSON libraries, and against a server whose numbers fit their types:
  -- if the supported currencies are in ASCII without quotes, backslashes and control characters
  -- and their request is within the server's size limit, a run has submitted a call, and the call
  -- is dispatched for its account while this is authorized, then each supported currency has
  -- the price on chain that the server has stored for it, and any other currency, or one that the
  -- server does not have, has the price that it had before.
  pub served_prices_on_chain :
      (CL : IsLawfulConfig C) (t : Storage C) (o : C.Origin) (b y : Bytes) {req : HttpRequest}
      {account : C.AccountId} {call : Call C.AccountId}
      → (update_prices C W s []).1 ≡ Action.posted req ∷ Action.submitted account call ∷ []
      → C.ensure_signed o ≡ ok account
      → is_authorized C t account ≡ true
      → get_value C b y (dispatch C call o t).1
        ≡ map_ok
            (λ info. record { value = info.price })
            (ok_or
              (latest
                (if asked (k ∷ ks) b y then served cs b y else none)
                (C.coin_infos.get t.coin_infos_map (new_asset_id b y)))
              (module_error no_coin_info_available))
  served_prices_on_chain CL t o b y log signed known =
      let (prices, (p, r, sent, received, read), e) =
        worker_to_chain C CL W s t o b y log signed known in
      let same =
        last_info-found cs (k ∷ ks) b y prices ascii
          (sym (answer-reads p r sent received) ∙ read) in
      rw same at e

  -- Under the same conditions on the libraries and the request: if the server stores for one of
  -- the supported currencies an info with a quote, a backslash or a control character in a text,
  -- then a run that gets its answer fails with `DeserializeError` and submits nothing, so that no
  -- supported currency gets a new price.
  pub escaped_text_blocks_update :
      (b y : Bytes) (c : CoinInfo) (p : W.PendingRequest) (r : W.Response)
      → asked (k ∷ ks) b y ≡ true
      → last_info cs b y ≡ some c
      → has_plain_texts c ≡ false
      → is_utf8 (endpoint C W s) ≡ true
      → W.send (request C W s) ≡ some p
      → W.wait p ≡ some r
      → update_prices C W s [] ≡ (err deserialize_error, Action.posted (request C W s) ∷ [])
  unfolding update_prices
  escaped_text_blocks_update b y c p r named known bad valid sent received =
      let garbled : W.from_slice (W.body r) ≡ none =
        answer-reads p r sent received ∙ read_back-found cs (k ∷ ks) b y c named known bad in
      ground (arith, has_items C W s (λ e. cc))
