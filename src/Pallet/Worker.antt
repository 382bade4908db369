-- ===== src/Pallet/Worker.antt =====
-- `update_prices` and `offchain_worker` of pallets/dia-oracle/src/lib.rs.
-- The worker reads the storage and cannot write it. What it does outside comes back as a list of
-- actions: the request that it posts, and the call that it has signed, submitted or refused.
pub mod Request
pub mod Json
pub mod Outcome
pub mod Delivery
mod Tests
use oracle_pallet.Prelude.{
  Option, none, some, List, [], ◌∷◌, ◌++◌, map, if◌then◌else◌, ◌==◌, nat_eq, length,
}
use oracle_pallet.Result.{
  Result, ok, err, is_ok, ok_or, Exec, pure, lift, gets, ensure, modify, ◌>>=◌, ◌>>◌,
}
use oracle_pallet.Text.{codes, is_utf8}
use oracle_pallet.Pallet.Types.{
  Bytes, CoinInfo, CoinInfos, Call, Error, deserialize_str_error, deserialize_error,
  http_request_send_failed, http_request_failed, failed_signed_transaction,
}
use oracle_pallet.Pallet.Config.{Config, Storage}
use Request.{request_items, request_body}

-- `BATCHING_ENDPOINT_FALLBACK`
abbrev pub batching_endpoint_fallback : Bytes
batching_endpoint_fallback = codes "http://0.0.0.0:8070/currencies/"

-- `offchain::http::Request::post(url, chunks)` with its headers.
pub record HttpRequest : Type 0 where
  pub url : Bytes
  pub chunks : List Bytes
  pub headers : List (Bytes × Bytes)

unfoldable pub price_request : Bytes → Bytes → HttpRequest
price_request api items = record {
  url = api;
  chunks = request_body items ∷ [];
  headers = (codes "content-type", codes "application/json") ∷ [];
}

-- What the worker calls outside the pallet, as it answers in one run: the HTTP client, the JSON
-- reader of a list of coin infos, and the signer. `send_signed` is `send_signed_transaction`: it
-- names the account that its closure's call was signed and submitted for, and whether the
-- submission went through; `none` means that no account could sign.
pub record Offchain (C : Config) : Type 1 where
  pub PendingRequest : Type 0
  pub Response : Type 0
  pub send : HttpRequest → Option PendingRequest
  pub wait : PendingRequest → Option Response
  pub body : Response → Bytes
  pub from_slice : Bytes → Option (List CoinInfo)
  pub send_signed : (C.AccountId → Call C.AccountId) → Option (C.AccountId × Option (Unit {0}))

pub data Action (A : Type 0) : Type 0 where
  posted : HttpRequest → Action A
  submitted : A → Call A → Action A
  refused : A → Call A → Action A

-- What became of a signed call: it is in the pool, or the submission has failed.
abbrev pub submission : {A : Type 0} → A → Call A → Option (Unit {0}) → Action A
submission account call none = Action.refused account call
submission account call (some ok_) = Action.submitted account call

-- The pairs that are sent on chain: each coin info under its own blockchain and symbol.
unfoldable pub keyed : List CoinInfo → CoinInfos
keyed = map (λ p. ((p.blockchain, p.symbol), p))

module _ (C : Config) (W : Offchain C) where
  abbrev pub Worker : Type 0 → Type 0
  Worker A = Exec (List (Action C.AccountId)) Error A

  abbrev pub record_action : Action C.AccountId → Worker (Unit {0})
  record_action a = modify (λ log. log ++ (a ∷ []))

  -- `signer.send_signed_transaction(f)`
  pub send_signed_transaction :
      (C.AccountId → Call C.AccountId) → Worker (Option (C.AccountId × Option (Unit {0})))
  send_signed_transaction f = elim (W.send_signed f) [
    | none ↦ pure none
    | some (account, result) ↦ (do
      record_action (submission account (f account) result)
      pure (some (account, result)))
  ]

  unfoldable pub endpoint : Storage C → Bytes
  endpoint s = elim s.batching_api [ none ↦ batching_endpoint_fallback | some api ↦ api ]

  unfoldable pub update_prices : Storage C → Worker (Unit {0})
  unfolding send_signed_transaction endpoint keyed nat_eq
  update_prices s = do
    let items = request_items (C.supported.iter_keys s.supported_currencies)
    if length items == 0 then pure tt else do
      let api = endpoint s
      ensure (is_utf8 api) deserialize_str_error
      let request = price_request api items
      record_action (Action.posted request)
      pending ← lift (ok_or (W.send request) http_request_send_failed)
      response ← lift (ok_or (W.wait pending) http_request_failed)
      prices ← lift (ok_or (W.from_slice (W.body response)) deserialize_error)
      sent ← send_signed_transaction (λ account. Call.set_updated_coin_infos (keyed prices))
      (account, result) ← lift (ok_or sent failed_signed_transaction)
      lift (ok_or result failed_signed_transaction)

  -- The hook of a block: an error is only logged.
  unfoldable pub offchain_worker : Storage C → List (Action C.AccountId)
  unfolding update_prices
  offchain_worker s = (update_prices s []).1
