-- ===== src/Pallet/Worker/Outcome.antt =====
-- What a run of `update_prices` has done, by how it ended.
use oracle_pallet.Prelude.{
  ◌≤◌, ◌≢◌, Option-cases, ◌≡◌, refl, ◌⊎◌, inl, inr, true, false, some, List, [], ◌∷◌, arith, ◌==◌,
  nat_eq, length,
}
use oracle_pallet.Result.{ok, is_ok}
use oracle_pallet.Pallet.Types.{CoinInfo, Call, AssetId, Error, failed_signed_transaction}
use oracle_pallet.Pallet.Config.{Config, Storage}
use oracle_pallet.Pallet.Worker.{
  Offchain, Action, HttpRequest, price_request, keyed, endpoint, update_prices,
}
use oracle_pallet.Pallet.Worker.Request.{request_items}
use oracle_pallet.Pallet.Worker.Json.{length-request_items}

length-ne-nil {ℓ} : {A : Type ℓ} (xs : List A) → xs ≢ [] → 1 ≤ length xs
length-ne-nil [] h = absurd (h refl)
length-ne-nil (x ∷ xs) h = omega arith

module _ (C : Config) (W : Offchain C) (s : Storage C) where
  abbrev pub keys : List AssetId
  keys = C.supported.iter_keys s.supported_currencies

  -- The one request that a run can post.
  abbrev pub request : HttpRequest
  request = price_request (endpoint C W s) (request_items keys)

  -- The server's answer reads as these prices.
  abbrev pub Answers : List CoinInfo → Type 0
  Answers prices =
      (p : W.PendingRequest) × (r : W.Response) × (W.send request ≡ some p)
      × (W.wait p ≡ some r)
      × (W.from_slice (W.body r) ≡ some prices)

  pub has_items : keys ≢ [] → (length (request_items keys) == 0) ≡ false
  has_items h = ground (arith, length-request_items keys, length-ne-nil keys h)

  -- If some currency is supported, a run that ends well has posted the one request, to the
  -- stored endpoint or else the fallback, has read the answer as prices, and has submitted
  -- exactly these prices, each under its own blockchain and symbol, in one call for one account.
  pub update_prices_delivers :
      keys ≢ []
      → is_ok (update_prices C W s []).0 ≡ true
      → (prices : List CoinInfo) × (account : C.AccountId) × Answers prices
        × ((update_prices C W s []).1
            ≡ Action.posted request
              ∷ Action.submitted account (Call.set_updated_coin_infos (keyed prices))
              ∷ [])
  unfolding update_prices
  update_prices_delivers ne h = elim (Option-cases (W.send request)) [
    | inl unsent ↦ absurd (ground (arith, has_items ne))
    | inr (p, sent) ↦ elim (Option-cases (W.wait p)) [
      | inl lost ↦ absurd (ground (arith, has_items ne))
      | inr (r, received) ↦ elim (Option-cases (W.from_slice (W.body r))) [
        | inl garbled ↦ absurd (ground (arith, has_items ne))
        | inr (prices, read) ↦
            elim (Option-cases
              (W.send_signed (λ account. Call.set_updated_coin_infos (keyed prices)))) [
                | inl unsigned ↦ absurd (ground (arith, has_items ne))
                | inr (a, signed) ↦
                    (prices, a.0, (p, r, sent, received, read), ground (arith, has_items ne))
              ]
      ]
    ]
  ]

  abbrev pub AfterError : Error → List (Action C.AccountId) → Type 0
  AfterError Error.deserialize_str_error log = log ≡ []
  AfterError Error.http_request_send_failed log = log ≡ Action.posted request ∷ []
  AfterError Error.http_request_failed log = log ≡ Action.posted request ∷ []
  AfterError Error.deserialize_error log = log ≡ Action.posted request ∷ []
  AfterError Error.failed_signed_transaction log =
      (log ≡ Action.posted request ∷ [])
      ⊎ ((prices : List CoinInfo) × (account : C.AccountId) × (log
            ≡ Action.posted request
              ∷ Action.refused account (Call.set_updated_coin_infos (keyed prices))
              ∷ []))
  AfterError _ log = ⊥

  -- With no supported currency a run ends well and does nothing.
  pub update_prices_idle : keys ≡ [] → update_prices C W s [] ≡ (ok tt, [])
  unfolding update_prices request_items
  update_prices_idle h = rw h
