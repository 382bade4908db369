-- ===== src/System/Submits.antt =====
-- What a run of a worker submits.
use oracle_pallet.Prelude.{
  ◌≡◌, refl, Bool, true, none, List, [], ◌∷◌, arith, All, ◌==◌, Bool-cases, Option-cases, ◌⊎◌, inl,
  inr, nat_eq, length,
}
use oracle_pallet.Text.{is_utf8, concat}
use oracle_pallet.Pallet.Types.{Bytes, AssetId, new_asset_id, CoinInfo, Call}
use oracle_pallet.Pallet.Config.{Config, Storage}
use oracle_pallet.Pallet.Calls.Stored.{is_update, Sends}
use oracle_pallet.Pallet.Worker.{
  Offchain, price_request, keyed, endpoint, update_prices, offchain_worker,
}
use oracle_pallet.Pallet.Worker.Request.{request_items}
use oracle_pallet.Pallet.Worker.Outcome.{keys, request, Answers}
use oracle_pallet.Server.Types
use oracle_pallet.Server.Types.{AssetSpecifier, Crates}
use oracle_pallet.Server.Storage.{CoinInfoStorage}
use oracle_pallet.Wire.{JsonApi, IsLawfulJson}
use oracle_pallet.System.{Signed, submissions, posts_to, IsRouted}
use oracle_pallet.System.Answers.{Has, Stored, answer-All}

-- A run of a worker submits nothing, or one update with what the answer read as.
submitted-cases :
    (C : Config) (W : Offchain C) (s : Storage C)
    → (submissions (offchain_worker C W s) ≡ [])
      ⊎ ((prices : List CoinInfo) × (account : C.AccountId) × Answers C W s prices
          × (submissions (offchain_worker C W s)
              ≡ (account, Call.set_updated_coin_infos (keyed prices)) ∷ []))
unfolding offchain_worker update_prices
submitted-cases C W s = elim (Bool-cases (length (request_items (keys C W s)) == 0)) [
  | inl nothing ↦ inl (ground arith)
  | inr some_ ↦ elim (Bool-cases (is_utf8 (endpoint C W s))) [
    | inr garbled ↦ inl (ground arith)
    | inl valid ↦ elim (Option-cases (W.send (request C W s))) [
      | inl unsent ↦ inl (ground arith)
      | inr (p, sent) ↦ elim (Option-cases (W.wait p)) [
        | inl lost ↦ inl (ground arith)
        | inr (r, received) ↦ elim (Option-cases (W.from_slice (W.body r))) [
          | inl garbled ↦ inl (ground arith)
          | inr (prices, read) ↦
              elim (Option-cases
                (W.send_signed (λ account. Call.set_updated_coin_infos (keyed prices)))) [
                  | inl unsigned ↦ inl (ground arith)
                  | inr (a, signed) ↦ elim (Option-cases a.1) [
                    | inl refused ↦ inl (ground arith)
                    | inr (ok_, taken) ↦
                        inr (prices, a.0, (p, r, sent, received, read), ground arith)
                  ]
                ]
        ]
      ]
    ]
  ]
]

module _ (P : Types.CoinInfo → Type 0) where
  -- The info is stored under its own names, and has the property in the server's form.
  abbrev pub IsOwn : AssetId → CoinInfo → Type 0
  IsOwn k c = (k ≡ new_asset_id c.blockchain c.symbol) × Stored P c

  keyed-All :
      (prices : List CoinInfo)
      → All (Stored P) prices
      → All (λ e. IsOwn (new_asset_id e.0.0 e.0.1) e.1) (keyed prices)
  unfolding keyed
  keyed-All [] h = tt
  keyed-All (c ∷ rest) h = ((refl, h.0), keyed-All rest h.1)

  -- An update whose infos have the property.
  abbrev pub IsUpdateOf : {AccountId : Type 0} → Signed AccountId → Type 0
  IsUpdateOf e = Sends IsOwn e.1 × (is_update e.1 ≡ true)

  pub work-IsUpdateOf :
      (C : Config) (W : Offchain C) (J : JsonApi) (server : Bytes → Bool) (coins : CoinInfoStorage)
      (s : Storage C)
      → IsLawfulJson J
      → J.from_slice J.bad_request ≡ none
      → IsRouted C W J server coins
      → server (posts_to s) ≡ true
      → Has P coins
      → All IsUpdateOf (submissions (offchain_worker C W s))
  unfolding price_request endpoint
  work-IsUpdateOf C W J server coins s L unreadable N here has = elim (submitted-cases C W s) [
    | inl idle ↦ rw idle tt
    | inr (prices, account, (p, r, sent, received, read), e) ↦ rw e (
      (
        keyed-All prices (
            answer-All P J coins (concat (request C W s).chunks) prices L unreadable
              (rw (N.reads (W.body r), N.answers (request C W s) p r here sent received) at read)
              has),
        refl,
      ),
      tt,
    )
  ]
