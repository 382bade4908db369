-- ===== src/Pallet/Worker/Delivery.antt =====
-- From the server's answer to what the chain reads, and the keys under which prices are stored.
use oracle_pallet.Prelude.{
  ◌≡◌, refl, inl, inr, true, ◌&&◌, Option, none, some, List, [], ◌∷◌, arith, if◌then◌else◌, ◌==◌,
  bytes_eq, All, Option-cases,
}
use oracle_pallet.Result.{ok, ok_or, map_ok}
use oracle_pallet.Pallet.Types.{
  Bytes, CoinInfo, AssetId, new_asset_id, asset_id_eq, Call, module_error, no_coin_info_available,
}
use oracle_pallet.Pallet.Config.{Config, Storage, IsLawfulConfig}
use oracle_pallet.Pallet.Calls.{is_authorized, dispatch}
use oracle_pallet.Pallet.Calls.Stored.{Holds, Sends, dispatch-Holds}
use oracle_pallet.Pallet.Calls.History.{Extrinsic, run}
use oracle_pallet.Pallet.Oracle.{get_value, last_of, latest, get_value-set_updated}
use oracle_pallet.Pallet.Worker.{Offchain, Action, HttpRequest, keyed, update_prices}
use oracle_pallet.Pallet.Worker.Outcome.{request, Answers}

-- The last info of a list that names this blockchain and symbol itself.
abbrev pub last_info : List CoinInfo → Bytes → Bytes → Option CoinInfo
last_info [] b y = none
last_info (c ∷ rest) b y = elim (last_info rest b y) [
  | some d ↦ some d
  | none ↦ if c.blockchain == b && c.symbol == y then some c else none
]

last_of-keyed :
    (prices : List CoinInfo) (b y : Bytes)
    → last_of (keyed prices) (new_asset_id b y) ≡ last_info prices b y
unfolding keyed
last_of-keyed [] b y = refl
last_of-keyed (c ∷ rest) b y = ground (arith, last_of-keyed rest b y)

module _ (C : Config) (W : Offchain C) where
  submitted_prices :
      (s : Storage C) {req : HttpRequest} {account : C.AccountId} {call : Call C.AccountId}
      → (update_prices C W s []).1 ≡ Action.posted req ∷ Action.submitted account call ∷ []
      → (prices : List CoinInfo) × Answers C W s prices
        × (call ≡ Call.set_updated_coin_infos (keyed prices))
  unfolding update_prices
  submitted_prices s h = elim (Option-cases (W.send (request C W s))) [
    | inl unsent ↦ absurd (ground arith)
    | inr (p, sent) ↦ elim (Option-cases (W.wait p)) [
      | inl lost ↦ absurd (ground arith)
      | inr (r, received) ↦ elim (Option-cases (W.from_slice (W.body r))) [
        | inl garbled ↦ absurd (ground arith)
        | inr (prices, read) ↦ (prices, (p, r, sent, received, read), ground arith)
      ]
    ]
  ]

module _ (C : Config) (L : IsLawfulConfig C) (W : Offchain C) where
  -- Over storage maps with the laws of FRAME, if a run has submitted a call for an account, and
  -- the call is dispatched for this account while it is authorized, then the call carries what
  -- the server's answer read as, and each blockchain and symbol has the price of the last entry
  -- of the answer that names them, or the price that it had before if no entry does.
  pub worker_to_chain :
      (s t : Storage C) (o : C.Origin) (b y : Bytes) {req : HttpRequest} {account : C.AccountId}
      {call : Call C.AccountId}
      → (update_prices C W s []).1 ≡ Action.posted req ∷ Action.submitted account call ∷ []
      → C.ensure_signed o ≡ ok account
      → is_authorized C t account ≡ true
      → (prices : List CoinInfo) × Answers C W s prices
        × (get_value C b y (dispatch C call o t).1
            ≡ map_ok
                (λ info. record { value = info.price })
                (ok_or
                  (latest
                    (last_info prices b y)
                    (C.coin_infos.get t.coin_infos_map (new_asset_id b y)))
                  (module_error no_coin_info_available)))
  worker_to_chain s t o b y {account} log signed known =
      let (prices, answers, e) = submitted_prices C W s log in
      (
        prices,
        answers,
        rw e (
            rw (← last_of-keyed prices b y)
              (get_value-set_updated C L b y (keyed prices) o account t signed known).1),
      )

-- The info stands under its own blockchain and symbol.
abbrev pub IsOwn : AssetId → CoinInfo → Type 0
IsOwn k c = k ≡ new_asset_id c.blockchain c.symbol

pub keyed-IsOwn :
    (prices : List CoinInfo) → All (λ e. IsOwn (new_asset_id e.0.0 e.0.1) e.1) (keyed prices)
unfolding keyed
keyed-IsOwn [] = tt
keyed-IsOwn (c ∷ rest) = (refl, keyed-IsOwn rest)

module _ (C : Config) where
  -- An update has each info under its own blockchain and symbol.
  abbrev pub SendsOwn : Extrinsic C → Type 0
  SendsOwn (c, o) = Sends IsOwn c

  abbrev pub StoresOwn : Storage C → Type 0
  StoresOwn s = Holds IsOwn (C.coin_infos.get s.coin_infos_map)

module _ (C : Config) (L : IsLawfulConfig C) where
  -- Over storage maps with the laws of FRAME, if each info is stored under the blockchain and
  -- symbol that it names, and every update that is sent has each info under its own key, then
  -- after any calls each stored info is found under the blockchain and symbol that it names.
  pub run-StoresOwn :
      (txs : List (Extrinsic C)) (s : Storage C)
      → All (SendsOwn C) txs
      → StoresOwn C s
      → StoresOwn C (run C txs s)
  unfolding run
  run-StoresOwn [] s own h = h
  run-StoresOwn ((c, o) ∷ rest) s own h =
      run-StoresOwn rest (dispatch C c o s).1 own.1 (dispatch-Holds IsOwn C L c o s h own.0)
