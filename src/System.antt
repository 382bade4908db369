-- ===== src/System.antt =====
-- The whole oracle as a transition system: the server's updater (dia-batching-server/src), the chain
-- with its off-chain workers (pallets/dia-oracle/src/lib.rs), and the transactions between them, in
-- any order of their steps.
pub mod Updates
pub mod Answers
pub mod Submits
pub mod Endpoint
pub mod Invariant
pub mod Provenance
pub mod Refresh
pub mod Stuck
mod Tests
use oracle_pallet.Prelude.{ℕ, ◌≡◌, Bool, true, false, not, Option, none, some, List, [], ◌∷◌, ◌++◌}
use oracle_pallet.Result.{ok}
use oracle_pallet.Text.{concat}
use oracle_pallet.Pallet.Types.{Bytes, Call}
use oracle_pallet.Pallet.Config.{Config, Storage}
use oracle_pallet.Pallet.Calls.{dispatch}
use oracle_pallet.Pallet.Calls.Spec.{sender, view, permitted}
use oracle_pallet.Pallet.Calls.Stored.{is_update}
use oracle_pallet.Pallet.Worker.{
  Offchain, Action, HttpRequest, batching_endpoint_fallback, offchain_worker,
}
use oracle_pallet.Server.Types.{AssetSpecifier, Crates}
use oracle_pallet.Server.Storage.{CoinInfoStorage}
use oracle_pallet.Server.Updater
use oracle_pallet.Server.Updater.{DiaApi}
use oracle_pallet.Wire.{JsonApi, from_slice, answer}

-- A call that is signed by an account.
abbrev pub Signed : Type 0 → Type 0
Signed AccountId = AccountId × Call AccountId

-- Whether the updating task runs, the map that the server answers from, the state of DIA and the
-- clock, the storage of the chain, and every transaction that a worker has submitted so far.
pub record World {X : Crates} (A : DiaApi X) (C : Config) : Type 0 where
  pub running : Bool
  pub coins : CoinInfoStorage
  pub api_state : A.State
  pub chain : Storage C
  pub pool : List (Signed C.AccountId)

abbrev pub submissions : {AccountId : Type 0} → List (Action AccountId) → List (Signed AccountId)
submissions [] = []
submissions (Action.posted req ∷ rest) = submissions rest
submissions (Action.refused account call ∷ rest) = submissions rest
submissions (Action.submitted account call ∷ rest) = (account, call) ∷ submissions rest

abbrev after_round :
    {X : Crates} {A : DiaApi X} {C : Config} → World A C → Updater.Round A → World A C
after_round w r = record w { running = r.finished; coins = r.coins; api_state = r.state }

-- The endpoint to which the workers post in this storage of the chain.
abbrev pub posts_to : {C : Config} → Storage C → Bytes
posts_to s = elim s.batching_api [ none ↦ batching_endpoint_fallback | some api ↦ api ]

-- Whether the call moves the workers to an endpoint that is not the server's.
abbrev pub redirects : {AccountId : Type 0} → (Bytes → Bool) → Call AccountId → Bool
redirects server (Call.set_batching_api api) = not (server api)
redirects server c = false

-- A worker that reads its answers as the pallet does. A request that arrives at one of the server's
-- endpoints is answered by the server, and any other by anybody.
pub record IsRouted (C : Config) (W : Offchain C) (J : JsonApi) (server : Bytes → Bool)
    (coins : CoinInfoStorage) : Type 0 where
  pub reads : (body : Bytes) → W.from_slice body ≡ from_slice J body
  pub answers :
      (req : HttpRequest) (p : W.PendingRequest) (r : W.Response)
      → server req.url ≡ true
      → W.send req ≡ some p
      → W.wait p ≡ some r
      → W.body r ≡ answer J coins (concat req.chunks)

module _ {X : Crates} (A : DiaApi X) (C : Config) (J : JsonApi) (server : Bytes → Bool)
    (supported : Option (List AssetSpecifier)) (rate : ℕ) where
  -- One step of one part. The server makes a round, if no round before has panicked, or waits. A
  -- worker runs in the storage of the chain; its requests may be lost. Anybody makes any call, at
  -- any time: a submitted transaction, also a second time, or one that no worker has submitted.
  pub data Step (w : World A C) : World A C → Type 1 where
    round :
        w.running ≡ true
        → Step w (after_round w (Updater.update_prices A w.coins supported rate w.api_state))
    wait : (duration : ℕ) → Step w (record w { api_state = A.delay_for duration w.api_state })
    work :
        (W : Offchain C)
        → IsRouted C W J server w.coins
        → Step w (record w { pool = w.pool ++ submissions (offchain_worker C W w.chain) })
    call :
        (c : Call C.AccountId) (o : C.Origin)
        → Step w (record w { chain = (dispatch C c o w.chain).1 })

  pub data Reach (w : World A C) : World A C → Type 1 where
    here : Reach w w
    next : {u v : World A C} → Reach w u → Step u v → Reach w v

  -- A call that keeps to the workers' prices: it is not permitted, or a transaction that a worker
  -- has submitted, or neither an update of the prices nor a change to an endpoint that is not the
  -- server's.
  pub data IsTrusted (w : World A C) (c : Call C.AccountId) (o : C.Origin) : Type 0 where
    refused : permitted C (view C w.chain) (sender C o) c ≡ false → IsTrusted w c o
    submitted :
        (account : C.AccountId) (before after : List (Signed C.AccountId))
        → w.pool ≡ before ++ ((account, c) ∷ after)
        → C.ensure_signed o ≡ ok account
        → IsTrusted w c o
    other : is_update c ≡ false → redirects server c ≡ false → IsTrusted w c o

  abbrev pub IsTrustedStep : {w v : World A C} → Step w v → Type 0
  IsTrustedStep (Step.round running) = Unit
  IsTrustedStep (Step.wait duration) = Unit
  IsTrustedStep (Step.work W N) = Unit
  IsTrustedStep {w} (Step.call c o) = IsTrusted w c o

  -- Every call of the run is one of these.
  abbrev pub Trusted : {w v : World A C} → Reach w v → Type 0
  Trusted Reach.here = Unit
  Trusted (Reach.next r s) = Trusted r × IsTrustedStep s
