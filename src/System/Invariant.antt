-- ===== src/System/Invariant.antt =====
-- A property of coin infos that the server's rounds keep holds on the server, in the transactions and
-- on chain, in every world that a run of trusted calls reaches.
use mathlib.Core.Path.{subst}
use oracle_pallet.Prelude.{
  ℕ, ◌≡◌, sym, Bool, true, none, Option, List, [], ◌∷◌, ◌++◌, All, All-append, inl, inr, nat_eq,
}
use oracle_pallet.Pallet.Types.{Bytes, AssetId, Call}
use oracle_pallet.Pallet.Config.{Config, IsLawfulConfig}
use oracle_pallet.Pallet.Calls.{dispatch}
use oracle_pallet.Pallet.Calls.Stored.{Holds, other-Sends, dispatch-Holds, refused-Holds}
use oracle_pallet.Pallet.Worker.{endpoint}
use oracle_pallet.Server.Types
use oracle_pallet.Server.Types.{AssetSpecifier, Crates}
use oracle_pallet.Server.Storage.{CoinInfoStorage, default_storage}
use oracle_pallet.Server.Storage.Answers.{get-nil}
use oracle_pallet.Server.Updater
use oracle_pallet.Server.Updater.{DiaApi}
use oracle_pallet.Wire.{JsonApi, IsLawfulJson}
use oracle_pallet.System.{World, posts_to, Step, Reach, IsTrusted, IsTrustedStep, Trusted}
use oracle_pallet.System.Answers.{Has}
use oracle_pallet.System.Endpoint.{update-stays, dispatch-posts_to}
use oracle_pallet.System.Submits.{IsOwn, IsUpdateOf, work-IsUpdateOf}

All-middle : {A : Type 0} (P : A → Type 0) (xs ys : List A) (x : A) → All P (xs ++ (x ∷ ys)) → P x
All-middle P [] ys x h = h.0
All-middle P (z ∷ xs) ys x h = All-middle P xs ys x h.1

module _ {X : Crates} (A : DiaApi X) (C : Config) (CL : IsLawfulConfig C) (J : JsonApi)
    (L : IsLawfulJson J) (server : Bytes → Bool) (unreadable : J.from_slice J.bad_request ≡ none)
    (supported : Option (List AssetSpecifier)) (rate : ℕ) (P : Types.CoinInfo → Type 0)
    (I : A.State → Type 0) where
  -- Every info, on the server, in a transaction or on chain, has the property.
  pub record Carries (w : World A C) : Type 0 where
    pub coins : Has P w.coins
    pub api_state : I w.api_state
    pub pool : All (IsUpdateOf P) w.pool
    pub endpoint : server (posts_to w.chain) ≡ true
    pub chain : Holds (IsOwn P) (C.coin_infos.get w.chain.coin_infos_map)

  -- The server's own steps keep the property, in the states of DIA that can come up.
  pub record KeepsInfos : Type 0 where
    pub rounds :
        (coins : CoinInfoStorage) (st : A.State)
        → Has P coins
        → I st
        → let r = Updater.update_prices A coins supported rate st in Has P r.coins × I r.state
    pub waits : (ms : ℕ) (st : A.State) → I st → I (A.delay_for ms st)

  pub fresh-Carries :
      (w : World A C)
      → w.coins ≡ default_storage
      → ((k : AssetId) → C.coin_infos.get w.chain.coin_infos_map k ≡ none)
      → w.pool ≡ []
      → server (posts_to w.chain) ≡ true
      → I w.api_state
      → Carries w
  fresh-Carries w fresh empty unsent routed here = record {
    coins = subst (Has P) (sym fresh) (λ k d e. cc (get-nil k));
    api_state = here;
    pool = subst (All (IsUpdateOf P)) (sym unsent) tt;
    endpoint = routed;
    chain = λ k d e. cc (empty k);
  }

  -- What a trusted call sends and where it leaves the endpoint.
  call-Carries :
      (w : World A C) (c : Call C.AccountId) (o : C.Origin)
      → IsTrusted A C J server supported rate w c o
      → Carries w
      → Holds (IsOwn P) (C.coin_infos.get (dispatch C c o w.chain).1.coin_infos_map)
        × (server (posts_to (dispatch C c o w.chain).1) ≡ true)
  call-Carries w c o (IsTrusted.refused refused) t = (
    refused-Holds _ C CL c o w.chain t.chain refused,
    dispatch-posts_to C CL server c o w.chain (inl refused) t.endpoint,
  )
  call-Carries w c o (IsTrusted.submitted account before after pooled signed) t =
      let (sends, updates) = All-middle _ before after (account, c) (subst (All _) pooled t.pool) in
      (
        dispatch-Holds _ C CL c o w.chain t.chain sends,
        dispatch-posts_to C CL server c o w.chain (inr (update-stays server c updates)) t.endpoint,
      )
  call-Carries w c o (IsTrusted.other other stays) t = (
    dispatch-Holds _ C CL c o w.chain t.chain (other-Sends (IsOwn P) c other),
    dispatch-posts_to C CL server c o w.chain (inr stays) t.endpoint,
  )

  Step-Carries :
      KeepsInfos
      → {w v : World A C} (s : Step A C J server supported rate w v)
      → IsTrustedStep A C J server supported rate s
      → Carries w
      → Carries v
  Step-Carries K {w} (Step.round running) trusted t =
      let r = K.rounds w.coins w.api_state t.coins t.api_state in
      record { coins = r.0; api_state = r.1; pool = t.pool; endpoint = t.endpoint; chain = t.chain }
  Step-Carries K {w} (Step.wait duration) trusted t = record {
    coins = t.coins;
    api_state = K.waits duration w.api_state t.api_state;
    pool = t.pool;
    endpoint = t.endpoint;
    chain = t.chain;
  }
  Step-Carries K {w} (Step.work W N) trusted t = record {
    coins = t.coins;
    api_state = t.api_state;
    pool =
        All-append _ w.pool _ t.pool
          (work-IsUpdateOf P C W J server w.coins w.chain L unreadable N t.endpoint t.coins);
    endpoint = t.endpoint;
    chain = t.chain;
  }
  Step-Carries K {w} (Step.call c o) trusted t =
      let (chain, endpoint) = call-Carries w c o trusted t in
      record {
        coins = t.coins;
        api_state = t.api_state;
        pool = t.pool;
        endpoint = endpoint;
        chain = chain;
      }

  pub Reach-Carries :
      KeepsInfos
      → {w v : World A C} (r : Reach A C J server supported rate w v)
      → Trusted A C J server supported rate r
      → Carries w
      → Carries v
  Reach-Carries K Reach.here trusted t = t
  Reach-Carries K (Reach.next r s) trusted t =
      Step-Carries K s trusted.1 (Reach-Carries K r trusted.0 t)
