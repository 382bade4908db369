-- ===== src/System/Provenance.antt =====
-- Where the prices on chain come from, in every world that a run of trusted calls reaches.
use oracle_pallet.Prelude.{ℕ, ◌≡◌, Bool, true, none, Option, List, [], arith, nat_eq}
use oracle_pallet.Result.{ok}
use oracle_pallet.Pallet.Types.{Bytes, AssetId, new_asset_id, CoinInfo}
use oracle_pallet.Pallet.Config.{Config, IsLawfulConfig}
use oracle_pallet.Pallet.Oracle.{get_coin_info, get_coin_info_exact}
use oracle_pallet.Server.Types
use oracle_pallet.Server.Types.{AssetSpecifier, Crates}
use oracle_pallet.Server.Storage.{CoinInfoStorage, default_storage}
use oracle_pallet.Server.Updater.{DiaApi}
use oracle_pallet.Wire.{JsonApi, IsLawfulJson}
use oracle_pallet.Wire.Answer.{stored}
use oracle_pallet.System.{World, posts_to, Reach, Trusted}
use oracle_pallet.System.Updates.{Later, IsQuotation, Replaced, update_prices-Replaced}
use oracle_pallet.System.Answers.{Has, replace-Has}
use oracle_pallet.System.Invariant.{KeepsInfos, fresh-Carries, Reach-Carries}

module _ {X : Crates} (A : DiaApi X) (C : Config) (CL : IsLawfulConfig C) (J : JsonApi)
    (L : IsLawfulJson J) (server : Bytes → Bool) (unreadable : J.from_slice J.bad_request ≡ none)
    (supported : Option (List AssetSpecifier)) (rate : ℕ) where
  Replaced-Has :
      (first : A.State) {before after : CoinInfoStorage}
      → Replaced A first before after
      → Has (IsQuotation A first) before
      → Has (IsQuotation A first) after
  Replaced-Has first Replaced.unchanged h = h
  Replaced-Has first {before} (Replaced.replaced cs all) h =
      replace-Has (IsQuotation A first) before cs all

  round-Keeps :
      (first : A.State)
      → KeepsInfos A C CL J L server unreadable supported rate (IsQuotation A first) (Later A first)
  round-Keeps first = record {
    rounds = λ coins st has later.
        let r = update_prices-Replaced A first coins supported rate st later in
        (Replaced-Has first r.0 has, r.1);
    waits = λ ms st later. Later.delayed ms later;
  }

  -- Over lawful storage maps and JSON libraries, and if the body of a refused request does not read
  -- as JSON: take any run of steps of the updater, of workers and of calls by anybody, from a
  -- chain with no coin info whose workers post to the server, a server with an empty storage and
  -- no submitted transaction. If each permitted call of the run that updates the prices is a
  -- transaction that a worker has submitted, and no permitted call sets an endpoint that is not
  -- the server's, then in the world that is reached each coin info that can be read on chain
  -- stands under the blockchain and symbol that it names, and is the conversion, text for text and
  -- number for number, of a quotation that DIA has given in a state after the first.
  pub chain_prices_are_quotations :
      {w v : World A C} (b y : Bytes) (c : CoinInfo)
      → w.coins ≡ default_storage
      → ((k : AssetId) → C.coin_infos.get w.chain.coin_infos_map k ≡ none)
      → w.pool ≡ []
      → server (posts_to w.chain) ≡ true
      → (r : Reach A C J server supported rate w v) → Trusted A C J server supported rate r
      → get_coin_info C b y v.chain ≡ ok c
      → (c.blockchain ≡ b)
        × (c.symbol ≡ y)
        × ((d : Types.CoinInfo) × IsQuotation A w.api_state d × (c ≡ stored d))
  chain_prices_are_quotations {w} {v} b y c fresh empty unsent routed r trusted read =
      let first = w.api_state in
      let start =
        fresh-Carries A C CL J L server unreadable supported rate (IsQuotation A first)
          (Later A first) w fresh empty unsent routed Later.start in
      let (named, source) =
        (Reach-Carries A C CL J L server unreadable supported rate (IsQuotation A first)
            (Later A first) (round-Keeps first) r trusted start).chain
          (new_asset_id b y) c (ground (arith, get_coin_info_exact C CL b y v.chain)) in
      (cc, cc, source)
