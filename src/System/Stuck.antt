-- ===== src/System/Stuck.antt =====
-- A server that cannot convert one of the quotations it asks for, and the chain beside it.
use oracle_pallet.Prelude.{
  true, ℕ, ◌*◌, ◌/◌, ◌^◌, ◌≤◌, ◌≡◌, refl, false, none, Option, List, [], ◌∷◌, ◌++◌, arith, All,
  Option-cases, inl, inr, Bool,
}
use oracle_pallet.Result.{ok, err}
use oracle_pallet.Pallet.Types.{Bytes, AssetId, new_asset_id, module_error, no_coin_info_available}
use oracle_pallet.Pallet.Config.{Config, IsLawfulConfig}
use oracle_pallet.Pallet.Oracle.{get_coin_info, get_coin_info_exact}
use oracle_pallet.Server.Decimal.{one, IsLawfulDecimal}
use oracle_pallet.Server.Types.{AssetSpecifier, Crates, QuotedAsset, Quotation, CoinInfo, Currency}
use oracle_pallet.Server.Convert.{price_scale}
use oracle_pallet.Server.Storage.{default_storage}
use oracle_pallet.Server.Handlers.{currencies_post}
use oracle_pallet.Server.Updater.{DiaApi}
use oracle_pallet.Server.Updater.Rounds.{requests, IsSteady}
use oracle_pallet.Server.Updater.Stopped.{large_price_stops_round}
use oracle_pallet.Wire.{JsonApi, IsLawfulJson}
use oracle_pallet.System.{World, posts_to, Reach, Trusted}
use oracle_pallet.System.Answers.{found-All}
use oracle_pallet.System.Invariant.{KeepsInfos, fresh-Carries, Reach-Carries}

abbrev Nothing : CoinInfo → Type 0
Nothing c = ⊥

All-Nothing : (cs : List CoinInfo) → All Nothing cs → cs ≡ []
All-Nothing [] h = refl
All-Nothing (c ∷ cs) h = absurd h.0

module _ {X : Crates} (LD : IsLawfulDecimal X.decimal) (A : DiaApi X) (T : IsSteady A) (C : Config)
    (CL : IsLawfulConfig C) (J : JsonApi) (L : IsLawfulJson J) (server : Bytes → Bool)
    (unreadable : J.from_slice J.bad_request ≡ none) (supported : Option (List AssetSpecifier))
    (rate : ℕ) (qs rs : List (QuotedAsset X)) (q : QuotedAsset X) (quotation : Quotation X)
    (asked : requests T.listing supported ≡ qs ++ (q ∷ rs)) (answered : T.answer q ≡ ok quotation)
    (nonneg : X.decimal.is_negative quotation.price ≡ false)
    (large : 2 ^ 96 ≤ X.decimal.units quotation.price / one * price_scale) where
  round-Keeps : KeepsInfos A C CL J L server unreadable supported rate Nothing (λ st. Unit)
  round-Keeps = record {
    rounds = λ coins st has here. (
      rw
          (large_price_stops_round LD A T coins supported rate st qs rs q quotation asked answered
            nonneg large).1
          has,
      tt,
    );
    waits = λ ms st here. tt;
  }

  -- Over decimals, storage maps and JSON libraries with their documented laws, if the body of a
  -- refused request does not read as JSON, and against an API of DIA whose answers stay the same:
  -- let one of the requests of a round be answered by a quotation whose price, not below zero, is
  -- at least 2^96 / 10^12 before the point. Take any run of steps of the updater, of workers and
  -- of calls by anybody, from a chain with no coin info whose workers post to the server, a server
  -- with an empty storage and no submitted transaction. If each permitted call of the run that
  -- updates the prices is a transaction that a worker has submitted, and no permitted call sets an
  -- endpoint that is not the server's, then in the world that is reached the server answers each
  -- request with no coin info, and on chain no currency has one.
  pub large_price_leaves_no_price :
      {w v : World A C} (request : List Currency) (b y : Bytes)
      → w.coins ≡ default_storage
      → ((k : AssetId) → C.coin_infos.get w.chain.coin_infos_map k ≡ none)
      → w.pool ≡ []
      → server (posts_to w.chain) ≡ true
      → (r : Reach A C J server supported rate w v) → Trusted A C J server supported rate r
      → (currencies_post request v.coins ≡ [])
        × (get_coin_info C b y v.chain ≡ err (module_error no_coin_info_available))
  large_price_leaves_no_price {w} {v} request b y fresh empty unsent routed r trusted =
      let reached =
        Reach-Carries A C CL J L server unreadable supported rate Nothing (λ st. Unit) round-Keeps r
          trusted
          (fresh-Carries A C CL J L server unreadable supported rate Nothing (λ st. Unit) w fresh
            empty unsent routed tt) in
      (
        All-Nothing (currencies_post request v.coins)
            (found-All Nothing v.coins request reached.coins),
        elim (Option-cases (C.coin_infos.get v.chain.coin_infos_map (new_asset_id b y))) [
          | inl missing ↦ ground (arith, get_coin_info_exact C CL b y v.chain)
          | inr (c, found) ↦
              let (named, (d, impossible, e)) = reached.chain (new_asset_id b y) c found in
              absurd impossible
        ],
      )
