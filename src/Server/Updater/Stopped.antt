-- ===== src/Server/Updater/Stopped.antt =====
-- One price that is too large for the product by 10^12 ends the updates for good.
use oracle_pallet.Prelude.{
  ℕ, suc, ◌*◌, ◌/◌, ◌^◌, ◌≤◌, ◌≡◌, false, true, none, Option, List, [], ◌∷◌, ◌++◌, arith,
}
use oracle_pallet.Result.{ok}
use oracle_pallet.Server.Decimal.{one, IsLawfulDecimal}
use oracle_pallet.Server.Types.{AssetSpecifier, Crates, QuotedAsset, Quotation}
use oracle_pallet.Server.Convert.{price_scale, convert_to_coin_info}
use oracle_pallet.Server.Convert.Exact.{convert_panics}
use oracle_pallet.Server.Storage.{CoinInfoStorage}
use oracle_pallet.Server.Updater.{DiaApi, update_prices, run_update_prices_loop}
use oracle_pallet.Server.Updater.Rounds.{requests, converted, panics, IsSteady, update_prices_exact}

module _ {X : Crates} (L : IsLawfulDecimal X.decimal) where
  convert_to_coin_info_panics :
      (v : Quotation X)
      → X.decimal.is_negative v.price ≡ false
      → 2 ^ 96 ≤ X.decimal.units v.price / one * price_scale
      → convert_to_coin_info X v ≡ none
  unfolding convert_to_coin_info
  convert_to_coin_info_panics v nonneg large = rw (convert_panics X.decimal L v.price nonneg large)

module _ {X : Crates} (A : DiaApi X) (T : IsSteady A) where
  panics-append :
      (qs rs : List (QuotedAsset X)) (q : QuotedAsset X)
      → converted T.answer q ≡ none
      → panics T.answer (qs ++ (q ∷ rs)) ≡ true
  panics-append [] rs q h = ground arith
  panics-append (p ∷ qs) rs q h = ground (arith, panics-append qs rs q h)

module _ {X : Crates} (L : IsLawfulDecimal X.decimal) (A : DiaApi X) (T : IsSteady A) where
  pub large_price_stops_round :
      (coins : CoinInfoStorage) (m : Option (List AssetSpecifier)) (rate : ℕ) (st : A.State)
      (qs rs : List (QuotedAsset X)) (q : QuotedAsset X) (v : Quotation X)
      → requests T.listing m ≡ qs ++ (q ∷ rs)
      → T.answer q ≡ ok v
      → X.decimal.is_negative v.price ≡ false
      → 2 ^ 96 ≤ X.decimal.units v.price / one * price_scale
      → let r = update_prices A coins m rate st in (r.finished ≡ false) × (r.coins ≡ coins)
  large_price_stops_round coins m rate st qs rs q v asked answered nonneg large =
      let panic : converted T.answer q ≡ none =
        rw answered (convert_to_coin_info_panics L v nonneg large) in
      let stuck : panics T.answer (requests T.listing m) ≡ true =
        rw asked (panics-append A T qs rs q panic) in
      let exact = update_prices_exact A T coins m rate st in
      (ground (arith, exact.0), ground (arith, exact.0, exact.1))

  -- Over decimals with the documented laws, and against an API whose answers stay the same: if
  -- one of the requests of a round is answered by a quotation whose price, not below zero, is at
  -- least 2^96 / 10^12 before the point, then the updating task ends in its first round, and the
  -- storage keeps what it held, for any number of rounds.
  pub large_price_stops_updates :
      (coins : CoinInfoStorage) (m : Option (List AssetSpecifier)) (rate duration : ℕ)
      (st : A.State) (rounds : ℕ) (qs rs : List (QuotedAsset X)) (q : QuotedAsset X)
      (v : Quotation X)
      → requests T.listing m ≡ qs ++ (q ∷ rs)
      → T.answer q ≡ ok v
      → X.decimal.is_negative v.price ≡ false
      → 2 ^ 96 ≤ X.decimal.units v.price / one * price_scale
      → let r = run_update_prices_loop A (suc rounds) coins m rate duration st in
        (r.finished ≡ false) × (r.coins ≡ coins)
  unfolding run_update_prices_loop
  large_price_stops_updates coins m rate duration st rounds qs rs q v asked answered nonneg large =
      let round = large_price_stops_round coins m rate st qs rs q v asked answered nonneg large in
      (ground (arith, round.0), ground (arith, round.0, round.1))
