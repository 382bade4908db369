-- ===== src/Server/Updater/Served.antt =====
-- From the quotations of a round to the answers of the HTTP handler.
use oracle_pallet.Prelude.{ℕ, ◌≡◌, false, Option, List}
use oracle_pallet.Server.Types.{AssetSpecifier, Crates, Currency}
use oracle_pallet.Server.Storage.{CoinInfoStorage, filter_map}
use oracle_pallet.Server.Storage.Answers.{last_info, get_currencies-replace}
use oracle_pallet.Server.Handlers.{currencies_post}
use oracle_pallet.Server.Updater.{DiaApi, update_prices}
use oracle_pallet.Server.Updater.Rounds.{requests, panics, successes, IsSteady, update_prices_exact}

module _ {X : Crates} (A : DiaApi X) (T : IsSteady A) where
  -- Against an API whose answers stay the same, after a round in which no request panics, the
  -- handler answers each currency that is asked for with the last quotation of the round that
  -- names it, converted, and leaves out the others, whatever was stored before.
  pub round_served :
      (coins : CoinInfoStorage) (m : Option (List AssetSpecifier)) (rate : ℕ) (st : A.State)
      (request : List Currency)
      → panics T.answer (requests T.listing m) ≡ false
      → currencies_post request (update_prices A coins m rate st).coins
        ≡ filter_map
            (λ r. last_info (successes T.answer (requests T.listing m)) r.blockchain r.symbol)
            request
  unfolding currencies_post
  round_served coins m rate st request calm =
      rw (update_prices_exact A T coins m rate st).1
        (rw calm (get_currencies-replace coins (successes T.answer (requests T.listing m)) request))
