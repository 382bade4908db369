-- ===== src/Server/Updater/Clock/Tests.antt =====
-- Rounds of the mock of DIA's API, with its clock. Only delays take time there.
use oracle_pallet.Prelude.{◌≤◌, ◌≡◌, refl, true, some, List, [], ◌∷◌, arith, nat_eq, bytes_eq}
use oracle_pallet.Dict.{get, insert}
use oracle_pallet.Server.Types.{AssetSpecifier, asset_specifier_eq}
use oracle_pallet.Server.Decimal.Fixed.{mul, limit}
use oracle_pallet.Server.Dia.{get_default_fiat_usd_quotation}
use oracle_pallet.Server.Convert.{convert_decimal_to_u128, convert_to_coin_info}
use oracle_pallet.Server.Storage.{default_storage}
use oracle_pallet.Server.Updater.{
  is_wanted, is_special, dummy, quote, update_prices, run_update_prices_loop,
}
use oracle_pallet.Server.Updater.Pace.{update_prices-plays}
use oracle_pallet.Server.Updater.Clock.{IsClocked, loop_takes}
use oracle_pallet.Server.Mock.{btc, eth, mxn, mock_dia, mock_dia-IsSteady}

mock_dia-IsClocked : IsClocked mock_dia
mock_dia-IsClocked = record {
  listing_takes = λ st. omega arith;
  quotation_takes = λ q st. omega arith;
  delay_takes = λ ms st. omega arith;
}

-- Bitcoin and Ether are listed, the peso is not.
abbrev supported : List AssetSpecifier
supported = btc ∷ eth ∷ mxn ∷ []

update_prices-plays_example :
    (update_prices mock_dia default_storage (some supported) 1000 0).state ≡ 2000
unfolding get insert convert_to_coin_info convert_decimal_to_u128 mul limit is_wanted is_special
    asset_specifier_eq bytes_eq nat_eq get_default_fiat_usd_quotation dummy
update_prices-plays_example =
    update_prices-plays mock_dia mock_dia-IsSteady default_storage (some supported) 1000 0

two_rounds :
    (run_update_prices_loop mock_dia 2 default_storage (some supported) 1000 60000 0).finished
    ≡ true
unfolding run_update_prices_loop update_prices get insert convert_to_coin_info
    convert_decimal_to_u128 mul limit is_wanted is_special asset_specifier_eq bytes_eq nat_eq
    get_default_fiat_usd_quotation dummy quote
two_rounds = refl

loop_takes_example :
    let r = run_update_prices_loop mock_dia 2 default_storage (some supported) 1000 60000 0 in
    (120000 ≤ r.state) × (4000 ≤ r.state)
unfolding is_wanted asset_specifier_eq bytes_eq nat_eq
loop_takes_example =
    loop_takes mock_dia mock_dia-IsClocked mock_dia-IsSteady (some supported) 1000 2 default_storage
      60000 0 two_rounds
