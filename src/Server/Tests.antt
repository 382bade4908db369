-- ===== src/Server/Tests.antt =====
-- The tests of dia-batching-server/src on the model, and the theorems at concrete inputs.
use oracle_pallet.Prelude.{
  ℕ, ◌+◌, ◌^◌, ◌≡◌, refl, false, not, Option, none, some, List, [], ◌∷◌, map, arith, length,
  if◌then◌else◌, bytes_eq, nat_eq,
}
use oracle_pallet.Prelude.Int.{pos}
use oracle_pallet.Result.{ok}
use oracle_pallet.Text.{codes}
use oracle_pallet.Dict.{get, insert, collect_into}
use oracle_pallet.Server.Decimal.Fixed.{mul, limit, fixed-IsLawful}
use oracle_pallet.Server.Types.{AssetSpecifier, asset_specifier_eq, CoinInfo, Currency, Quotation}
use oracle_pallet.Server.Convert.{convert_decimal_to_u128, convert_to_coin_info}
use oracle_pallet.Server.Storage.{
  key_eq, CoinInfoStorage, default_storage, filter_map, get_currencies_by_blockchains_and_symbols,
  replace_currencies_by_symbols,
}
use oracle_pallet.Server.Storage.Answers.{get_currencies-replace}
use oracle_pallet.Server.Handlers.{currencies_post}
use oracle_pallet.Server.Updater.{
  DiaApi, is_wanted, is_special, push, quote, quote_wanted, quote_special, update_prices,
  run_update_prices_loop, dummy,
}
use oracle_pallet.Server.Updater.Rounds.{requests, panics, successes, IsSteady, update_prices_exact}
use oracle_pallet.Server.Updater.Stopped.{large_price_stops_updates}
use oracle_pallet.Server.Dia.{get_default_fiat_usd_quotation}
use oracle_pallet.Server.Mock.{
  mock_crates, btc, eth, usdc, usdt, mxn, mock_assets, mock_quote, mock_dia, mock_dia-IsSteady, dec,
}

abbrev ask : AssetSpecifier → Currency
ask a = record { blockchain = a.blockchain; symbol = a.symbol }

abbrev price_and_supply : CoinInfo → ℕ × ℕ
price_and_supply c = (c.price, c.supply)

abbrev after : Option (List AssetSpecifier) → CoinInfoStorage
after supported = (update_prices mock_dia default_storage supported 1000 0).coins

abbrev answer : Option (List AssetSpecifier) → List AssetSpecifier → List CoinInfo
answer supported assets = currencies_post (map ask assets) (after supported)

abbrev cash : AssetSpecifier
cash = record { blockchain = codes "Bitcoin"; symbol = codes "BTCCash" }

test_convert_result :
    map price_and_supply (answer none (btc ∷ usdc ∷ usdt ∷ []))
    ≡ (1000000000000, 123456789012)
      ∷ (123456789123456789012, 298134760000000000000)
      ∷ (1000000000001, 1)
      ∷ []
unfolding update_prices quote_wanted quote is_wanted push convert_to_coin_info
    convert_decimal_to_u128 mul limit replace_currencies_by_symbols collect_into insert get key_eq
    asset_specifier_eq bytes_eq nat_eq currencies_post get_default_fiat_usd_quotation
test_convert_result = refl

test_fiat_and_crypto_asset :
    map price_and_supply (answer (some (btc ∷ mxn ∷ [])) (btc ∷ mxn ∷ []))
    ≡ (1000000000000, 123456789012) ∷ (53712327000, 0) ∷ []
unfolding update_prices quote_wanted quote_special is_special quote is_wanted push
    convert_to_coin_info convert_decimal_to_u128 mul limit replace_currencies_by_symbols
    collect_into insert get key_eq asset_specifier_eq bytes_eq nat_eq currencies_post
    get_default_fiat_usd_quotation dummy
test_fiat_and_crypto_asset = refl

test_one_available : length (answer none (btc ∷ cash ∷ [])) ≡ 1
unfolding update_prices quote_wanted quote is_wanted push convert_to_coin_info
    convert_decimal_to_u128 mul limit replace_currencies_by_symbols collect_into insert get key_eq
    asset_specifier_eq bytes_eq nat_eq currencies_post get_default_fiat_usd_quotation
test_one_available = refl

abbrev info : AssetSpecifier → ℕ → CoinInfo
info a price = record {
  symbol = a.symbol;
  name = a.symbol;
  blockchain = a.blockchain;
  supply = 0;
  last_update_timestamp = 0;
  price = price;
}

abbrev two_prices : List CoinInfo
two_prices = info btc 1 ∷ info eth 2 ∷ info btc 3 ∷ []

get_currencies-replace_example :
    get_currencies_by_blockchains_and_symbols
      (replace_currencies_by_symbols default_storage two_prices)
      (ask btc ∷ ask cash ∷ [])
    ≡ info btc 3 ∷ []
unfolding filter_map bytes_eq
get_currencies-replace_example =
    get_currencies-replace default_storage two_prices (ask btc ∷ ask cash ∷ [])

update_prices_exact_example :
    let asked = requests (ok mock_assets) (some (btc ∷ mxn ∷ [])) in
    let r = update_prices mock_dia default_storage (some (btc ∷ mxn ∷ [])) 1000 0 in
    (r.finished ≡ not (panics mock_quote asked))
    × (r.coins ≡ (
        if panics mock_quote asked
        then default_storage
        else replace_currencies_by_symbols default_storage (successes mock_quote asked)))
update_prices_exact_example =
    update_prices_exact mock_dia mock_dia-IsSteady default_storage (some (btc ∷ mxn ∷ [])) 1000 0

-- A price of 10^17, for every asset.
abbrev pub large : Quotation mock_crates
large = record {
  symbol = mxn.symbol;
  name = codes "MXNUSD=X";
  address = none;
  blockchain = none;
  price = dec (10 ^ 17) 28;
  price_yesterday = dec 0 28;
  volume_yesterday = dec 0 28;
  time = pos 0;
  source = codes "YahooFinance";
}

abbrev pub large_dia : DiaApi mock_crates
large_dia = record {
  State = ℕ;
  get_quotable_assets = λ st. (ok [], st);
  get_quotation = λ q st. (ok large, st);
  now = λ st. st;
  delay_for = λ wait st. st + wait;
}

abbrev pub large_dia-IsSteady : IsSteady large_dia
large_dia-IsSteady = record {
  listing = ok [];
  answer = λ q. ok large;
  lists = λ st. refl;
  answers = λ q st. refl;
}

pub large_requests : requests {X = mock_crates} (ok []) (some (mxn ∷ [])) ≡ dummy mxn ∷ []
unfolding is_special bytes_eq
large_requests = refl

large_price_stops_updates_example :
    let r = run_update_prices_loop large_dia 5 default_storage (some (mxn ∷ [])) 1000 60000 0 in
    (r.finished ≡ false) × (r.coins ≡ default_storage)
large_price_stops_updates_example =
    large_price_stops_updates fixed-IsLawful large_dia large_dia-IsSteady default_storage
      (some (mxn ∷ [])) 1000 60000 0 4 [] [] (dummy mxn) large large_requests refl refl
      (omega arith)
