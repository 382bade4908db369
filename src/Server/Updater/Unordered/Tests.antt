-- ===== src/Server/Updater/Unordered/Tests.antt =====
-- A round in two orders of its currencies.
use oracle_pallet.Prelude.{
  All, arith, ℕ, ◌+◌, ◌≡◌, refl, none, some, List, [], ◌∷◌, arith, bytes_eq,
}
use oracle_pallet.Prelude.Int.{pos}
use oracle_pallet.Result.{Result, ok}
use oracle_pallet.Text.{codes}
use oracle_pallet.Server.Types.{asset_specifier_eq, QuotedAsset, Quotation, BoxError, Currency}
use oracle_pallet.Server.Decimal.Fixed.{mul, limit}
use oracle_pallet.Server.Convert.{convert_to_coin_info, convert_decimal_to_u128}
use oracle_pallet.Server.Storage.{default_storage}
use oracle_pallet.Server.Handlers.{currencies_post}
use oracle_pallet.Text.{join}
use oracle_pallet.Server.Args.{parse_currency_vec, is_whitespace}
use oracle_pallet.Server.Main.Entries.{Entry, IsEntry}
use oracle_pallet.Server.Main.Tests.{mxn-IsClean}
use oracle_pallet.Server.Main.{supported_currencies}
use oracle_pallet.Server.Main.Sets.{listed_set, answers, main_answers}
use oracle_pallet.Server.Mock.{mock_crates, dec, btc, mxn, mock_assets}
use oracle_pallet.Server.Updater.{DiaApi, dummy, update_prices}
use oracle_pallet.Server.Updater.Rounds.{IsSteady}
use oracle_pallet.Server.Updater.Unordered.{round_unordered}
use oracle_pallet.Server.Updater.Unordered.Special.{SameElements, NamesItself}

-- The price of everything is 2, under the name that is asked for.
abbrev echo : QuotedAsset mock_crates → Result BoxError (Quotation mock_crates)
echo q = ok (record {
  symbol = q.asset.symbol;
  name = q.asset.name;
  address = none;
  blockchain = some q.asset.blockchain;
  price = dec 2 28;
  price_yesterday = dec 2 28;
  volume_yesterday = dec 0 28;
  time = pos 0;
  source = [];
})

abbrev echo_dia : DiaApi mock_crates
echo_dia = record {
  State = ℕ;
  get_quotable_assets = λ st. (ok mock_assets, st);
  get_quotation = λ q st. (echo q, st);
  now = λ st. st;
  delay_for = λ wait st. st + wait;
}

abbrev echo_dia-IsSteady : IsSteady echo_dia
echo_dia-IsSteady = record {
  listing = ok mock_assets;
  answer = echo;
  lists = λ st. refl;
  answers = λ q st. refl;
}

echo-NamesItself : NamesItself echo
unfolding convert_to_coin_info convert_decimal_to_u128 mul limit dummy
echo-NamesItself a c special named = ground arith

twice : SameElements (btc ∷ mxn ∷ []) (mxn ∷ btc ∷ mxn ∷ [])
twice a = ground arith

abbrev request : List Currency
request = record { blockchain = codes "FIAT"; symbol = codes "MXN-USD" } ∷ []

round_unordered_example :
    currencies_post request
      (update_prices echo_dia default_storage (some (btc ∷ mxn ∷ [])) 100 0).coins
    ≡ currencies_post request
        (update_prices echo_dia default_storage (some (mxn ∷ btc ∷ mxn ∷ [])) 100 0).coins
round_unordered_example =
    round_unordered echo_dia echo_dia-IsSteady default_storage 100 0 request (btc ∷ mxn ∷ [])
      (mxn ∷ btc ∷ mxn ∷ []) echo-NamesItself twice

-- ` FIAT:MXN-USD,nothing,FIAT:MXN-USD`
abbrev written_twice : List Entry
written_twice = Entry.other (codes "nothing") ∷ Entry.asset [] mxn [] ∷ []

written_twice-IsEntry : All IsEntry (Entry.asset (codes " ") mxn [] ∷ written_twice)
unfolding is_whitespace
written_twice-IsEntry =
    (((refl, tt), mxn-IsClean, tt), ((omega arith, omega arith), ((tt, mxn-IsClean, tt), tt)))

main_answers_example :
    currencies_post request
      (update_prices echo_dia default_storage
        (supported_currencies (parse_currency_vec (codes " FIAT:MXN-USD,nothing,FIAT:MXN-USD")))
        100
        0).coins
    ≡ answers echo_dia echo_dia-IsSteady echo-NamesItself default_storage 100 0 request
        (listed_set (Entry.asset (codes " ") mxn [] ∷ written_twice))
unfolding join
main_answers_example =
    main_answers echo_dia echo_dia-IsSteady echo-NamesItself default_storage 100 0 request
      (Entry.asset (codes " ") mxn []) written_twice written_twice-IsEntry
