-- ===== src/Server/Main/Tests.antt =====
-- The supported currencies of concrete command lines.
use oracle_pallet.Prelude.{◌≡◌, refl, some, List, [], ◌∷◌, map, arith, bytes_eq, nat_eq}
use oracle_pallet.Result.{ok, err}
use oracle_pallet.Text.{codes, join}
use oracle_pallet.Server.Types.{Text, outside, AssetSpecifier, asset_specifier_eq}
use oracle_pallet.Server.Storage.{key_eq, filter_map}
use oracle_pallet.Server.Updater.{contains}
use oracle_pallet.Server.Args.{
  default_args, parse_currency_vec, split, split_once, is_whitespace, trim, trim_start, trim_end,
}
use oracle_pallet.Server.Main.{
  HttpServer, main, update_loop, parse_asset, collect_set, supported_currencies,
}
use oracle_pallet.Server.Main.Supported.{render, IsClean, supported_round_trip}
use oracle_pallet.Server.Mock.{mxn, usd}

default_argument :
    supported_currencies
      (parse_currency_vec (codes "Polkadot:DOT, FIAT:USD-USD,nothing,Polkadot:DOT"))
    ≡ some (record { blockchain = codes "Polkadot"; symbol = codes "DOT" } ∷ usd ∷ [])
unfolding supported_currencies parse_currency_vec split parse_asset split_once trim_start trim_end
    is_whitespace collect_set filter_map asset_specifier_eq nat_eq trim
default_argument = refl

pub mxn-IsClean : IsClean mxn
unfolding trim_start trim_end is_whitespace nat_eq
mxn-IsClean = record {
  blockchain_commas = (omega arith, (omega arith, (omega arith, (omega arith, tt))));
  blockchain_colons = (omega arith, (omega arith, (omega arith, (omega arith, tt))));
  symbol_commas = (
    omega arith,
    (omega arith, (omega arith, (omega arith, (omega arith, (omega arith, (omega arith, tt)))))),
  );
  start = refl;
  finish = refl;
}

supported_round_trip_example :
    (set : List AssetSpecifier) × (supported_currencies
        (parse_currency_vec (join b',' (map render (mxn ∷ mxn ∷ []))))
      ≡ some set)
    × (contains set usd ≡ contains (mxn ∷ mxn ∷ []) usd)
supported_round_trip_example =
    supported_round_trip mxn (mxn ∷ []) usd (mxn-IsClean, (mxn-IsClean, tt))

abbrev asset : Text → Text → AssetSpecifier
asset b y = record { blockchain = b; symbol = y }

-- The address is taken.
abbrev refusing : HttpServer
refusing = record {
  Bound = Unit;
  bind = λ address. err (outside (codes "address in use"));
  run = λ bound. ok tt;
}

default_main : main refusing default_args [] ≡ (
  err (outside (codes "address in use")),
  update_loop
        (some (
          asset (codes "Polkadot") (codes "DOT")
          ∷ asset (codes "Kusama") (codes "KSM")
          ∷ asset (codes "Stellar") (codes "XLM")
          ∷ asset (codes "FIAT") (codes "USD-USD")
          ∷ asset (codes "FIAT") (codes "MXN-USD")
          ∷ asset (codes "FIAT") (codes "BRL-USD")
          ∷ asset (codes "Amplitude") (codes "AMPE")
          ∷ []))
        100
        60000
      ∷ [],
)
unfolding main supported_currencies parse_currency_vec split parse_asset split_once trim_start
    trim_end is_whitespace collect_set filter_map asset_specifier_eq nat_eq trim
default_main = refl
