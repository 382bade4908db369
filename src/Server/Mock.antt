-- ===== src/Server/Mock.antt =====
-- `MockDia` of the tests of dia-batching-server/src/price_updater.rs. Its time is a number of
-- milliseconds, which is also its state.
use oracle_pallet.Prelude.{ℕ, ◌+◌, ◌*◌, ◌^◌, none, some, List, [], ◌∷◌, Bool, false, refl}
use oracle_pallet.Prelude.Int.{ℤ, pos}
use oracle_pallet.Result.{Result, ok, ok_or}
use oracle_pallet.Dict.{Dict, get, insert}
use oracle_pallet.Text.{codes}
use oracle_pallet.Server.Decimal.Fixed.{fixed}
use oracle_pallet.Server.Types.{
  Text, AssetSpecifier, asset_specifier_eq, Crates, QuotedAsset, Quotation, BoxError, outside,
}
use oracle_pallet.Server.Dia.{get_default_fiat_usd_quotation}
use oracle_pallet.Server.Updater.{DiaApi, specifier}
use oracle_pallet.Server.Updater.Rounds.{IsSteady}

abbrev pub mock_crates : Crates
mock_crates = record {
  decimal = fixed;
  DateTime = ℤ;
  timestamp = λ t. t;
  Float = ℕ;
  default_float = 0;
}

-- `dec!` of the digits with this number of places dropped from 28.
abbrev pub dec : ℕ → ℕ → Bool × ℕ
dec digits places = (false, digits * 10 ^ places)

abbrev zero_address : Text
zero_address = codes "0x0000000000000000000000000000000000000000"

abbrev pub btc : AssetSpecifier
btc = record { blockchain = codes "Bitcoin"; symbol = codes "BTC" }

abbrev pub eth : AssetSpecifier
eth = record { blockchain = codes "Ethereum"; symbol = codes "ETH" }

abbrev pub usdt : AssetSpecifier
usdt = record { blockchain = codes "Ethereum"; symbol = codes "USDT" }

abbrev pub usdc : AssetSpecifier
usdc = record { blockchain = codes "Ethereum"; symbol = codes "USDC" }

abbrev pub mxn : AssetSpecifier
mxn = record { blockchain = codes "FIAT"; symbol = codes "MXN-USD" }

abbrev coin : AssetSpecifier → Bool × ℕ → Bool × ℕ → Quotation mock_crates
coin a price volume = record {
  symbol = a.symbol;
  name = a.symbol;
  address = some zero_address;
  blockchain = some a.blockchain;
  price = price;
  price_yesterday = dec 1 28;
  volume_yesterday = volume;
  time = pos 0;
  source = codes "diadata.org";
}

abbrev pub mxn_quotation : Quotation mock_crates
mxn_quotation = record {
  symbol = mxn.symbol;
  name = codes "MXNUSD=X";
  address = none;
  blockchain = none;
  price = dec 53712327 19;
  price_yesterday = dec 53910317166666666 10;
  volume_yesterday = dec 0 28;
  time = pos 0;
  source = codes "YahooFinance";
}

abbrev pub usd : AssetSpecifier
usd = record { blockchain = codes "FIAT"; symbol = codes "USD-USD" }

abbrev with_ :
    AssetSpecifier
    → Quotation mock_crates
    → Dict AssetSpecifier (Quotation mock_crates)
    → Dict AssetSpecifier (Quotation mock_crates)
with_ a q d = insert d a q

abbrev pub quotation : Dict AssetSpecifier (Quotation mock_crates)
quotation = with_ usd (get_default_fiat_usd_quotation mock_crates (pos 0)) (
    with_ mxn mxn_quotation (
      with_ usdc (coin usdc (dec 123456789123456789012345 13) (dec 298134760 28)) (
        with_ usdt (coin usdt (dec 1000000000001 16) (dec 1 16)) (
          with_ eth (coin eth (dec 1 28) (dec 298134760 28))
            (with_ btc (coin btc (dec 1 28) (dec 123456789012345 13)) [])))))

abbrev pub mock_quote : QuotedAsset mock_crates → Result BoxError (Quotation mock_crates)
mock_quote q = ok_or (get quotation (specifier q)) (outside (codes "Error Finding Quotation"))

-- The volume is in millionths.
abbrev quotable : Text → Text → Text → ℕ → Text → ℕ → QuotedAsset mock_crates
quotable symbol name address decimals blockchain volume = record {
  asset = record {
    symbol = symbol;
    name = name;
    address = address;
    decimals = decimals;
    blockchain = blockchain;
  };
  volume = volume;
}

abbrev pub mock_assets : List (QuotedAsset mock_crates)
mock_assets =
    quotable btc.symbol (codes "Bitcoin") zero_address 8 btc.blockchain 3818975389095178
    ∷ quotable eth.symbol (codes "Ether") zero_address 18 eth.blockchain 791232743889491
    ∷ quotable usdt.symbol (codes "Tether USD") (codes "0xdAC17F958D2ee523a2206206994597C13D831ec7")
        6 usdt.blockchain 294107237463418
    ∷ quotable usdc.symbol (codes "USD Coin") (codes "0xA0b86991c6218b36c1d19D4a2e9Eb0cE3606eB48") 6
        usdc.blockchain 205584209531937
    ∷ []

abbrev pub mock_dia : DiaApi mock_crates
mock_dia = record {
  State = ℕ;
  get_quotable_assets = λ st. (ok mock_assets, st);
  get_quotation = λ q st. (mock_quote q, st);
  now = λ st. st;
  delay_for = λ wait st. st + wait;
}

abbrev pub mock_dia-IsSteady : IsSteady mock_dia
mock_dia-IsSteady = record {
  listing = ok mock_assets;
  answer = mock_quote;
  lists = λ st. refl;
  answers = λ q st. refl;
}
