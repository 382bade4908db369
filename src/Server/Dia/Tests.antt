-- ===== src/Server/Dia/Tests.antt =====
-- The special quotations at concrete inputs: a web that answers every query with the price 1/4.
use oracle_pallet.Prelude.{
  ℕ, ◌-◌, ◌*◌, ◌^◌, ◌≡◌, refl, false, ◌&&◌, some, [], ◌∷◌, map, arith, leb, if◌then◌else◌,
}
use oracle_pallet.Prelude.Int.{pos}
use oracle_pallet.Result.{ok, err}
use oracle_pallet.Text.{codes}
use oracle_pallet.Server.Decimal.Fixed.{mul, limit, fixed-IsLawful}
use oracle_pallet.Server.Convert.{convert_to_coin_info, convert_decimal_to_u128}
use oracle_pallet.Server.Types.{Text, outside}
use oracle_pallet.Server.Updater.{quote, dummy}
use oracle_pallet.Server.Dia.{Web, dia, default_quotation}
use oracle_pallet.Server.Dia.Special.{ampe_info, quote_ampe}
use oracle_pallet.Server.Mock.{mock_crates}

abbrev upper : Text → Text
upper = map (λ c. if leb 97 c && leb c 122 then c - 32 else c)

-- Its state is the time, and a request takes no time.
abbrev mock_web : Web mock_crates
mock_web = record {
  State = ℕ;
  Response = Unit {0};
  get = λ url st. (err (outside url), st);
  post = λ url st. (ok tt, st);
  quotation = λ r. err (outside []);
  quoted_assets = λ r. ok [];
  eth_price = λ r. ok (some (false, 25 * 10 ^ 26));
  utc_now = λ st. pos st;
  now = λ st. st;
  delay_for = λ wait st. st;
  to_uppercase = upper;
}

quote_ampe_example :
    quote
      (dia mock_web)
      (dummy (record { blockchain = codes "Amplitude"; symbol = codes "AMPE" }))
      []
      5
    ≡ (some (ampe_info mock_crates (pos 5) 250_000_000_000 ∷ []), 5)
unfolding dummy
quote_ampe_example =
    quote_ampe fixed-IsLawful mock_web
      (dummy (record { blockchain = codes "Amplitude"; symbol = codes "AMPE" })) [] 5 tt
      (false, 25 * 10 ^ 26) refl refl refl refl refl (omega arith)

-- A quotation that names nothing is one of a FIAT currency, and is worth nothing.
default_converted :
    convert_to_coin_info mock_crates (default_quotation mock_crates (pos 0))
    ≡ some (
        ok (record {
          symbol = [];
          name = [];
          blockchain = codes "FIAT";
          supply = 0;
          last_update_timestamp = 0;
          price = 0;
        }))
unfolding convert_to_coin_info convert_decimal_to_u128 default_quotation mul limit
default_converted = refl
