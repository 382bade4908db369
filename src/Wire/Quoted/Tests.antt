-- ===== src/Wire/Quoted/Tests.antt =====
-- One round of the mock of DIA's API, one run of a worker, and the price on chain.
use oracle_pallet.Prelude.{
  nat_eq, bytes_eq, false, ◌≡◌, refl, some, [], ◌∷◌, nat_eq, arith, bytes_eq,
}
use oracle_pallet.Result.{ok}
use oracle_pallet.Text.{codes, is_utf8, concat, encode_utf8}
use oracle_pallet.Dict.{get, collect_into, insert}
use oracle_pallet.Dict.Lawful.{iter_keys}
use oracle_pallet.Pallet.Types.{Bytes, AssetId, new_asset_id, asset_id_eq, Call}
use oracle_pallet.Pallet.Config.{Storage}
use oracle_pallet.Pallet.Calls.{dispatch}
use oracle_pallet.Pallet.Oracle.{get_value}
use oracle_pallet.Pallet.Mock.{mock, mock-IsLawful, signed, new_test_ext}
use oracle_pallet.Pallet.Worker.{Offchain, Action, HttpRequest, price_request, keyed, update_prices}
use oracle_pallet.Pallet.Worker.Request.{request_items, request_body}
use oracle_pallet.Server.Types.{CoinInfo}
use oracle_pallet.Server.Storage.{
  CoinInfoStorage, default_storage, replace_currencies_by_symbols, key_eq,
}
use oracle_pallet.Wire.{
  from_slice, answer, traverse, deserialize_coin_info, serialize_coin_info, deserialize_currency,
  is_plain,
}
use oracle_pallet.Wire.Answer.{stored}
use oracle_pallet.Wire.Mock.{small_json, small_json-IsLawful, write_objects, from_objects, extract}
use oracle_pallet.Wire.Served.{IsConnected}
use oracle_pallet.Wire.Quoted.{quoted_prices_on_chain}
use oracle_pallet.Server.Decimal.Fixed.{mul, limit}
use oracle_pallet.Server.Convert.{convert_decimal_to_u128, convert_to_coin_info}
use oracle_pallet.Server.Updater
use oracle_pallet.Server.Updater.{is_wanted, is_special, dummy}
use oracle_pallet.Server.Updater.Rounds.{requests, panics}
use oracle_pallet.Server.Dia.{get_default_fiat_usd_quotation}
use oracle_pallet.Server.Mock
use oracle_pallet.Server.Mock.{mock_assets, mock_quote, mock_dia, mock_dia-IsSteady}
use oracle_pallet.Server.Types.{asset_specifier_eq}

-- The updater stores the quotation of Bitcoin, whose price is 1.
abbrev pub round_coins : CoinInfoStorage
round_coins = (Updater.update_prices mock_dia default_storage (some (Mock.btc ∷ [])) 1000 0).coins

pub calm : panics mock_quote (requests (ok mock_assets) (some (Mock.btc ∷ []))) ≡ false
unfolding get insert convert_to_coin_info convert_decimal_to_u128 mul limit is_wanted is_special
    asset_specifier_eq bytes_eq nat_eq get_default_fiat_usd_quotation dummy
calm = refl

-- The worker of a chain that asks this server. Account 1 signs.
abbrev pub asking : Offchain mock
asking = record {
  PendingRequest = HttpRequest;
  Response = Bytes;
  send = λ r. some r;
  wait = λ p. some (answer small_json round_coins (concat p.chunks));
  body = λ r. r;
  from_slice = from_slice small_json;
  send_signed = λ f. some (1, some tt);
}

pub asking-IsConnected : IsConnected mock asking small_json round_coins
asking-IsConnected = record { reads = λ body. refl; answers = λ req p r sent received. cc }

abbrev pub btc : AssetId
btc = new_asset_id (codes "Bitcoin") (codes "BTC")

abbrev pub listening : Storage mock
listening = record new_test_ext { supported_currencies = (btc, tt) ∷ [] }

abbrev pub quoted_btc : CoinInfo
quoted_btc = record {
  symbol = codes "BTC";
  name = codes "BTC";
  blockchain = codes "Bitcoin";
  supply = 123456789012;
  last_update_timestamp = 0;
  price = 1000000000000;
}

abbrev pub quoted_call : Call mock.AccountId
quoted_call = Call.set_updated_coin_infos (keyed (stored quoted_btc ∷ []))

pub submitted_quotation :
    (update_prices mock asking listening []).1
    ≡ Action.posted
        (price_request (codes "http://0.0.0.0:8070/currencies/") (request_items (btc ∷ [])))
      ∷ Action.submitted 1 quoted_call
      ∷ []
unfolding update_prices is_utf8 iter_keys asset_id_eq request_items answer from_slice extract
    from_objects write_objects price_request request_body concat encode_utf8 key_eq get
    replace_currencies_by_symbols traverse deserialize_coin_info serialize_coin_info
    deserialize_currency keyed collect_into insert is_plain Updater.update_prices
    convert_to_coin_info convert_decimal_to_u128 mul limit is_wanted is_special asset_specifier_eq
    bytes_eq nat_eq get_default_fiat_usd_quotation dummy Updater.quote
submitted_quotation = refl

quoted_prices_on_chain_example :
    get_value mock
      (codes "Bitcoin")
      (codes "BTC")
      (dispatch mock quoted_call (signed 1) new_test_ext).1
    ≡ ok (record { value = 1000000000000 })
unfolding iter_keys asset_id_eq request_items request_body concat get nat_eq bytes_eq encode_utf8
    insert convert_to_coin_info convert_decimal_to_u128 mul limit is_wanted is_special
    asset_specifier_eq get_default_fiat_usd_quotation dummy
quoted_prices_on_chain_example =
    quoted_prices_on_chain mock_dia mock_dia-IsSteady default_storage (some (Mock.btc ∷ [])) 1000 0
      calm mock asking small_json small_json-IsLawful asking-IsConnected listening btc [] refl
      (omega arith) (omega arith) (omega arith) (omega arith) mock-IsLawful new_test_ext (signed 1)
      (codes "Bitcoin") (codes "BTC") submitted_quotation refl refl
