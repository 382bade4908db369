-- ===== src/Wire/Tests.antt =====
-- The worker connected to a server that stores two prices, and the theorems of a run at this data.
use oracle_pallet.Prelude.{◌≡◌, refl, some, List, [], ◌∷◌, nat_eq, arith, bytes_eq}
use oracle_pallet.Result.{ok, err}
use oracle_pallet.Text.{codes, is_utf8, concat, encode_utf8}
use oracle_pallet.Dict.{get, collect_into, insert}
use oracle_pallet.Dict.Lawful.{iter_keys}
use oracle_pallet.Pallet.Types.{Bytes, AssetId, new_asset_id, asset_id_eq, Call, deserialize_error}
use oracle_pallet.Pallet.Config.{Storage}
use oracle_pallet.Pallet.Calls.{dispatch}
use oracle_pallet.Pallet.Oracle.{get_value}
use oracle_pallet.Pallet.Mock.{mock, mock-IsLawful, signed, new_test_ext}
use oracle_pallet.Pallet.Worker.{
  Offchain, Action, HttpRequest, price_request, keyed, endpoint, update_prices,
}
use oracle_pallet.Pallet.Worker.Request.{request_items, request_body}
use oracle_pallet.Pallet.Worker.Outcome.{request}
use oracle_pallet.Server.Types.{CoinInfo}
use oracle_pallet.Server.Storage.{
  CoinInfoStorage, default_storage, replace_currencies_by_symbols, key_eq,
}
use oracle_pallet.Wire.{
  from_slice, answer, traverse, deserialize_coin_info, serialize_coin_info, deserialize_currency,
  is_plain,
}
use oracle_pallet.Wire.Answer.{stored, has_plain_texts}
use oracle_pallet.Wire.Mock.{small_json, small_json-IsLawful, write_objects, from_objects, extract}
use oracle_pallet.Wire.Served.{IsConnected, served_prices_on_chain, escaped_text_blocks_update}

abbrev btc : AssetId
btc = new_asset_id (codes "Bitcoin") (codes "BTC")

abbrev eth : AssetId
eth = new_asset_id (codes "Ethereum") (codes "ETH")

abbrev btc_info : CoinInfo
btc_info = record {
  symbol = codes "BTC";
  name = codes "Bitcoin";
  blockchain = codes "Bitcoin";
  supply = 3;
  last_update_timestamp = 4;
  price = 16826;
}

-- A name with quotes.
abbrev eth_info : CoinInfo
eth_info = record {
  symbol = codes "ETH";
  name = codes "the \"Ether\"";
  blockchain = codes "Ethereum";
  supply = 3;
  last_update_timestamp = 4;
  price = 1200;
}

abbrev storage_of : List CoinInfo → CoinInfoStorage
storage_of = replace_currencies_by_symbols default_storage

-- The worker of a chain whose server stores these infos. Account 1 signs.
abbrev connected : List CoinInfo → Offchain mock
connected cs = record {
  PendingRequest = HttpRequest;
  Response = Bytes;
  send = λ r. some r;
  wait = λ p. some (answer small_json (storage_of cs) (concat p.chunks));
  body = λ r. r;
  from_slice = from_slice small_json;
  send_signed = λ f. some (1, some tt);
}

connected-IsConnected :
    (cs : List CoinInfo) → IsConnected mock (connected cs) small_json (storage_of cs)
connected-IsConnected cs = record { reads = λ body. refl; answers = λ req p r sent received. cc }

abbrev listening : Storage mock
listening = record new_test_ext { supported_currencies = (btc, tt) ∷ (eth, tt) ∷ [] }

abbrev update_call : Call mock.AccountId
update_call = Call.set_updated_coin_infos (keyed (stored btc_info ∷ []))

delivered :
    (update_prices mock (connected (btc_info ∷ [])) listening []).1
    ≡ Action.posted
        (price_request (codes "http://0.0.0.0:8070/currencies/") (request_items (btc ∷ eth ∷ [])))
      ∷ Action.submitted 1 update_call
      ∷ []
unfolding update_prices is_utf8 iter_keys asset_id_eq request_items answer from_slice extract
    from_objects write_objects price_request request_body concat encode_utf8 key_eq get
    replace_currencies_by_symbols traverse deserialize_coin_info serialize_coin_info
    deserialize_currency keyed collect_into insert is_plain
delivered = refl

served_prices_on_chain_example :
    get_value mock
      (codes "Bitcoin")
      (codes "BTC")
      (dispatch mock update_call (signed 1) new_test_ext).1
    ≡ ok (record { value = 16826 })
unfolding iter_keys asset_id_eq request_items request_body concat get nat_eq bytes_eq encode_utf8
served_prices_on_chain_example =
    served_prices_on_chain mock (connected (btc_info ∷ [])) small_json small_json-IsLawful
      default_storage (btc_info ∷ []) (connected-IsConnected (btc_info ∷ [])) listening btc
      (eth ∷ []) refl (omega arith) (omega arith) (omega arith) (omega arith) mock-IsLawful
      new_test_ext (signed 1) (codes "Bitcoin") (codes "BTC") delivered refl refl

escaped_text_blocks_update_example :
    update_prices mock (connected (btc_info ∷ eth_info ∷ [])) listening [] ≡ (
      err deserialize_error,
      Action.posted (request mock (connected (btc_info ∷ eth_info ∷ [])) listening) ∷ [],
    )
unfolding iter_keys asset_id_eq request_items request_body concat get nat_eq bytes_eq is_plain
    is_utf8 has_plain_texts endpoint
escaped_text_blocks_update_example =
    escaped_text_blocks_update mock (connected (btc_info ∷ eth_info ∷ [])) small_json
      small_json-IsLawful default_storage (btc_info ∷ eth_info ∷ [])
      (connected-IsConnected (btc_info ∷ eth_info ∷ [])) listening btc (eth ∷ []) refl (omega arith)
      (omega arith) (omega arith) (omega arith) (codes "Ethereum") (codes "ETH") eth_info _ _ refl
      refl refl refl refl refl
