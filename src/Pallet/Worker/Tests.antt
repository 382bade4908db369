-- ===== src/Pallet/Worker/Tests.antt =====
-- The worker against a server that answers with one price, and its theorems at concrete data.
use oracle_pallet.Prelude.{◌≡◌, refl, true, some, none, List, [], ◌∷◌, nat_eq, arith}
use oracle_pallet.Result.{is_ok}
use oracle_pallet.Text.{codes, is_utf8}
use oracle_pallet.Dict.{get}
use oracle_pallet.Dict.Lawful.{iter_keys}
use oracle_pallet.Pallet.Types.{CoinInfo, AssetId, new_asset_id, asset_id_eq, Call}
use oracle_pallet.Pallet.Config.{Storage}
use oracle_pallet.Pallet.Calls.History.{Extrinsic, run}
use oracle_pallet.Pallet.Mock.{mock, mock-IsLawful, signed, new_test_ext}
use oracle_pallet.Pallet.Worker.{Offchain, Action, price_request, keyed, update_prices}
use oracle_pallet.Pallet.Worker.Request.{request_items, request_body}
use oracle_pallet.Pallet.Worker.Json.{decode, decode-request_body, request_body_collides}
use oracle_pallet.Pallet.Worker.Outcome.{request, Answers, update_prices_delivers}
use oracle_pallet.Pallet.Worker.Delivery.{keyed-IsOwn, StoresOwn, run-StoresOwn}

abbrev btc : AssetId
btc = new_asset_id (codes "Bitcoin") (codes "BTC")

abbrev eth : AssetId
eth = new_asset_id (codes "Ethereum") (codes "ETH")

abbrev btc_info : CoinInfo
btc_info = record {
  symbol = codes "BTC";
  name = codes "Bitcoin";
  blockchain = codes "Bitcoin";
  supply = 3;
  last_update_timestamp = 4;
  price = 16826;
}

-- The server answers every request with `btc_info`, and account 1 signs.
abbrev answering : Offchain mock
answering = record {
  PendingRequest = Unit;
  Response = Unit;
  send = λ r. some tt;
  wait = λ p. some tt;
  body = λ r. codes "[]";
  from_slice = λ b. some (btc_info ∷ []);
  send_signed = λ f. some (1, some tt);
}

-- The answer does not arrive.
abbrev silent : Offchain mock
silent = record answering { wait = λ p. none }

abbrev listening : Storage mock
listening = record new_test_ext { supported_currencies = (btc, tt) ∷ (eth, tt) ∷ [] }

request_text :
    request_body (request_items (btc ∷ eth ∷ []))
    ≡ codes
        "[{\"blockchain\":\"Bitcoin\",\"symbol\":\"BTC\"},{\"blockchain\":\"Ethereum\",\"symbol\":\"ETH\"}]"
unfolding request_body request_items
request_text = refl

answered : is_ok (update_prices mock answering listening []).0 ≡ true
unfolding update_prices is_utf8 iter_keys asset_id_eq request_items
answered = refl

update_prices_delivers_example :
    (prices : List CoinInfo) × (account : mock.AccountId) × Answers mock answering listening prices
    × ((update_prices mock answering listening []).1
        ≡ Action.posted (request mock answering listening)
          ∷ Action.submitted account (Call.set_updated_coin_infos (keyed prices))
          ∷ [])
unfolding iter_keys asset_id_eq
update_prices_delivers_example = update_prices_delivers mock answering listening (λ e. cc) answered

decode-request_body_example :
    decode (request_body (request_items (btc ∷ eth ∷ []))) ≡ some (btc ∷ eth ∷ [])
unfolding is_utf8
decode-request_body_example =
    decode-request_body btc (eth ∷ []) (omega arith) ((refl, refl), ((refl, refl), tt))

request_body_collides_example :
    request_body (
      request_items
        (new_asset_id (codes "a") (codes "b\"},{\"blockchain\":\"c\",\"symbol\":\"d") ∷ []))
    ≡ request_body (
        request_items
          (new_asset_id (codes "a") (codes "b") ∷ new_asset_id (codes "c") (codes "d") ∷ []))
request_body_collides_example =
    request_body_collides (codes "a") (codes "b") (codes "c") (codes "d")

abbrev update_call : Call mock.AccountId
update_call = Call.set_updated_coin_infos (((codes "Bitcoin", codes "BTC"), btc_info) ∷ [])

answered_log :
    (update_prices mock answering listening []).1
    ≡ Action.posted
        (price_request (codes "http://0.0.0.0:8070/currencies/") (request_items (btc ∷ eth ∷ [])))
      ∷ Action.submitted 1 update_call
      ∷ []
unfolding update_prices is_utf8 iter_keys asset_id_eq request_items
answered_log = refl

abbrev blocks : List (Extrinsic mock)
blocks =
    (Call.set_updated_coin_infos (keyed (btc_info ∷ [])), signed 1)
    ∷ (Call.authorize_account 2, signed 1)
    ∷ []

run-StoresOwn_example : StoresOwn mock (run mock blocks new_test_ext)
unfolding get
run-StoresOwn_example =
    run-StoresOwn mock mock-IsLawful blocks new_test_ext (keyed-IsOwn (btc_info ∷ []), (tt, tt))
      (λ k c e. cc)
