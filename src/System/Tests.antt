-- ===== src/System/Tests.antt =====
-- One round, one run of a worker and one dispatch, as steps of the whole.
use oracle_pallet.Prelude.{
  Bool, ◌==◌, if◌then◌else◌, ◌+◌, arith, ◌≡◌, refl, true, none, some, [], ◌∷◌, nat_eq, bytes_eq,
}
use oracle_pallet.Result.{ok, err, ok_or, map_ok}
use oracle_pallet.Text.{concat, codes, encode_utf8}
use oracle_pallet.Dict.{get, insert}
use oracle_pallet.Pallet.Types.{
  Bytes, new_asset_id, asset_id_eq, module_error, no_coin_info_available,
}
use oracle_pallet.Pallet.Mock.{mock, mock-IsLawful, signed}
use oracle_pallet.Pallet.Calls.{insert_coin_infos, dispatch}
use oracle_pallet.Pallet.Oracle.{get_coin_info}
use oracle_pallet.Pallet.Worker.{
  batching_endpoint_fallback, Offchain, HttpRequest, keyed, endpoint, offchain_worker,
}
use oracle_pallet.Server.Types
use oracle_pallet.Server.Storage.{CoinInfoStorage, default_storage}
use oracle_pallet.Server.Updater
use oracle_pallet.Server.Updater.{dummy}
use oracle_pallet.Server.Handlers.{currencies_post}
use oracle_pallet.Server.Decimal.Fixed.{fixed-IsLawful}
use oracle_pallet.Server.Tests.{large, large_dia, large_dia-IsSteady, large_requests}
use oracle_pallet.Server.Mock
use oracle_pallet.Server.Mock.{mock_dia}
use oracle_pallet.Wire.{from_slice, answer}
use oracle_pallet.Wire.Served.{IsConnected}
use oracle_pallet.Wire.Answer.{stored}
use oracle_pallet.Wire.Mock.{small_json, small_json-IsLawful, from_objects}
use oracle_pallet.Wire.Quoted.Tests.{
  round_coins, asking, asking-IsConnected, listening, quoted_btc, quoted_call, calm, btc,
  submitted_quotation,
}
use oracle_pallet.System.{World, posts_to, submissions, IsRouted, Step, Reach, IsTrusted, Trusted}
use oracle_pallet.System.Updates.{IsQuotation}
use oracle_pallet.System.Refresh.{IsReliable, prices_refresh}
use oracle_pallet.Wire.Found.{asked, served}
use oracle_pallet.Pallet.Oracle.{get_value, latest}
use oracle_pallet.Dict.Lawful.{iter_keys}
use oracle_pallet.Pallet.Worker.Request.{request_items, request_body}
use oracle_pallet.Server.Decimal.Fixed.{mul, limit}
use oracle_pallet.Server.Convert.{convert_decimal_to_u128, convert_to_coin_info}
use oracle_pallet.Server.Updater.{is_wanted, is_special}
use oracle_pallet.Server.Dia.{get_default_fiat_usd_quotation}
use oracle_pallet.Server.Types.{asset_specifier_eq}
use oracle_pallet.Server.Mock.{mock_dia-IsSteady}
use oracle_pallet.Text.{is_utf8}
use oracle_pallet.Wire.{is_plain}
use oracle_pallet.Wire.Answer.{has_plain_texts}
use oracle_pallet.System.Stuck.{large_price_leaves_no_price}
use oracle_pallet.System.Provenance.{chain_prices_are_quotations}

-- The server is found at the fallback endpoint only.
abbrev at_home : Bytes → Bool
at_home url = url == batching_endpoint_fallback

listening_home : at_home (posts_to {C = mock} listening) ≡ true
unfolding bytes_eq
listening_home = refl

connected-IsRouted :
    (W : Offchain mock) (coins : CoinInfoStorage)
    → IsConnected mock W small_json coins
    → IsRouted mock W small_json at_home coins
connected-IsRouted W coins N = record {
  reads = N.reads;
  answers = λ req p r here sent received. N.answers req p r sent received;
}

abbrev first_world : World mock_dia mock
first_world = record {
  running = true;
  coins = default_storage;
  api_state = 0;
  chain = listening;
  pool = [];
}

abbrev updated : Updater.Round mock_dia
updated = Updater.update_prices mock_dia default_storage (some (Mock.btc ∷ [])) 1000 0

abbrev last_world : World mock_dia mock
last_world = record {
  running = updated.finished;
  coins = round_coins;
  api_state = updated.state;
  chain = (dispatch mock quoted_call (signed 1) listening).1;
  pool = submissions (offchain_worker mock asking listening);
}

submitted_update : submissions (offchain_worker mock asking listening) ≡ (1, quoted_call) ∷ []
unfolding offchain_worker
submitted_update = rw submitted_quotation

steps : Reach mock_dia mock small_json at_home (some (Mock.btc ∷ [])) 1000 first_world last_world
steps =
    Reach.next
      (Reach.next (Reach.next Reach.here (Step.round refl))
        (Step.work asking (connected-IsRouted asking round_coins asking-IsConnected)))
      (Step.call quoted_call (signed 1))

steps-Trusted : Trusted mock_dia mock small_json at_home (some (Mock.btc ∷ [])) 1000 steps
unfolding steps
steps-Trusted = (((tt, tt), tt), IsTrusted.submitted 1 [] [] submitted_update refl)

stored_quotation :
    get_coin_info mock (codes "Bitcoin") (codes "BTC") last_world.chain ≡ ok (stored quoted_btc)
unfolding get_coin_info dispatch insert_coin_infos get insert asset_id_eq nat_eq encode_utf8 keyed
stored_quotation = refl

bad_request_unreadable : small_json.from_slice small_json.bad_request ≡ none
unfolding from_objects
bad_request_unreadable = refl

chain_prices_are_quotations_example :
    ((stored quoted_btc).blockchain ≡ codes "Bitcoin")
    × ((stored quoted_btc).symbol ≡ codes "BTC")
    × ((d : Types.CoinInfo) × IsQuotation mock_dia 0 d × (stored quoted_btc ≡ stored d))
chain_prices_are_quotations_example =
    chain_prices_are_quotations mock_dia mock mock-IsLawful small_json small_json-IsLawful at_home
      bad_request_unreadable (some (Mock.btc ∷ [])) 1000 (codes "Bitcoin") (codes "BTC")
      (stored quoted_btc) refl mock-IsLawful.coin_infos.get-empty refl listening_home steps
      steps-Trusted stored_quotation

-- A server whose one quotation is too large, and a worker that asks it.
abbrev stuck : Updater.Round large_dia
stuck = Updater.update_prices large_dia default_storage (some (Mock.mxn ∷ [])) 1000 0

abbrev asking_stuck : Offchain mock
asking_stuck = record {
  PendingRequest = HttpRequest;
  Response = Bytes;
  send = λ r. some r;
  wait = λ p. some (answer small_json stuck.coins (concat p.chunks));
  body = λ r. r;
  from_slice = from_slice small_json;
  send_signed = λ f. some (1, some tt);
}

asking_stuck-IsConnected : IsConnected mock asking_stuck small_json stuck.coins
asking_stuck-IsConnected = record { reads = λ body. refl; answers = λ req p r sent received. cc }

abbrev stuck_world : World large_dia mock
stuck_world = record {
  running = true;
  coins = default_storage;
  api_state = 0;
  chain = listening;
  pool = [];
}

abbrev stuck_later : World large_dia mock
stuck_later = record {
  running = stuck.finished;
  coins = stuck.coins;
  api_state = stuck.state + 60000;
  chain = listening;
  pool = submissions (offchain_worker mock asking_stuck listening);
}

stuck_steps :
    Reach large_dia mock small_json at_home (some (Mock.mxn ∷ [])) 1000 stuck_world stuck_later
stuck_steps =
    Reach.next
      (Reach.next (Reach.next Reach.here (Step.round refl)) (
        Step.work asking_stuck
          (connected-IsRouted asking_stuck stuck.coins asking_stuck-IsConnected)))
      (Step.wait 60000)

stuck_steps-Trusted :
    Trusted large_dia mock small_json at_home (some (Mock.mxn ∷ [])) 1000 stuck_steps
unfolding stuck_steps
stuck_steps-Trusted = (((tt, tt), tt), tt)

large_price_leaves_no_price_example :
    (currencies_post
        (record { blockchain = codes "FIAT"; symbol = codes "MXN-USD" } ∷ [])
        stuck_later.coins
      ≡ [])
    × (get_coin_info mock (codes "FIAT") (codes "MXN-USD") stuck_later.chain
        ≡ err (module_error no_coin_info_available))
large_price_leaves_no_price_example =
    large_price_leaves_no_price fixed-IsLawful large_dia large_dia-IsSteady mock mock-IsLawful
      small_json small_json-IsLawful at_home bad_request_unreadable (some (Mock.mxn ∷ [])) 1000 []
      [] (dummy Mock.mxn) large large_requests refl refl (omega arith)
      (record { blockchain = codes "FIAT"; symbol = codes "MXN-USD" } ∷ []) (codes "FIAT")
      (codes "MXN-USD") refl mock-IsLawful.coin_infos.get-empty refl listening_home stuck_steps
      stuck_steps-Trusted

asking-IsReliable : IsReliable mock asking 1
asking-IsReliable = record {
  sends = λ req. (req, refl);
  waits = λ p. (answer small_json round_coins (concat p.chunks), refl);
  signs = λ f. refl;
}

prices_refresh_example :
    (v : World mock_dia mock) × (r : Reach mock_dia mock small_json at_home
      (some (Mock.btc ∷ []))
      1000
      first_world
      v)
    × Trusted mock_dia mock small_json at_home (some (Mock.btc ∷ [])) 1000 r
    × (v.running ≡ true)
    × ((b y : Bytes)
        → get_value mock b y v.chain
          ≡ map_ok
              (λ info. record { value = info.price })
              (ok_or
                (latest
                  (if asked (btc ∷ []) b y then served (quoted_btc ∷ []) b y else none)
                  (mock.coin_infos.get listening.coin_infos_map (new_asset_id b y)))
                (module_error no_coin_info_available)))
unfolding iter_keys asset_id_eq request_items request_body concat get nat_eq bytes_eq encode_utf8
    insert convert_to_coin_info convert_decimal_to_u128 mul limit is_wanted is_special
    asset_specifier_eq get_default_fiat_usd_quotation dummy is_utf8 has_plain_texts is_plain
    endpoint
prices_refresh_example =
    prices_refresh mock_dia mock_dia-IsSteady mock mock-IsLawful small_json small_json-IsLawful
      at_home (some (Mock.btc ∷ [])) 1000 calm first_world asking 1 asking-IsReliable
      asking-IsConnected btc [] refl (omega arith) (omega arith) (omega arith) (omega arith)
      (refl, tt) (signed 1) refl refl refl refl
