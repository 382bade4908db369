-- ===== src/Pallet/Tests.antt =====
-- The tests of pallets/dia-oracle/src/tests.rs, and the theorems at concrete data.
use oracle_pallet.Prelude.{◌≡◌, refl, true, false, some, none, List, [], ◌∷◌, nat_eq, is_some}
use oracle_pallet.Result.{ok, err, is_ok}
use oracle_pallet.Text.{codes}
use oracle_pallet.Dict.{get, insert, remove}
use oracle_pallet.Pallet.Types.{
  Bytes, CoinInfo, default_coin_info, new_asset_id, asset_id_eq, Call, module_error,
  no_coin_info_available,
}
use oracle_pallet.Pallet.Config.{Storage}
use oracle_pallet.Pallet.Calls.{is_authorized, is_supported, insert_coin_infos, dispatch}
use oracle_pallet.Pallet.Calls.Spec.{view, permitted, effect, sender}
use oracle_pallet.Pallet.Calls.Refinement.{dispatch_atomic, is_ok-dispatch, view-dispatch}
use oracle_pallet.Pallet.Calls.History.{Extrinsic, run, replay, replay-run}
use oracle_pallet.Pallet.Calls.Authority.{IsGoverned, run-IsGoverned, run_keeps_coin_info}
use oracle_pallet.Pallet.Oracle.{get_coin_info, get_value, get_value-set_updated}
use oracle_pallet.Pallet.Genesis.{GenesisConfig, empty_storage, build, build_exact}
use oracle_pallet.Pallet.Mock.{mock, mock-IsLawful, signed, root, new_test_ext}

-- Runs of the mock, with all that they call unfolded.
run_mock : List (Extrinsic mock) → Storage mock → Storage mock
unfolding run dispatch insert_coin_infos get insert remove asset_id_eq nat_eq
run_mock = run mock

add_currency_should_work :
    let s =
      run_mock
        ((Call.add_currency (1 ∷ []) (1 ∷ []), signed 1)
          ∷ (Call.add_currency (2 ∷ []) (2 ∷ []), signed 1)
          ∷ [])
        new_test_ext in
    (is_supported mock s (new_asset_id (1 ∷ []) (1 ∷ [])) ≡ true)
    × (is_supported mock s (new_asset_id (2 ∷ []) (2 ∷ [])) ≡ true)
    × (is_supported mock s (new_asset_id (4 ∷ []) (4 ∷ [])) ≡ false)
unfolding run_mock
add_currency_should_work = (refl, refl, refl)

remove_currency_should_work :
    let s =
      run_mock
        ((Call.add_currency (1 ∷ []) (1 ∷ []), signed 1)
          ∷ (Call.add_currency (2 ∷ []) (2 ∷ []), signed 1)
          ∷ (Call.remove_currency (2 ∷ []) (2 ∷ []), signed 1)
          ∷ [])
        new_test_ext in
    (is_supported mock s (new_asset_id (1 ∷ []) (1 ∷ [])) ≡ true)
    × (is_supported mock s (new_asset_id (2 ∷ []) (2 ∷ [])) ≡ false)
unfolding run_mock
remove_currency_should_work = (refl, refl)

abbrev deauthorize_each_other : List (Extrinsic mock)
deauthorize_each_other =
    (Call.authorize_account 1, signed 1)
    ∷ (Call.authorize_account 2, signed 1)
    ∷ (Call.deauthorize_account 2, signed 2)
    ∷ (Call.deauthorize_account 1, signed 2)
    ∷ []

deauthorize_account_should_not_work_by_deauthorizing_themself :
    let s = run_mock deauthorize_each_other new_test_ext in
    (is_authorized mock s 1 ≡ false) × (is_authorized mock s 2 ≡ true)
unfolding run_mock
deauthorize_account_should_not_work_by_deauthorizing_themself = (refl, refl)

abbrev example_info : CoinInfo
example_info = record {
  symbol = 1 ∷ [];
  name = 1 ∷ [];
  blockchain = 1 ∷ [];
  supply = 9;
  last_update_timestamp = 9;
  price = 9;
}

abbrev three : Bytes
three = 1 ∷ 2 ∷ 3 ∷ []

abbrev twos : Bytes
twos = 2 ∷ 2 ∷ 2 ∷ []

abbrev fours : Bytes
fours = 1 ∷ 2 ∷ 3 ∷ 4 ∷ []

abbrev update_call : Call mock.AccountId
update_call =
    Call.set_updated_coin_infos
      (((three, three), default_coin_info) ∷ ((twos, twos), example_info) ∷ [])

get_value_in_coin_info_should_work :
    let s = run_mock ((update_call, signed 1) ∷ []) new_test_ext in
    (get_coin_info mock twos twos s ≡ ok example_info)
    × (get_value mock three three s ≡ ok (record { value = 0 }))
    × (get_value mock twos twos s ≡ ok (record { value = 9 }))
    × (get_value mock fours fours s ≡ err (module_error no_coin_info_available))
unfolding run_mock get_value
get_value_in_coin_info_should_work = (refl, refl, refl, refl)

abbrev self_removal : Call mock.AccountId
self_removal = Call.deauthorize_account 1

self_removal_fails : is_ok (dispatch mock self_removal (signed 1) new_test_ext).0 ≡ false
unfolding run_mock
self_removal_fails = refl

dispatch_atomic_example : (dispatch mock self_removal (signed 1) new_test_ext).1 ≡ new_test_ext
dispatch_atomic_example =
    dispatch_atomic mock self_removal (signed 1) new_test_ext self_removal_fails

is_ok-dispatch_example :
    is_ok (dispatch mock update_call root new_test_ext).0
    ≡ permitted mock (view mock new_test_ext) (sender mock root) update_call
is_ok-dispatch_example = is_ok-dispatch mock update_call root new_test_ext

view-dispatch_example :
    view mock (dispatch mock (Call.authorize_account 7) root new_test_ext).1
    ≡ effect mock (Call.authorize_account 7) (view mock new_test_ext)
view-dispatch_example =
    view-dispatch mock mock-IsLawful (Call.authorize_account 7) root new_test_ext

replay-run_example :
    let s = run mock deauthorize_each_other new_test_ext in
    replay mock s.events (view mock new_test_ext) ≡ view mock s
replay-run_example = replay-run mock mock-IsLawful deauthorize_each_other new_test_ext refl

run-IsGoverned_example : IsGoverned mock (run mock deauthorize_each_other new_test_ext)
unfolding get nat_eq
run-IsGoverned_example =
    run-IsGoverned mock mock-IsLawful deauthorize_each_other new_test_ext
      ((λ e. cc), ((λ e. cc), ((λ e. cc), ((λ e. cc), tt)))) (1, refl)

abbrev priced : Storage mock
priced = record new_test_ext { coin_infos_map = (new_asset_id twos twos, example_info) ∷ [] }

run_keeps_coin_info_example :
    is_some (
      mock.coin_infos.get
        (run mock ((Call.remove_currency twos twos, signed 1) ∷ []) priced).coin_infos_map
        (new_asset_id twos twos))
    ≡ true
unfolding get asset_id_eq
run_keeps_coin_info_example =
    run_keeps_coin_info mock mock-IsLawful ((Call.remove_currency twos twos, signed 1) ∷ []) priced
      (new_asset_id twos twos) refl

get_value-set_updated_example :
    let s' = (dispatch mock update_call (signed 1) priced).1 in
    (get_coin_info mock twos twos s' ≡ ok example_info)
    × (get_value mock twos twos s' ≡ ok (record { value = 9 }))
unfolding get asset_id_eq nat_eq
get_value-set_updated_example =
    get_value-set_updated mock mock-IsLawful twos twos
      (((three, three), default_coin_info) ∷ ((twos, twos), example_info) ∷ []) (signed 1) 1 priced
      refl refl

abbrev genesis : GenesisConfig mock
genesis = record {
  authorized_accounts = 1 ∷ 5 ∷ [];
  supported_currencies = new_asset_id twos three ∷ [];
  batching_api = codes "http://localhost:8070/currencies";
  coin_infos_map = (twos, example_info) ∷ [];
}

build_exact_example :
    let s = build mock genesis (empty_storage mock) in
    (is_authorized mock s 5 ≡ true)
    × (is_supported mock s (new_asset_id twos three) ≡ true)
    × (s.batching_api ≡ some (codes "http://localhost:8070/currencies"))
    × (mock.coin_infos.get s.coin_infos_map (new_asset_id twos three) ≡ none)
    × (s.events ≡ [])
unfolding asset_id_eq nat_eq
build_exact_example = build_exact mock mock-IsLawful genesis 5 (new_asset_id twos three)
