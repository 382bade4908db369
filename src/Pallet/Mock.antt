-- ===== src/Pallet/Mock.antt =====
-- A small runtime in the place of pallets/dia-oracle/src/mock.rs, over numbers as account ids and
-- association lists as storage maps. It shows that what the pallet assumes of FRAME can be met.
use oracle_pallet.Prelude.{ℕ, [], ◌∷◌, nat_eq}
use oracle_pallet.Result.{Result, ok, err}
use oracle_pallet.Dict.Lawful.{dict_map, dict_map-IsLawful}
use oracle_pallet.Pallet.Types.{asset_id_eq, frame_bad_origin, DispatchError}
use oracle_pallet.Pallet.Config.{Config, Storage, IsLawfulConfig}
use oracle_pallet.Pallet.Genesis.{empty_storage}

pub data MockOrigin : Type 0 where
  signed : ℕ → MockOrigin
  root none_origin : MockOrigin

abbrev pub ensure_signed : MockOrigin → Result DispatchError ℕ
ensure_signed (signed a) = ok a
ensure_signed _ = err frame_bad_origin

abbrev pub ensure_root : MockOrigin → Result DispatchError (Unit {0})
ensure_root root = ok tt
ensure_root _ = err frame_bad_origin

abbrev pub mock : Config
mock = record {
  AccountId = ℕ;
  account_eq = nat_eq;
  Origin = MockOrigin;
  ensure_signed = ensure_signed;
  ensure_root = ensure_root;
  authorized = dict_map;
  supported = dict_map;
  coin_infos = dict_map;
}

pub mock-IsLawful : IsLawfulConfig mock
mock-IsLawful = record {
  authorized = dict_map-IsLawful;
  supported = dict_map-IsLawful;
  coin_infos = dict_map-IsLawful;
}

-- `new_test_ext` with account 1 authorized, as the tests begin.
abbrev pub new_test_ext : Storage mock
new_test_ext = record (empty_storage mock) { authorized_accounts = (1, tt) ∷ [] }
