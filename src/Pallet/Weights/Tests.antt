-- ===== src/Pallet/Weights/Tests.antt =====
-- The weights at concrete calls.
use oracle_pallet.Prelude.{ℕ, ◌+◌, ◌*◌, ◌≡◌, refl, false, [], ◌∷◌, nat_eq}
use oracle_pallet.Text.{codes}
use oracle_pallet.Dict.{get}
use oracle_pallet.Pallet.Types.{new_asset_id, asset_id_eq, Call}
use oracle_pallet.Pallet.Config.{Storage}
use oracle_pallet.Pallet.Calls.{is_authorized, is_supported, dispatch}
use oracle_pallet.Pallet.Weights.{
  WeightApi, DbWeight, dia_weight_info, unit_weight_info, declared_weight,
  removals_declare_no_write,
}
use oracle_pallet.Pallet.Mock.{mock, mock-IsLawful, signed, new_test_ext}

-- Weights that are numbers.
abbrev plain_weights : WeightApi
plain_weights = record { Weight = ℕ; from_ref_time = λ t. t; saturating_add = λ a b. a + b }

abbrev plain_db : DbWeight plain_weights
plain_db = record { reads = λ n. 25 * n; writes = λ n. 100 * n }

abbrev two_accounts : Storage mock
two_accounts = record new_test_ext {
  authorized_accounts = (1, tt) ∷ (2, tt) ∷ [];
  supported_currencies = (new_asset_id (codes "B") (codes "C"), tt) ∷ [];
}

removals_declare_no_write_example :
    (dia_weight_info plain_weights plain_db ≡ unit_weight_info plain_weights plain_db)
    × (is_supported mock
          (dispatch mock (Call.remove_currency (codes "B") (codes "C")) (signed 1) two_accounts).1
          (new_asset_id (codes "B") (codes "C"))
        ≡ false)
    × (is_authorized mock (dispatch mock (Call.deauthorize_account 2) (signed 1) two_accounts).1 2
        ≡ false)
    × (declared_weight {A = ℕ}
          (unit_weight_info plain_weights plain_db)
          (Call.remove_currency (codes "B") (codes "C"))
        ≡ 542_550_050)
    × (declared_weight {A = ℕ}
          (unit_weight_info plain_weights plain_db)
          (Call.deauthorize_account 2)
        ≡ 276_664_025)
unfolding get asset_id_eq nat_eq
removals_declare_no_write_example =
    removals_declare_no_write mock mock-IsLawful plain_db (codes "B") (codes "C") 2 1 (signed 1)
      two_accounts refl refl refl refl refl
