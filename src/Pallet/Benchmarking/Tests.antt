-- ===== src/Pallet/Benchmarking/Tests.antt =====
-- The benchmarks on the small runtime, where account 1 is authorized.
use oracle_pallet.Prelude.{◌≡◌, refl, nat_eq, if◌then◌else◌}
use oracle_pallet.Dict.{get}
use oracle_pallet.Pallet.Types.{asset_id_eq}
use oracle_pallet.Pallet.Mock.{MockOrigin, mock, mock-IsLawful, new_test_ext}
use oracle_pallet.Pallet.Benchmarking.{Harness, IsLawfulHarness, BenchmarkName}
use oracle_pallet.Pallet.Benchmarking.Measures.{
  IsFresh, Measures, declared_writes, is_idle, benchmark-Measures,
}

abbrev mock_harness : Harness mock
mock_harness = record {
  whitelisted_caller = 7;
  test_account = 8;
  signed = MockOrigin.signed;
  root = MockOrigin.root;
}

mock_harness-IsLawful : IsLawfulHarness mock_harness
unfolding nat_eq
mock_harness-IsLawful = record {
  ensure_signed-signed = λ a. refl;
  ensure_signed-root = refl;
  ensure_root-root = refl;
  two_accounts = refl;
}

new_test_ext-IsFresh : IsFresh mock_harness new_test_ext
unfolding get nat_eq asset_id_eq
new_test_ext-IsFresh = record { caller = refl; other = refl; currency = refl }

benchmark-Measures_example :
    Measures mock mock-IsLawful mock_harness mock_harness-IsLawful BenchmarkName.deauthorize_account
      new_test_ext
    × (declared_writes BenchmarkName.deauthorize_account
        ≡ (if is_idle BenchmarkName.deauthorize_account then 0 else 1))
benchmark-Measures_example =
    benchmark-Measures mock mock-IsLawful mock_harness mock_harness-IsLawful
      BenchmarkName.deauthorize_account new_test_ext new_test_ext-IsFresh
