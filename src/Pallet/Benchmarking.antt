-- ===== src/Pallet/Benchmarking.antt =====
-- pallets/dia-oracle/src/benchmarking.rs: what each benchmark sets up, and the call that it
-- measures. The accounts and the raw origins are those of the benchmarking library.
pub mod Measures
mod Tests
use oracle_pallet.Prelude.{ℕ, zero, suc, ◌≡◌, Bool, true, false, List, [], ◌∷◌}
use oracle_pallet.Result.{Result, ok, err, is_ok}
use oracle_pallet.Text.{codes}
use oracle_pallet.Pallet.Types.{Bytes, CoinInfo, CoinInfos, DispatchError, Pays, Call}
use oracle_pallet.Pallet.Config.{Config, same_account, Storage}
use oracle_pallet.Pallet.Calls.{dispatch}
use oracle_pallet.Pallet.Calls.History.{Extrinsic}
use oracle_pallet.Pallet.Weights.{WeightApi, WeightInfo}

-- `whitelisted_caller()`, `account("test", 2, 2)`, and the origins `RawOrigin::Signed` and
-- `RawOrigin::Root`.
pub record Harness (C : Config) : Type 0 where
  pub whitelisted_caller : C.AccountId
  pub test_account : C.AccountId
  pub signed : C.AccountId → C.Origin
  pub root : C.Origin

pub record IsLawfulHarness {C : Config} (H : Harness C) : Type 0 where
  pub ensure_signed-signed : (a : C.AccountId) → C.ensure_signed (H.signed a) ≡ ok a
  pub ensure_signed-root : is_ok (C.ensure_signed H.root) ≡ false
  pub ensure_root-root : C.ensure_root H.root ≡ ok tt
  pub two_accounts : same_account C H.test_account H.whitelisted_caller ≡ false

pub data BenchmarkName : Type 0 where
  add_currency : BenchmarkName
  remove_currency : BenchmarkName
  authorize_account : BenchmarkName
  authorize_account_signed : BenchmarkName
  deauthorize_account : BenchmarkName
  deauthorize_account_signed : BenchmarkName
  set_updated_coin_infos : BenchmarkName
  set_batching_api : BenchmarkName

pub record Benchmark (C : Config) : Type 0 where
  pub setup : List (Extrinsic C)
  pub measured : Extrinsic C

abbrev pub ones : Bytes
ones = 1 ∷ 2 ∷ 3 ∷ []

abbrev pub twos : Bytes
twos = 2 ∷ 2 ∷ 2 ∷ []

abbrev pub example_info : CoinInfo
example_info = record {
  symbol = twos;
  name = twos;
  blockchain = twos;
  supply = 9;
  last_update_timestamp = 9;
  price = 9;
}

-- `(0..n).map(|_| x).collect()`
unfoldable pub replicate {ℓ} : {A : Type ℓ} → ℕ → A → List A
replicate zero x = []
replicate (suc n) x = x ∷ replicate n x

unfoldable pub example_coin_infos : CoinInfos
example_coin_infos = replicate 5001 ((twos, twos), example_info)

abbrev pub example_api : Bytes
example_api = codes "http://localhost:8070/currencies2"

module _ {C : Config} (H : Harness C) where
  -- `DiaOracle::<T>::authorize_account(RawOrigin::Root.into(), caller.clone())?`
  abbrev pub authorize_caller : Extrinsic C
  authorize_caller = (Call.authorize_account H.whitelisted_caller, H.root)

  -- Measured as the caller, which is authorized first.
  abbrev pub by_caller : Call C.AccountId → Benchmark C
  by_caller c = record {
    setup = authorize_caller ∷ [];
    measured = (c, H.signed H.whitelisted_caller);
  }

  abbrev pub by_root : Call C.AccountId → Benchmark C
  by_root c = record { setup = []; measured = (c, H.root) }

  unfoldable pub benchmark : BenchmarkName → Benchmark C
  benchmark BenchmarkName.add_currency = by_caller (Call.add_currency ones ones)
  benchmark BenchmarkName.remove_currency = by_caller (Call.remove_currency ones ones)
  benchmark BenchmarkName.authorize_account = by_root (Call.authorize_account H.whitelisted_caller)
  benchmark BenchmarkName.authorize_account_signed =
      by_caller (Call.authorize_account H.test_account)
  benchmark BenchmarkName.deauthorize_account =
      by_root (Call.deauthorize_account H.whitelisted_caller)
  benchmark BenchmarkName.deauthorize_account_signed =
      by_caller (Call.authorize_account H.test_account)
  benchmark BenchmarkName.set_updated_coin_infos =
      by_caller (Call.set_updated_coin_infos example_coin_infos)
  benchmark BenchmarkName.set_batching_api = by_caller (Call.set_batching_api example_api)

module _ (C : Config) where
  -- The setup; its first error ends the benchmark.
  unfoldable pub set_up : List (Extrinsic C) → Storage C → Result DispatchError (Storage C)
  set_up [] s = ok s
  set_up ((c, o) ∷ rest) s =
      let (r, s') = dispatch C c o s in elim r [ ok p ↦ set_up rest s' | err e ↦ err e ]

-- The weight that a benchmark makes.
abbrev pub weight_of : {W : WeightApi} → WeightInfo W → BenchmarkName → W.Weight
weight_of info BenchmarkName.add_currency = info.add_currency
weight_of info BenchmarkName.remove_currency = info.remove_currency
weight_of info BenchmarkName.authorize_account = info.authorize_account
weight_of info BenchmarkName.authorize_account_signed = info.authorize_account_signed
weight_of info BenchmarkName.deauthorize_account = info.deauthorize_account
weight_of info BenchmarkName.deauthorize_account_signed = info.deauthorize_account_signed
weight_of info BenchmarkName.set_updated_coin_infos = info.set_updated_coin_infos
weight_of info BenchmarkName.set_batching_api = info.set_batching_api
