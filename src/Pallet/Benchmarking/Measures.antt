-- ===== src/Pallet/Benchmarking/Measures.antt =====
-- What the benchmarks measure, beside the writes that the weights made from them declare.
use oracle_pallet.Prelude.{
  ℕ, zero, suc, ◌+◌, ◌≡◌, refl, ap, ◌∙◌, Bool, true, false, some, [], ◌∷◌, arith, if◌then◌else◌,
}
use oracle_pallet.Result.{ok, is_ok}
use oracle_pallet.Pallet.Types.{CoinInfo, AssetId, new_asset_id, asset_id_eq, Call}
use oracle_pallet.Pallet.Config.{Config, Storage, IsLawfulConfig}
use oracle_pallet.Pallet.Calls.{is_authorized, is_supported, dispatch}
use oracle_pallet.Pallet.Calls.Spec.{View, Sender, sender, view, permitted, effect}
use oracle_pallet.Pallet.Calls.Refinement.{is_ok-dispatch, view-dispatch}
use oracle_pallet.Pallet.Oracle.{last_of, update_all-last_of}
use oracle_pallet.Pallet.Weights.{WeightApi, DbWeight, unit_weight_info}
use oracle_pallet.Pallet.Benchmarking.{
  Harness, IsLawfulHarness, BenchmarkName, benchmark, ones, twos, example_info, replicate,
  example_coin_infos, example_api, set_up, weight_of,
}

-- Weights as the number of writes that they hold.
abbrev pub write_count : WeightApi
write_count = record { Weight = ℕ; from_ref_time = λ t. 0; saturating_add = λ a b. a + b }

abbrev pub count_writes : DbWeight write_count
count_writes = record { reads = λ n. 0; writes = λ n. n }

abbrev pub declared_writes : BenchmarkName → ℕ
declared_writes = weight_of (unit_weight_info write_count count_writes)

module _ {C : Config} (H : Harness C) where
  -- A chain that does not know the accounts and the currency of the benchmarks.
  pub record IsFresh (s : Storage C) : Type 0 where
    pub caller : is_authorized C s H.whitelisted_caller ≡ false
    pub other : is_authorized C s H.test_account ≡ false
    pub currency : is_supported C s (new_asset_id ones ones) ≡ false

  -- From the storage before the measured call to the one after it.
  abbrev pub Outcome : BenchmarkName → Storage C → Storage C → Type 0
  Outcome BenchmarkName.add_currency s t = is_supported C t (new_asset_id ones ones) ≡ true
  Outcome BenchmarkName.remove_currency s t = t ≡ s
  Outcome BenchmarkName.authorize_account s t = is_authorized C t H.whitelisted_caller ≡ true
  Outcome BenchmarkName.authorize_account_signed s t = is_authorized C t H.test_account ≡ true
  Outcome BenchmarkName.deauthorize_account s t = t ≡ s
  Outcome BenchmarkName.deauthorize_account_signed s t = is_authorized C t H.test_account ≡ true
  Outcome BenchmarkName.set_updated_coin_infos s t =
      C.coin_infos.get t.coin_infos_map (new_asset_id twos twos) ≡ some example_info
  Outcome BenchmarkName.set_batching_api s t = t.batching_api ≡ some example_api

-- The calls find nothing to remove.
abbrev pub is_idle : BenchmarkName → Bool
is_idle BenchmarkName.remove_currency = true
is_idle BenchmarkName.deauthorize_account = true
is_idle n = false

last_of-replicate :
    (n : ℕ) (c : CoinInfo)
    → last_of (replicate (suc n) ((twos, twos), c)) (new_asset_id twos twos) ≡ some c
unfolding replicate asset_id_eq
last_of-replicate zero c = refl
last_of-replicate (suc n) c = rw (last_of-replicate n c)

module _ (C : Config) where
  remove_currency_absent :
      (o : C.Origin) (who : C.AccountId) (s : Storage C) (k : AssetId)
      → C.ensure_signed o ≡ ok who
      → is_authorized C s who ≡ true
      → is_supported C s k ≡ false
      → (dispatch C (Call.remove_currency k.blockchain k.symbol) o s).1 ≡ s
  unfolding dispatch
  remove_currency_absent o who s k signed known absent = ground arith

  deauthorize_absent :
      (o : C.Origin) (a : C.AccountId) (s : Storage C)
      → is_ok (C.ensure_signed o) ≡ false
      → C.ensure_root o ≡ ok tt
      → is_authorized C s a ≡ false
      → (dispatch C (Call.deauthorize_account a) o s).1 ≡ s
  unfolding dispatch
  deauthorize_absent o a s unsigned root absent = ground arith

  set_up-one :
      (c : Call C.AccountId) (o : C.Origin) (s : Storage C)
      → is_ok (dispatch C c o s).0 ≡ true
      → set_up C ((c, o) ∷ []) s ≡ ok (dispatch C c o s).1
  unfolding set_up
  set_up-one c o s h = ground arith

module _ (C : Config) (L : IsLawfulConfig C) (H : Harness C) (LH : IsLawfulHarness H) where
  -- The storage after a setup that authorizes the caller.
  abbrev prepared : Storage C → Storage C
  prepared s = (dispatch C (Call.authorize_account H.whitelisted_caller) H.root s).1

  root_authorizes :
      (s : Storage C)
      → (is_ok (dispatch C (Call.authorize_account H.whitelisted_caller) H.root s).0 ≡ true)
        × (is_authorized C (prepared s) H.whitelisted_caller ≡ true)
  root_authorizes s =
      let c = Call.authorize_account H.whitelisted_caller in
      let told = view-dispatch C L c H.root s in
      (
        ground (arith, is_ok-dispatch C c H.root s, LH.ensure_signed-root, LH.ensure_root-root),
        ground (
          arith,
          ap (λ (v : View C.AccountId). v.authorized H.whitelisted_caller) told,
          LH.ensure_signed-root,
          LH.ensure_root-root,
        ),
      )

  prepared-supported :
      (s : Storage C) (k : AssetId) → is_supported C (prepared s) k ≡ is_supported C s k
  prepared-supported s k = ground (
    arith,
    ap (λ (v : View C.AccountId). v.supported k)
        (view-dispatch C L (Call.authorize_account H.whitelisted_caller) H.root s),
  )

  sender-caller : sender C (H.signed H.whitelisted_caller) ≡ Sender.signed H.whitelisted_caller
  sender-caller = ground (arith, LH.ensure_signed-signed H.whitelisted_caller)

  -- A call of the caller that is permitted succeeds and has its effect.
  caller_may :
      (c : Call C.AccountId) (s : Storage C)
      → permitted C (view C s) (Sender.signed H.whitelisted_caller) c ≡ true
      → let (r, t) = dispatch C c (H.signed H.whitelisted_caller) s in
        (is_ok r ≡ true) × (view C t ≡ effect C c (view C s))
  caller_may c s may =
      let o = H.signed H.whitelisted_caller in
      (
        is_ok-dispatch C c o s ∙ rw sender-caller may,
        view-dispatch C L c o s ∙ rw sender-caller (rw may),
      )

  -- What is claimed of one benchmark.
  abbrev pub Measures : BenchmarkName → Storage C → Type 0
  Measures n s =
      let b = benchmark H n in
      (s₁ : Storage C) × (set_up C b.setup s ≡ ok s₁)
      × (is_ok (dispatch C b.measured.0 b.measured.1 s₁).0 ≡ true)
      × Outcome H n s₁ (dispatch C b.measured.0 b.measured.1 s₁).1

  caller_measures :
      (c : Call C.AccountId) (s : Storage C) (P : View C.AccountId → Type 0)
      → permitted C (view C (prepared s)) (Sender.signed H.whitelisted_caller) c ≡ true
      → P (effect C c (view C (prepared s)))
      → (s₁ : Storage C) × (set_up C ((Call.authorize_account H.whitelisted_caller, H.root) ∷ []) s
          ≡ ok s₁)
        × (is_ok (dispatch C c (H.signed H.whitelisted_caller) s₁).0 ≡ true)
        × P (view C (dispatch C c (H.signed H.whitelisted_caller) s₁).1)
  caller_measures c s P may holds =
      let done = caller_may c (prepared s) may in
      (
        prepared s,
        set_up-one C (Call.authorize_account H.whitelisted_caller) H.root s (root_authorizes s).0,
        done.0,
        rw done.1 holds,
      )

  example_info-effect :
      (v : View C.AccountId)
      → (effect C (Call.set_updated_coin_infos example_coin_infos) v).coin_info
          (new_asset_id twos twos)
        ≡ some example_info
  unfolding example_coin_infos
  example_info-effect v =
      update_all-last_of (replicate 5001 ((twos, twos), example_info)) v.coin_info
        (new_asset_id twos twos)
      ∙ rw (last_of-replicate 5000 example_info)

  remove_currency-Measures :
      (s : Storage C) → IsFresh H s → Measures BenchmarkName.remove_currency s
  unfolding benchmark
  remove_currency-Measures s f =
      let o = H.signed H.whitelisted_caller in
      let known = (root_authorizes s).1 in
      (
        prepared s,
        set_up-one C (Call.authorize_account H.whitelisted_caller) H.root s (root_authorizes s).0,
        (caller_may (Call.remove_currency ones ones) (prepared s) known).0,
        remove_currency_absent C o H.whitelisted_caller (prepared s) (new_asset_id ones ones)
            (LH.ensure_signed-signed H.whitelisted_caller) known
            (prepared-supported s (new_asset_id ones ones) ∙ f.currency),
      )

  authorize_account-Measures : (s : Storage C) → Measures BenchmarkName.authorize_account s
  unfolding benchmark set_up
  authorize_account-Measures s = (s, refl, (root_authorizes s).0, (root_authorizes s).1)

  deauthorize_account-Measures :
      (s : Storage C) → IsFresh H s → Measures BenchmarkName.deauthorize_account s
  unfolding benchmark set_up
  deauthorize_account-Measures s f = (
    s,
    refl,
    ground (
      arith,
      is_ok-dispatch C (Call.deauthorize_account H.whitelisted_caller) H.root s,
      LH.ensure_signed-root,
      LH.ensure_root-root,
    ),
    deauthorize_absent C H.root H.whitelisted_caller s LH.ensure_signed-root LH.ensure_root-root
        f.caller,
  )

  -- On a chain that does not know the accounts and the currency of the benchmarks, every
  -- benchmark's setup and measured call succeed. Those of `remove_currency` and
  -- `deauthorize_account` find nothing to remove and leave the storage as it is, and these are the
  -- two whose weight declares no write. The one of `deauthorize_account_signed` leaves an account
  -- authorized: it measures the other call. The others have the effect of their call, and one
  -- declared write.
  pub benchmark-Measures :
      (n : BenchmarkName) (s : Storage C)
      → IsFresh H s
      → Measures n s × (declared_writes n ≡ (if is_idle n then 0 else 1))
  unfolding benchmark
  benchmark-Measures BenchmarkName.add_currency s f = (
    caller_measures (Call.add_currency ones ones) s
        (λ v. v.supported (new_asset_id ones ones) ≡ true) (root_authorizes s).1 (ground arith),
    refl,
  )
  benchmark-Measures BenchmarkName.remove_currency s f = (remove_currency-Measures s f, refl)
  benchmark-Measures BenchmarkName.authorize_account s f = (authorize_account-Measures s, refl)
  benchmark-Measures BenchmarkName.authorize_account_signed s f = (
    caller_measures (Call.authorize_account H.test_account) s
        (λ v. v.authorized H.test_account ≡ true) (root_authorizes s).1 (ground arith),
    refl,
  )
  benchmark-Measures BenchmarkName.deauthorize_account s f =
      (deauthorize_account-Measures s f, refl)
  benchmark-Measures BenchmarkName.deauthorize_account_signed s f = (
    caller_measures (Call.authorize_account H.test_account) s
        (λ v. v.authorized H.test_account ≡ true) (root_authorizes s).1 (ground arith),
    refl,
  )
  benchmark-Measures BenchmarkName.set_updated_coin_infos s f = (
    caller_measures (Call.set_updated_coin_infos example_coin_infos) s
        (λ v. v.coin_info (new_asset_id twos twos) ≡ some example_info) (root_authorizes s).1
        (example_info-effect (view C (prepared s))),
    refl,
  )
  benchmark-Measures BenchmarkName.set_batching_api s f = (
    caller_measures (Call.set_batching_api example_api) s (λ v. v.batching_api ≡ some example_api)
        (root_authorizes s).1 refl,
    refl,
  )
