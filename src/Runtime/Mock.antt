-- ===== src/Runtime/Mock.antt =====
-- A small runtime whose other pallets keep one number, and an executive that runs its blocks.
use oracle_pallet.Prelude.{
  ℕ, ◌+◌, ◌≡◌, refl, ap, ◌∙◌, Bool, true, Option, none, some, List, [], ◌∷◌, map,
}
use oracle_pallet.Result.{ok, is_ok}
use oracle_pallet.Pallet.Mock.{mock, MockOrigin}
use oracle_pallet.Runtime.Calls.{Chain, Pallets, RuntimeCall, Dispatcher, dispatch_call}
use oracle_pallet.Runtime.Api.{Libraries, initialize_block, apply_extrinsic}
use oracle_pallet.Runtime.Executive.{
  IsExternal, IsIsolated, Reading, IsLawfulExecutive, run_api, initialize, apply,
}

abbrev Numbered : Type 0
Numbered = Chain mock ℕ

abbrev written : ℕ → MockOrigin → Numbered → Bool × Numbered
written n o chain = (true, record chain { rest = n })

abbrev pub pallets : Pallets mock
pallets = record {
  Rest = ℕ;
  SystemCall = ℕ;
  TimestampCall = ℕ;
  GrandpaCall = ℕ;
  BalancesCall = ℕ;
  SudoCall = ℕ;
  Outcome = Bool;
  outcome = is_ok;
  system = written;
  timestamp = written;
  grandpa = written;
  balances = written;
  sudo = written;
}

pub pallets-IsIsolated : IsIsolated pallets
pallets-IsIsolated = record {
  system = λ c o chain x. refl;
  timestamp = λ c o chain. refl;
  grandpa = λ c o chain. refl;
  balances = λ c o chain. refl;
}

-- An extrinsic is signed by an account, or by nobody.
abbrev pub Unchecked : Type 0
Unchecked = Option ℕ × RuntimeCall pallets

abbrev origin_of : Option ℕ → MockOrigin
origin_of none = MockOrigin.none_origin
origin_of (some a) = MockOrigin.signed a

abbrev start : Unit {0} → Numbered → Numbered
start header chain = record chain {
  rest = chain.rest + 1;
  oracle = record (chain.oracle) { events = [] };
}

abbrev apply_one : Dispatcher pallets → Unchecked → Numbered → Bool × Numbered
apply_one d x chain = d x.1 (origin_of x.0) chain

abbrev apply_all : Dispatcher pallets → List Unchecked → Numbered → Numbered
apply_all d [] chain = chain
apply_all d (x ∷ xs) chain = apply_all d xs (apply_one d x chain).1

abbrev pub executive : Libraries pallets
executive = record {
  Header = Unit {0};
  UncheckedExtrinsic = Unchecked;
  Block = List Unchecked;
  Hash = ℕ;
  ApplyResult = Bool;
  Source = ℕ;
  Validity = Bool;
  Inherents = ℕ;
  Checked = Bool;
  AuraId = ℕ;
  GrandpaId = ℕ;
  AuthorityList = List ℕ;
  EquivocationProof = ℕ;
  KeyOwnershipProof = ℕ;
  KeyTypeId = ℕ;
  DispatchInfo = ℕ;
  FeeDetails = ℕ;
  Weight = ℕ;
  BenchmarkList = ℕ;
  StorageInfo = ℕ;
  BenchmarkConfig = ℕ;
  BenchmarkBatch = ℕ;
  execute_block = λ d block chain. some (apply_all d block (start tt chain));
  initialize_block = start;
  apply_extrinsic = apply_one;
  finalize_block = λ chain. (tt, chain);
  create_extrinsics = λ i. [];
  check_extrinsics = λ i b. true;
  validate_transaction = λ s x h chain. true;
  aura_slot_duration = 6000;
  aura_authorities = λ r. [];
  generate = λ seed. [];
  decode_into_raw_public_keys = λ encoded. none;
  grandpa_authorities = λ r. [];
  grandpa_set_id = λ r. 0;
  account_nonce = λ a r. 0;
  query_info = λ x n r. 0;
  query_fee_details = λ x n r. 0;
  weight_to_fee = λ w r. w;
  length_to_fee = λ n r. n;
  list_benchmark = λ extra. [];
  storage_info = [];
  hex = λ s. s;
  add_benchmark = λ config keys. ok [];
}

apply_all-run_api :
    (xs : List Unchecked) (chain : Numbered)
    → apply_all (dispatch_call pallets) xs chain ≡ run_api executive (map apply xs) chain
unfolding run_api apply_extrinsic
apply_all-run_api [] chain = refl
apply_all-run_api (x ∷ xs) chain =
    apply_all-run_api xs (apply_one (dispatch_call pallets) x chain).1

executed :
    (block : List Unchecked) (chain chain' : Numbered)
    → executive.execute_block (dispatch_call pallets) block chain ≡ some chain'
    → chain'.oracle ≡ (run_api executive (initialize tt ∷ map apply block) chain).oracle
unfolding run_api initialize_block
executed block chain chain' h =
    let e : chain' ≡ apply_all (dispatch_call pallets) block (start tt chain) = cc in
    ap (λ (c : Numbered). c.oracle) (e ∙ apply_all-run_api block (start tt chain))

external : (a : Option ℕ) → IsExternal mock (origin_of a)
external none = λ e. cc
external (some a) = λ e. cc

-- Every extrinsic passes.
abbrev pub reading : Reading executive
reading = record {
  call_of = λ x. x.1;
  origin_of = λ x. origin_of x.0;
  passes = λ x chain. true;
  header_of = λ block. tt;
  extrinsics_of = λ block. block;
}

pub executive-IsLawful : IsLawfulExecutive executive reading
unfolding run_api initialize_block
executive-IsLawful = record {
  initialize_clears = λ header chain. refl;
  finalize_keeps = λ chain. refl;
  external = λ x. external x.0;
  applies = λ d x chain passed. (chain, refl, refl);
  refuses = λ d x chain refused. cc;
  executes = executed;
}
