-- ===== src/Node/Benchmarking.antt =====
-- node/src/benchmarking.rs: the signed extrinsics of the node's benchmark command. The client, the
-- keyring, the payload's encoding and the signatures are the libraries', as parameters.
pub mod Eras
mod Tests
use oracle_pallet.Prelude.{
  ℕ, zero, suc, ◌*◌, ◌/◌, ◌^◌, ◌≤◌, ◌<◌, ◌≡◌, Bool, true, false, Option, none, some, List, [],
  arith, leb, ltb, if◌then◌else◌,
}
use oracle_pallet.Result.{Result, ok, err}
use oracle_pallet.Text.{codes}
use oracle_pallet.Pallet.Types.{Bytes}
use oracle_pallet.Runtime.{block_hash_count, version}
use oracle_pallet.Node.Signing.{SignedExtra, MultiAddress, id}

-- The smallest of p, 2 p, 4 p and so on that is not below n. The fuel bounds the doublings.
unfoldable pub double_to : ℕ → ℕ → ℕ → ℕ
double_to zero p n = p
double_to (suc fuel) p n = let more = double_to fuel (2 * p) n in if leb n p then p else more

-- `u32::checked_next_power_of_two`: 31 doublings of 1 reach 2^31; more overflows.
unfoldable pub checked_next_power_of_two : ℕ → Option ℕ
unfolding double_to
checked_next_power_of_two n = if leb n (2 ^ 31) then some (double_to 31 1 n) else none

-- The additional data that is signed: the versions, the genesis hash and the best hash.
pub record AdditionalSigned (Hash : Type 0) : Type 0 where
  pub spec_version : ℕ
  pub transaction_version : ℕ
  pub genesis_hash : Hash
  pub best_hash : Hash

pub record Tools : Type 1 where
  pub RuntimeCall : Type 0
  pub AccountId : Type 0
  pub Pair : Type 0
  pub Public : Type 0
  pub Signature : Type 0
  pub Hash : Type 0
  pub Era : Type 0
  pub Error : Type 0
  -- the calls `System::remark` and `Balances::transfer_keep_alive`
  pub remark : Bytes → RuntimeCall
  pub transfer_keep_alive : MultiAddress AccountId → ℕ → RuntimeCall
  -- the client
  pub block_hash : ℕ → Result Error (Option Hash)
  pub best_hash : Hash
  pub best_number : ℕ
  -- `Sr25519Keyring::Bob.pair()`, and what is done with a pair
  pub bob : Pair
  pub public : Pair → Public
  pub account : Public → AccountId
  pub sign : Pair → Bytes → Signature
  pub mortal : ℕ → ℕ → Era
  -- `SignedPayload::from_raw(..).using_encoded`
  pub encode_payload : RuntimeCall → SignedExtra Era → AdditionalSigned Hash → Bytes

pub record UncheckedExtrinsic (T : Tools) : Type 0 where
  pub call : T.RuntimeCall
  pub address : MultiAddress T.AccountId
  pub signature : T.Signature
  pub extra : SignedExtra T.Era

-- `checked_next_power_of_two().map(|c| c / 2).unwrap_or(2)`
unfoldable pub half_or_two : Option ℕ → ℕ
half_or_two none = 2
half_or_two (some c) = c / 2

unfoldable pub benchmark_period : ℕ
unfolding half_or_two checked_next_power_of_two
benchmark_period = half_or_two (checked_next_power_of_two block_hash_count)

module _ (T : Tools) where
  -- `.ok().flatten().expect(..)`: a panic is `none`.
  unfoldable pub expect_hash : Result T.Error (Option T.Hash) → Option T.Hash
  expect_hash (ok (some h)) = some h
  expect_hash (ok none) = none
  expect_hash (err e) = none

  abbrev pub benchmark_extra : ℕ → SignedExtra T.Era
  benchmark_extra nonce = record {
    era = T.mortal benchmark_period T.best_number;
    nonce = nonce;
    tip = 0;
  }

  abbrev pub additional : T.Hash → AdditionalSigned T.Hash
  additional genesis_hash = record {
    spec_version = version.spec_version;
    transaction_version = version.transaction_version;
    genesis_hash = genesis_hash;
    best_hash = T.best_hash;
  }

  unfoldable pub create_benchmark_extrinsic :
      T.Pair → T.RuntimeCall → ℕ → Option (UncheckedExtrinsic T)
  unfolding expect_hash
  create_benchmark_extrinsic sender call nonce = elim (expect_hash (T.block_hash 0)) [
    | none ↦ none
    | some genesis_hash ↦ some (record {
      call = call;
      address = id (T.account (T.public sender));
      signature =
          T.sign sender (T.encode_payload call (benchmark_extra nonce) (additional genesis_hash));
      extra = benchmark_extra nonce;
    })
  ]

  -- `RemarkBuilder::build`
  unfoldable pub build_remark : ℕ → Option (UncheckedExtrinsic T)
  unfolding create_benchmark_extrinsic
  build_remark nonce = create_benchmark_extrinsic T.bob (T.remark []) nonce

  pub record TransferKeepAliveBuilder : Type 0 where
    pub dest : T.AccountId
    pub value : ℕ

  -- `TransferKeepAliveBuilder::build`
  unfoldable pub build_transfer : TransferKeepAliveBuilder → ℕ → Option (UncheckedExtrinsic T)
  unfolding create_benchmark_extrinsic
  build_transfer b nonce =
      create_benchmark_extrinsic T.bob (T.transfer_keep_alive (id b.dest) b.value) nonce
