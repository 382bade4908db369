-- ===== src/Runtime.antt =====
-- The constants of runtime/src/lib.rs. Weights are `(ref_time, proof_size)`, and a ratio counts
-- hundredths.
pub mod Calls
pub mod Api
pub mod Replays
pub mod Executive
pub mod Blocks
pub mod Rootless
pub mod Governed
mod Mock
mod Tests
use oracle_pallet.Prelude.{ℕ, ◌-◌, ◌*◌, ◌/◌, ◌^◌}
use oracle_pallet.Text.{codes}
use oracle_pallet.Pallet.Types.{Bytes}

pub record RuntimeVersion : Type 0 where
  pub spec_name : Bytes
  pub impl_name : Bytes
  pub authoring_version : ℕ
  pub spec_version : ℕ
  pub impl_version : ℕ
  pub transaction_version : ℕ
  pub state_version : ℕ

-- `VERSION`, without the list of APIs that a macro makes.
abbrev pub version : RuntimeVersion
version = record {
  spec_name = codes "node-template";
  impl_name = codes "node-template";
  authoring_version = 1;
  spec_version = 100;
  impl_version = 1;
  transaction_version = 1;
  state_version = 1;
}

abbrev pub millisecs_per_block : ℕ
millisecs_per_block = 6000

abbrev pub slot_duration : ℕ
slot_duration = millisecs_per_block

-- Times in blocks.
abbrev pub minutes : ℕ
minutes = 60_000 / millisecs_per_block

abbrev pub hours : ℕ
hours = minutes * 60

abbrev pub days : ℕ
days = hours * 24

abbrev pub normal_dispatch_ratio : ℕ
normal_dispatch_ratio = 75

abbrev pub block_hash_count : ℕ
block_hash_count = 2400

-- What `BlockWeights` and `BlockLength` are made of, from the reference time of a second.
abbrev pub max_block_weight : ℕ → ℕ × ℕ
max_block_weight weight_ref_time_per_second = (2 * weight_ref_time_per_second, 2 ^ 64 - 1)

abbrev pub max_block_length : ℕ
max_block_length = 5 * 1024 * 1024

abbrev pub ss58_prefix : ℕ
ss58_prefix = 42

abbrev pub max_authorities : ℕ
max_authorities = 32

abbrev pub minimum_period : ℕ
minimum_period = slot_duration / 2

abbrev pub existential_deposit : ℕ
existential_deposit = 500

abbrev pub max_locks : ℕ
max_locks = 50
