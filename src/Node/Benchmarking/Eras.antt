-- ===== src/Node/Benchmarking/Eras.antt =====
-- How long the signed transactions of the node stay valid, beside the block hashes that it keeps.
use native.Mathlib.Numerals.{unary_clauses}
use oracle_pallet.Prelude.{ℕ, zero, suc, ◌+◌, ◌-◌, ◌*◌, ◌^◌, ◌≤◌, ◌<◌, ◌≡◌, Bool, some, arith}
use oracle_pallet.Pallet.Types.{Bytes}
use oracle_pallet.Runtime.{block_hash_count}
use oracle_pallet.Node.Signing.{
  SignedExtra, MultiAddress, Signing, IsLawfulSigning, create_transaction_signs, create_transaction,
}
use oracle_pallet.Node.Benchmarking.{
  Tools, UncheckedExtrinsic, double_to, checked_next_power_of_two, benchmark_period,
  create_benchmark_extrinsic, benchmark_extra, expect_hash,
}

pow_step : (p fuel n : ℕ) → n ≤ p * 2 ^ suc fuel → n ≤ 2 * p * 2 ^ fuel
pow_step p fuel n h = grind (arith, simp unary_clauses at h)

double_to_bounds :
    (fuel p n : ℕ)
    → 1 ≤ p
    → p < 2 * n
    → n ≤ p * 2 ^ fuel
    → (n ≤ double_to fuel p n) × (double_to fuel p n < 2 * n)
unfolding double_to
double_to_bounds zero p n one below enough = (grind arith, below)
double_to_bounds (suc fuel) p n one below enough =
    let more : n ≤ 2 * p * 2 ^ fuel = pow_step p fuel n enough in
    ground (arith, double_to_bounds fuel (2 * p) n (omega arith))

-- The fuel is enough: the result is not below the number, and below its double.
checked_next_power_of_two_bounds :
    (n : ℕ)
    → 1 ≤ n
    → n ≤ 2 ^ 31
    → (p : ℕ) × (checked_next_power_of_two n ≡ some p) × (n ≤ p) × (p < 2 * n)
unfolding checked_next_power_of_two
checked_next_power_of_two_bounds n one small =
    let (lo, hi) = double_to_bounds 31 1 n (omega arith) (omega arith) (omega arith) in
    (double_to 31 1 n, ground arith, lo, hi)

-- What is documented of `Era::mortal`: a period between 4 and 2^16 is rounded up to a power of two.
unfoldable pub RoundsUp : {Era : Type 0} → (Era → ℕ) → (ℕ → ℕ → Era) → Type 0
RoundsUp period_of mortal =
    (p current : ℕ) → 4 ≤ p → p ≤ 2 ^ 16 → period_of (mortal p current) ≡ double_to 16 1 p

-- What is documented of an era whose period is at most 4096: from the block that it was made at,
-- for as many blocks as the period, this block is its birth, over whose hash it is signed.
unfoldable pub IsBornAt : {Era : Type 0} → (Era → ℕ → ℕ) → (ℕ → ℕ → Era) → Type 0
IsBornAt birth mortal =
    (p current n : ℕ)
    → double_to 16 1 p ≤ 4096
    → current ≤ n
    → n < current + double_to 16 1 p
    → birth (mortal p current) n ≡ current

module _ (S : Signing) (period_of : S.Era → ℕ) (R : RoundsUp period_of S.mortal)
    (birth : S.Era → ℕ → ℕ) (B : IsBornAt birth S.mortal)
    (verify : S.Signature → Bytes → S.Public → Bool) (L : IsLawfulSigning S verify) where
  signed_period : period_of (S.mortal block_hash_count (S.block_number - 1)) ≡ 4096
  unfolding RoundsUp double_to
  signed_period = R block_hash_count (S.block_number - 1) (omega arith) (omega arith)

  signed_birth :
      (n : ℕ)
      → S.block_number - 1 ≤ n
      → n < S.block_number - 1 + 4096
      → birth (S.mortal block_hash_count (S.block_number - 1)) n ≡ S.block_number - 1
  unfolding IsBornAt double_to
  signed_birth n lo hi = B block_hash_count (S.block_number - 1) n (omega arith) lo hi

  -- If an era's period is rounded up to a power of two, and an era is born at the block that it was
  -- made at, as documented, then a transaction that the off-chain worker signs has the period
  -- 4096, and in each block of the period that is more than `block_hash_count` after the birth,
  -- the hash that it is signed over is that of a block further back than the number of block
  -- hashes that the chain keeps.
  pub create_transaction_period :
      (call call' : S.RuntimeCall) (public : S.Public) (account : S.AccountId) (index : ℕ)
      (address : MultiAddress S.AccountId) (signature : S.Signature) (extra : SignedExtra S.Era)
      (n : ℕ)
      → create_transaction S call public account index ≡ some (call', address, signature, extra)
      → S.block_number - 1 + block_hash_count < n
      → n < S.block_number - 1 + period_of extra.era
      → (period_of extra.era ≡ 4096)
        × (birth extra.era n ≡ S.block_number - 1)
        × (birth extra.era n + block_hash_count < n)
  create_transaction_period call call' public account index address signature extra n h late alive =
      let same =
        (create_transaction_signs S verify L call call' public account index address signature extra
          h).4 in
      let p : period_of extra.era ≡ 4096 = rw same signed_period in
      let b : birth extra.era n ≡ S.block_number - 1 =
        rw same (signed_birth n (omega arith) (omega (arith, alive, p))) in
      (p, b, omega (arith, b, late))

module _ (T : Tools) (period_of : T.Era → ℕ) (R : RoundsUp period_of T.mortal) where
  benchmark_extra_period : (nonce : ℕ) → period_of (benchmark_extra T nonce).era ≡ 2048
  unfolding RoundsUp double_to benchmark_period
  benchmark_extra_period nonce = R 2048 T.best_number (omega arith) (omega arith)

  -- If an era's period is rounded up to a power of two, as documented, then an extrinsic that is
  -- built for a benchmark has the period 2048, which is not above the number of block hashes that
  -- the chain keeps.
  pub create_benchmark_extrinsic_period :
      (sender : T.Pair) (call : T.RuntimeCall) (nonce : ℕ) (x : UncheckedExtrinsic T)
      → create_benchmark_extrinsic T sender call nonce ≡ some x
      → (period_of x.extra.era ≡ 2048) × (period_of x.extra.era ≤ block_hash_count)
  unfolding create_benchmark_extrinsic expect_hash
  create_benchmark_extrinsic_period sender call nonce x h =
      let p : period_of x.extra.era ≡ 2048 = ground (arith, benchmark_extra_period nonce) in
      (p, omega (arith, p))
