-- ===== src/Node/Benchmarking/Tests.antt =====
-- Transactions whose eras round their periods up, and what the theorems say of them.
use oracle_pallet.Prelude.{◌+◌, ℕ, ◌≡◌, ◌<◌, refl, Bool, some, List, [], ◌∷◌, arith, ◌==◌, bytes_eq}
use oracle_pallet.Result.{ok}
use oracle_pallet.Runtime.{block_hash_count}
use oracle_pallet.Node.Signing.{
  SignedExtra, MultiAddress, Signing, IsLawfulSigning, create_transaction,
}
use oracle_pallet.Node.Benchmarking.{Tools, UncheckedExtrinsic, double_to, benchmark_extra}
use oracle_pallet.Node.Benchmarking.Eras.{RoundsUp, IsBornAt, create_transaction_period}

-- An era is its period and the block that it is made at.
abbrev mortal : ℕ → ℕ → ℕ × ℕ
mortal period current = (double_to 16 1 period, current)

abbrev period_of : ℕ × ℕ → ℕ
period_of e = e.0

mortal-RoundsUp : RoundsUp period_of mortal
unfolding RoundsUp
mortal-RoundsUp p current low high = refl

abbrev signing : Signing
signing = record {
  RuntimeCall = ℕ;
  AccountId = ℕ;
  Public = ℕ;
  Signature = List ℕ;
  Era = ℕ × ℕ;
  Payload = ℕ × SignedExtra (ℕ × ℕ);
  block_number = 7;
  mortal = mortal;
  new_payload = λ call extra. some (call, extra);
  encode = λ (call, extra). call ∷ extra.nonce ∷ [];
  deconstruct = λ p. p;
  sign = λ message key. some (key ∷ message);
}

abbrev accepts : List ℕ → List ℕ → ℕ → Bool
accepts signature message key = ◌==◌ ⦃e = bytes_eq⦄ signature (key ∷ message)

signing-IsLawful : IsLawfulSigning signing accepts
signing-IsLawful = record {
  deconstruct-new = λ call extra p made. ground arith;
  verify-sign = λ message key s signed. ground arith;
}

-- Every era is born where it was made.
abbrev birth : ℕ × ℕ → ℕ → ℕ
birth e n = e.1

mortal-IsBornAt : IsBornAt birth mortal
unfolding IsBornAt
mortal-IsBornAt p current n small lo hi = refl

-- Made in block 7, seen in block 4000.
abbrev five : SignedExtra (ℕ × ℕ)
five = record { era = (4096, 6); nonce = 5; tip = 0 }

made_in_seven :
    create_transaction signing 3 9 3 5 ≡ some (3, MultiAddress.id 3, 9 ∷ 3 ∷ 5 ∷ [], five)
unfolding create_transaction double_to
made_in_seven = refl

create_transaction_period_example :
    (period_of five.era ≡ 4096)
    × (birth five.era 4000 ≡ 6)
    × (birth five.era 4000 + block_hash_count < 4000)
create_transaction_period_example =
    create_transaction_period signing period_of mortal-RoundsUp birth mortal-IsBornAt accepts
      signing-IsLawful 3 3 9 3 5 (MultiAddress.id 3) (9 ∷ 3 ∷ 5 ∷ []) five 4000 made_in_seven
      (omega arith) (omega arith)

-- A pair is its public key, and the genesis hash is 1.
abbrev tools : Tools
tools = record {
  RuntimeCall = ℕ;
  AccountId = ℕ;
  Pair = ℕ;
  Public = ℕ;
  Signature = List ℕ;
  Hash = ℕ;
  Era = ℕ × ℕ;
  Error = Unit {0};
  remark = λ bytes. 0;
  transfer_keep_alive = λ dest value. 1;
  block_hash = λ n. ok (some 1);
  best_hash = 8;
  best_number = 7;
  bob = 2;
  public = λ pair. pair;
  account = λ public. public;
  sign = λ pair message. pair ∷ message;
  mortal = mortal;
  encode_payload = λ call extra more. call ∷ extra.nonce ∷ [];
}

abbrev extrinsic : UncheckedExtrinsic tools
extrinsic = record {
  call = 3;
  address = MultiAddress.id 2;
  signature = 2 ∷ 3 ∷ 5 ∷ [];
  extra = benchmark_extra tools 5;
}
