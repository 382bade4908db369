-- ===== src/Node/Signing.antt =====
-- `create_transaction` of runtime/src/lib.rs, by which the off-chain worker's calls are signed. The
-- payload, its encoding, the era and the keys are the libraries', as parameters.
use mathlib.Core.Path.{subst}
use oracle_pallet.Prelude.{
  ℕ, ◌-◌, ◌≡◌, ap, sym, Bool, true, Option, none, some, arith, Option-cases, inl, inr,
}
use oracle_pallet.Pallet.Types.{Bytes}
use oracle_pallet.Runtime.{block_hash_count}

-- `SignedExtra`; the checks that hold no value are left out.
pub record SignedExtra (Era : Type 0) : Type 0 where
  pub era : Era
  pub nonce : ℕ
  pub tip : ℕ

-- `sp_runtime::MultiAddress`, of which the runtime makes ids only.
pub data MultiAddress (A : Type 0) : Type 0 where
  id : A → MultiAddress A

-- The state and the libraries that the runtime calls: `System::block_number`, `Era::mortal`,
-- `SignedPayload::new`, `using_encoded`, `deconstruct` and `C::sign`.
pub record Signing : Type 1 where
  pub RuntimeCall : Type 0
  pub AccountId : Type 0
  pub Public : Type 0
  pub Signature : Type 0
  pub Era : Type 0
  pub Payload : Type 0
  pub block_number : ℕ
  pub mortal : ℕ → ℕ → Era
  pub new_payload : RuntimeCall → SignedExtra Era → Option Payload
  pub encode : Payload → Bytes
  pub deconstruct : Payload → RuntimeCall × SignedExtra Era
  pub sign : Bytes → Public → Option Signature

-- What is documented of the libraries: a payload holds what it is made of, and a signature is
-- accepted by the check of signatures.
pub record IsLawfulSigning (S : Signing) (verify : S.Signature → Bytes → S.Public → Bool)
    : Type 0 where
  pub deconstruct-new :
      (call : S.RuntimeCall) (extra : SignedExtra S.Era) (p : S.Payload)
      → S.new_payload call extra ≡ some p
      → S.deconstruct p ≡ (call, extra)
  pub verify-sign :
      (message : Bytes) (public : S.Public) (s : S.Signature)
      → S.sign message public ≡ some s
      → verify s message public ≡ true

infixl 5 ◌>>=◌
abbrev ◌>>=◌ : {A B : Type 0} → Option A → (A → Option B) → Option B
none >>= f = none
some a >>= f = f a

module _ (S : Signing) where
  -- A call with its signature payload, as `create_transaction` gives it.
  abbrev pub Transaction : Type 0
  Transaction = S.RuntimeCall × MultiAddress S.AccountId × S.Signature × SignedExtra S.Era

  -- `-` stops at 0, as `saturating_sub` does.
  abbrev pub signed_extra : ℕ → SignedExtra S.Era
  signed_extra index = record {
    era = S.mortal block_hash_count (S.block_number - 1);
    nonce = index;
    tip = 0;
  }

  unfoldable pub create_transaction :
      S.RuntimeCall → S.Public → S.AccountId → ℕ → Option Transaction
  create_transaction call public account index = do
    raw_payload ← S.new_payload call (signed_extra index)
    signature ← S.sign (S.encode raw_payload) public
    let (call', extra) = S.deconstruct raw_payload
    some (call', MultiAddress.id account, signature, extra)

module _ (S : Signing) (verify : S.Signature → Bytes → S.Public → Bool)
    (L : IsLawfulSigning S verify) where
  -- With the documented laws of the payload and of signatures: a transaction that is created
  -- holds the call and the account as they were given, the nonce given, no tip, and the era of
  -- `block_hash_count` blocks at the block before the current one, or at block 0 if there is none,
  -- and its signature is accepted for the payload of this call and these extras under the public
  -- key.
  pub create_transaction_signs :
      (call call' : S.RuntimeCall) (public : S.Public) (account : S.AccountId) (index : ℕ)
      (address : MultiAddress S.AccountId) (signature : S.Signature) (extra : SignedExtra S.Era)
      → create_transaction S call public account index ≡ some (call', address, signature, extra)
      → (call' ≡ call)
        × (address ≡ MultiAddress.id account)
        × (extra.nonce ≡ index)
        × (extra.tip ≡ 0)
        × (extra.era ≡ S.mortal block_hash_count (S.block_number - 1))
        × ((p : S.Payload) × (S.new_payload call extra ≡ some p)
            × (verify signature (S.encode p) public ≡ true))
  unfolding create_transaction
  create_transaction_signs call call' public account index address signature extra h =
      elim (Option-cases (S.new_payload call (signed_extra S index))) [
        | inl unmade ↦ absurd (ground arith)
        | inr (p, made) ↦ elim (Option-cases (S.sign (S.encode p) public)) [
          | inl unsigned ↦ absurd (ground arith)
          | inr (s, signed) ↦
              let parts = L.deconstruct-new call (signed_extra S index) p made in
              let valid = L.verify-sign (S.encode p) public s signed in
              let e : signed_extra S index ≡ extra = ground arith in
              (
                ground arith,
                ground arith,
                ap (λ (x : SignedExtra S.Era). x.nonce) (sym e),
                ap (λ (x : SignedExtra S.Era). x.tip) (sym e),
                ap (λ (x : SignedExtra S.Era). x.era) (sym e),
                (p, subst (λ x. S.new_payload call x ≡ some p) e made, ground arith),
              )
        ]
      ]
