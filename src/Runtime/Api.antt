-- ===== src/Runtime/Api.antt =====
-- `impl_runtime_apis!` of runtime/src/lib.rs, over the libraries that the runtime calls. What changes
-- the chain takes and gives it. The API of the oracle is in Node/Rpc.
use oracle_pallet.Prelude.{ℕ, Bool, Option, none, List, [], ◌∷◌, map}
use oracle_pallet.Result.{Result, ok, err, and_then}
use oracle_pallet.Text.{codes}
use oracle_pallet.Pallet.Types.{Bytes}
use oracle_pallet.Pallet.Config.{Config}
use oracle_pallet.Runtime.{RuntimeVersion, version}
use oracle_pallet.Runtime.Calls.{Chain, Pallets, Dispatcher, dispatch_call}

-- `frame_executive::Executive`, and the functions of the pallets that the APIs pass on.
pub record Libraries {C : Config} (P : Pallets C) : Type 1 where
  pub Header : Type 0
  pub UncheckedExtrinsic : Type 0
  pub Block : Type 0
  pub Hash : Type 0
  pub ApplyResult : Type 0
  pub Source : Type 0
  pub Validity : Type 0
  pub Inherents : Type 0
  pub Checked : Type 0
  pub AuraId : Type 0
  pub GrandpaId : Type 0
  pub AuthorityList : Type 0
  pub EquivocationProof : Type 0
  pub KeyOwnershipProof : Type 0
  pub KeyTypeId : Type 0
  pub DispatchInfo : Type 0
  pub FeeDetails : Type 0
  pub Weight : Type 0
  pub BenchmarkList : Type 0
  pub StorageInfo : Type 0
  pub BenchmarkConfig : Type 0
  pub BenchmarkBatch : Type 0
  -- a panic is `none`
  pub execute_block : Dispatcher P → Block → Chain C P.Rest → Option (Chain C P.Rest)
  pub initialize_block : Header → Chain C P.Rest → Chain C P.Rest
  pub apply_extrinsic :
      Dispatcher P → UncheckedExtrinsic → Chain C P.Rest → ApplyResult × Chain C P.Rest
  pub finalize_block : Chain C P.Rest → Header × Chain C P.Rest
  pub create_extrinsics : Inherents → List UncheckedExtrinsic
  pub check_extrinsics : Inherents → Block → Checked
  pub validate_transaction : Source → UncheckedExtrinsic → Hash → Chain C P.Rest → Validity
  pub aura_slot_duration : ℕ
  pub aura_authorities : P.Rest → List AuraId
  pub generate : Option Bytes → Bytes
  pub decode_into_raw_public_keys : Bytes → Option (List (Bytes × KeyTypeId))
  pub grandpa_authorities : P.Rest → AuthorityList
  pub grandpa_set_id : P.Rest → ℕ
  pub account_nonce : C.AccountId → P.Rest → ℕ
  pub query_info : UncheckedExtrinsic → ℕ → P.Rest → DispatchInfo
  pub query_fee_details : UncheckedExtrinsic → ℕ → P.Rest → FeeDetails
  pub weight_to_fee : Weight → P.Rest → ℕ
  pub length_to_fee : ℕ → P.Rest → ℕ
  pub list_benchmark : Bool → List BenchmarkList
  pub storage_info : List StorageInfo
  -- `hex!`, and `add_benchmark!` with the whitelisted keys
  pub hex : Bytes → Bytes
  pub add_benchmark : BenchmarkConfig → List Bytes → Result Bytes (List BenchmarkBatch)

module _ {C : Config} {P : Pallets C} (E : Libraries P) where
  abbrev pub core_version : RuntimeVersion
  core_version = version

  unfoldable pub execute_block : E.Block → Chain C P.Rest → Option (Chain C P.Rest)
  execute_block block = E.execute_block (dispatch_call P) block

  unfoldable pub initialize_block : E.Header → Chain C P.Rest → Chain C P.Rest
  initialize_block header = E.initialize_block header

  unfoldable pub apply_extrinsic :
      E.UncheckedExtrinsic → Chain C P.Rest → E.ApplyResult × Chain C P.Rest
  apply_extrinsic extrinsic = E.apply_extrinsic (dispatch_call P) extrinsic

  unfoldable pub finalize_block : Chain C P.Rest → E.Header × Chain C P.Rest
  finalize_block = E.finalize_block

  unfoldable pub inherent_extrinsics : E.Inherents → List E.UncheckedExtrinsic
  inherent_extrinsics inherents = E.create_extrinsics inherents

  unfoldable pub check_inherents : E.Block → E.Inherents → E.Checked
  check_inherents block inherents = E.check_extrinsics inherents block

  unfoldable pub validate_transaction :
      E.Source → E.UncheckedExtrinsic → E.Hash → Chain C P.Rest → E.Validity
  validate_transaction source tx block_hash = E.validate_transaction source tx block_hash

  -- In milliseconds.
  unfoldable pub aura_slot_duration : ℕ
  aura_slot_duration = E.aura_slot_duration

  unfoldable pub aura_authorities : Chain C P.Rest → List E.AuraId
  aura_authorities chain = E.aura_authorities chain.rest

  unfoldable pub generate_session_keys : Option Bytes → Bytes
  generate_session_keys seed = E.generate seed

  unfoldable pub decode_session_keys : Bytes → Option (List (Bytes × E.KeyTypeId))
  decode_session_keys encoded = E.decode_into_raw_public_keys encoded

  unfoldable pub grandpa_authorities : Chain C P.Rest → E.AuthorityList
  grandpa_authorities chain = E.grandpa_authorities chain.rest

  unfoldable pub current_set_id : Chain C P.Rest → ℕ
  current_set_id chain = E.grandpa_set_id chain.rest

  -- Equivocations are not reported.
  unfoldable pub submit_report_equivocation :
      E.EquivocationProof → E.KeyOwnershipProof → Option (Unit {0})
  submit_report_equivocation equivocation_proof key_owner_proof = none

  unfoldable pub generate_key_ownership_proof : ℕ → E.GrandpaId → Option E.KeyOwnershipProof
  generate_key_ownership_proof set_id authority_id = none

  unfoldable pub account_nonce : C.AccountId → Chain C P.Rest → ℕ
  account_nonce account chain = E.account_nonce account chain.rest

  unfoldable pub query_info : E.UncheckedExtrinsic → ℕ → Chain C P.Rest → E.DispatchInfo
  query_info uxt len chain = E.query_info uxt len chain.rest

  unfoldable pub query_fee_details : E.UncheckedExtrinsic → ℕ → Chain C P.Rest → E.FeeDetails
  query_fee_details uxt len chain = E.query_fee_details uxt len chain.rest

  unfoldable pub query_weight_to_fee : E.Weight → Chain C P.Rest → ℕ
  query_weight_to_fee weight chain = E.weight_to_fee weight chain.rest

  unfoldable pub query_length_to_fee : ℕ → Chain C P.Rest → ℕ
  query_length_to_fee length chain = E.length_to_fee length chain.rest

  unfoldable pub benchmark_metadata : Bool → List E.BenchmarkList × List E.StorageInfo
  benchmark_metadata extra = (E.list_benchmark extra, E.storage_info)

  -- The block number, the total issuance, the execution phase, and the event count and events.
  abbrev whitelist : List Bytes
  whitelist =
      map (λ key. E.hex key)
        (codes "26aa394eea5630e07c48ae0c9558cef702a5c1b19ab7a04f536c519aca4983ac"
          ∷ codes "c2261276cc9d1f8598ea4b6a74b15c2f57c875e4cff74148e4628f264b974c80"
          ∷ codes "26aa394eea5630e07c48ae0c9558cef7ff553b5a9862a516939d82b3d3d8661a"
          ∷ codes "26aa394eea5630e07c48ae0c9558cef70a98fdbe9ce6c55837576c60c7af3850"
          ∷ codes "26aa394eea5630e07c48ae0c9558cef780d41e5e16056765bc8461851072c9d7"
          ∷ [])

  unfoldable pub dispatch_benchmark : E.BenchmarkConfig → Result Bytes (List E.BenchmarkBatch)
  dispatch_benchmark config = and_then (E.add_benchmark config whitelist) (λ batches. elim batches [
    | [] ↦ err (codes "Benchmark not found for this pallet.")
    | b ∷ bs ↦ ok (b ∷ bs)
  ])
