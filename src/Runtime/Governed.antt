-- ===== src/Runtime/Governed.antt =====
-- A chain of the program's own specifications, block by block.
use oracle_pallet.Prelude.{◌≡◌, ap, ◌∙◌, Option, some, List}
use oracle_pallet.Result.{Result, ok}
use oracle_pallet.Pallet.Types.{Bytes}
use oracle_pallet.Pallet.Config.{Config, IsLawfulConfig}
use oracle_pallet.Pallet.Calls.Spec.{View, view}
use oracle_pallet.Pallet.Calls.History.{run}
use oracle_pallet.Pallet.Calls.Authority.{IsGoverned}
use oracle_pallet.Pallet.Genesis.{build, empty_storage}
use oracle_pallet.Node.ChainSpec.{Keys, ChainSpec, RuntimeGenesis, load_spec}
use oracle_pallet.Node.ChainSpec.Governed.{IsBuiltIn, load_spec-IsGoverned}
use oracle_pallet.Runtime.Calls.{Chain, Pallets}
use oracle_pallet.Runtime.Api.{Libraries}
use oracle_pallet.Runtime.Rootless.{all_own_calls-IsNotRoot}
use oracle_pallet.Runtime.Blocks.{run_api-Replays}
use oracle_pallet.Runtime.Executive.{
  IsIsolated, Reading, IsLawfulExecutive, ApiCall, NoSudo, all_calls, all_own_calls, run_api,
}

module _ {C : Config} (L : IsLawfulConfig C) (K : Keys C) {P : Pallets C} (I : IsIsolated P)
    (E : Libraries P) (D : Reading E) (X : IsLawfulExecutive E D) where
  -- Over storage maps with the laws of FRAME, and pallets and an executive as they are documented:
  -- if one of the two specifications of the program is loaded and a chain begins with its genesis,
  -- then, as long as no extrinsic calls the sudo pallet, some account is authorized after any calls
  -- of the runtime's API, by authored and by imported blocks.
  pub run_api-IsGoverned :
      (wasm : Option Bytes) (from_json_file : Bytes → Result Bytes (ChainSpec C K)) (id : Bytes)
      (spec : ChainSpec C K) (g : RuntimeGenesis C K) (chain : Chain C P.Rest)
      (cs : List (ApiCall E))
      → IsBuiltIn L K id
      → load_spec K wasm from_json_file id ≡ ok spec
      → spec.constructor ≡ some g
      → chain.oracle ≡ build C g.dia_oracle_module (empty_storage C)
      → NoSudo {P = P} (all_calls E D.call_of D.extrinsics_of cs)
      → IsGoverned C (run_api E cs chain).oracle
  run_api-IsGoverned wasm from_json_file id spec g chain cs built loaded made begins calm =
      let calls = all_own_calls E D cs chain in
      let (a, known) =
        load_spec-IsGoverned L K wasm from_json_file id spec g calls built loaded made
          (all_own_calls-IsNotRoot E D X cs chain) in
      (
        a,
        ap (λ (v : View C.AccountId). v.authorized a)
              ((run_api-Replays L I E D X cs chain calm).reads
                ∙ ap (λ s. view C (run C calls s)) begins)
            ∙ known,
      )
