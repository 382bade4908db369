-- ===== src/Runtime/Blocks.antt =====
-- What blocks do to the oracle.
use oracle_pallet.Prelude.{
  ◌≡◌, refl, ap, false, Bool-cases, Option, none, some, List, [], ◌∷◌, map, All-split, inl, inr,
}
use oracle_pallet.Pallet.Config.{Config, IsLawfulConfig}
use oracle_pallet.Pallet.Calls.Spec.{view}
use oracle_pallet.Pallet.Calls.History.{Extrinsic, run}
use oracle_pallet.Runtime.Calls.{
  Chain, Pallets, RuntimeCall, system, timestamp, grandpa, balances, sudo, dia_oracle_module,
  dispatch_call, is_sudo,
}
use oracle_pallet.Runtime.Replays.{Replays, Replays-same, Replays-then}
use oracle_pallet.Runtime.Api.{
  Libraries, execute_block, initialize_block, apply_extrinsic, finalize_block,
}
use oracle_pallet.Runtime.Executive.{
  IsExternal, IsIsolated, ApiCall, initialize, apply, finalize, execute, imported, call_api,
  run_api, calls_of, all_calls, Reading, IsLawfulExecutive, own_call, applied, all_applied,
  if_imported, own_calls, all_own_calls, NoSudo,
}

module _ {C : Config} (L : IsLawfulConfig C) {P : Pallets C} (I : IsIsolated P) (E : Libraries P)
    (D : Reading E) (X : IsLawfulExecutive E D) where
  Replays-call :
      (c : RuntimeCall P) (o : C.Origin) (chain : Chain C P.Rest)
      → is_sudo P c ≡ false
      → IsExternal C o
      → Replays C (own_call E D c o) chain.oracle (dispatch_call P c o chain).1.oracle
  unfolding dispatch_call run
  Replays-call (system c) o chain h x = Replays-same C L _ _ (ap (view C) (I.system c o chain x))
  Replays-call (timestamp c) o chain h x =
      Replays-same C L _ _ (ap (view C) (I.timestamp c o chain))
  Replays-call (grandpa c) o chain h x = Replays-same C L _ _ (ap (view C) (I.grandpa c o chain))
  Replays-call (balances c) o chain h x = Replays-same C L _ _ (ap (view C) (I.balances c o chain))
  Replays-call (sudo c) o chain h x = cc
  Replays-call (dia_oracle_module c) o chain h x = record { reads = refl }

  Replays-passed :
      (x : E.UncheckedExtrinsic) (chain before after : Chain C P.Rest)
      → is_sudo P (D.call_of x) ≡ false
      → before.oracle ≡ chain.oracle
      → after.oracle ≡ (dispatch_call P (D.call_of x) (D.origin_of x) before).1.oracle
      → Replays C (own_call E D (D.call_of x) (D.origin_of x)) chain.oracle after.oracle
  Replays-passed x chain before after h fresh e =
      rw e (rw (← fresh) (Replays-call (D.call_of x) (D.origin_of x) before h (X.external x)))

  Replays-apply :
      (x : E.UncheckedExtrinsic) (chain : Chain C P.Rest)
      → is_sudo P (D.call_of x) ≡ false
      → Replays C (applied E D x chain) chain.oracle (apply_extrinsic E x chain).1.oracle
  unfolding apply_extrinsic
  Replays-apply x chain h = elim (Bool-cases (D.passes x chain)) [
    | inr refused ↦
        rw refused
          (Replays-same C L _ _ (ap (view C) (X.refuses (dispatch_call P) x chain refused)))
    | inl passed ↦
        let (before, fresh, e) = X.applies (dispatch_call P) x chain passed in
        rw passed (Replays-passed x chain before (apply_extrinsic E x chain).1 h fresh e)
  ]

  Replays-applies :
      (xs : List E.UncheckedExtrinsic) (chain : Chain C P.Rest)
      → NoSudo {P = P} (map D.call_of xs)
      → Replays C (all_applied E D xs chain) chain.oracle (run_api E (map apply xs) chain).oracle
  unfolding run_api
  Replays-applies [] chain h = Replays-same C L _ _ refl
  Replays-applies (x ∷ xs) chain h =
      Replays-then C L (applied E D x chain) (all_applied E D xs (apply_extrinsic E x chain).1) _ _
        _ (Replays-apply x chain h.0) (Replays-applies xs (apply_extrinsic E x chain).1 h.1)

  Replays-initialize :
      (header : E.Header) (chain : Chain C P.Rest)
      → Replays C [] chain.oracle (initialize_block E header chain).oracle
  unfolding initialize_block
  Replays-initialize header chain =
      Replays-same C L _ _ (ap (view C) (X.initialize_clears header chain))

  -- A block that is not imported changes nothing.
  Replays-imported :
      (calls : List (Extrinsic C)) (chain : Chain C P.Rest) (o : Option (Chain C P.Rest))
      → ((chain' : Chain C P.Rest) → o ≡ some chain' → Replays C calls chain.oracle chain'.oracle)
      → Replays C (if_imported E D o calls) chain.oracle (imported E o chain).oracle
  Replays-imported calls chain none h = Replays-same C L chain.oracle chain.oracle refl
  Replays-imported calls chain (some chain') h = h chain' refl

  Replays-execute :
      (block : E.Block) (chain : Chain C P.Rest)
      → NoSudo {P = P} (map D.call_of (D.extrinsics_of block))
      → Replays C
          (own_calls E D (execute block) chain)
          chain.oracle
          (imported E (execute_block E block chain) chain).oracle
  unfolding execute_block run_api
  Replays-execute block chain h =
      let first = initialize_block E (D.header_of block) chain in
      Replays-imported (all_applied E D (D.extrinsics_of block) first) chain
        (execute_block E block chain)
        (λ chain' done. rw (X.executes block chain chain' done) (
          Replays-then C L [] (all_applied E D (D.extrinsics_of block) first) _ _ _
            (Replays-initialize (D.header_of block) chain)
            (Replays-applies (D.extrinsics_of block) first h)))

  Replays-call_api :
      (c : ApiCall E) (chain : Chain C P.Rest)
      → NoSudo {P = P} (calls_of E D.call_of D.extrinsics_of c)
      → Replays C (own_calls E D c chain) chain.oracle (call_api E c chain).oracle
  unfolding finalize_block
  Replays-call_api (initialize header) chain h = Replays-initialize header chain
  Replays-call_api (apply x) chain h = Replays-apply x chain h.0
  Replays-call_api finalize chain h = Replays-same C L _ _ (ap (view C) (X.finalize_keeps chain))
  Replays-call_api (execute block) chain h = Replays-execute block chain h

  -- Over storage maps with the laws of FRAME, and pallets and an executive as they are documented:
  -- after any calls of the runtime's API by a block author or an importing node, if no extrinsic
  -- calls the sudo pallet, what can be read of the oracle is what its own calls make of what could
  -- be read before: all those of extrinsics that pass the checks, in blocks that are imported or
  -- authored, in their order, each from the origin of its extrinsic, and no others.
  pub run_api-Replays :
      (cs : List (ApiCall E)) (chain : Chain C P.Rest)
      → NoSudo {P = P} (all_calls E D.call_of D.extrinsics_of cs)
      → Replays C (all_own_calls E D cs chain) chain.oracle (run_api E cs chain).oracle
  unfolding run_api
  run_api-Replays [] chain h = Replays-same C L _ _ refl
  run_api-Replays (c ∷ cs) chain h =
      let (here, later) =
        All-split (λ x. is_sudo P x ≡ false) (calls_of E D.call_of D.extrinsics_of c)
          (all_calls E D.call_of D.extrinsics_of cs) h in
      let chain' = call_api E c chain in
      Replays-then C L (own_calls E D c chain) (all_own_calls E D cs chain') _ _ _
        (Replays-call_api c chain here) (run_api-Replays cs chain' later)
