-- ===== src/Runtime/Executive.antt =====
-- What FRAME's pallets and its executive do with blocks, as far as it is documented, and the calls of
-- the oracle that blocks make.
use oracle_pallet.Prelude.{
  ◌≡◌, ◌≢◌, Bool, true, false, if◌then◌else◌, Option, none, some, List, [], ◌∷◌, ◌++◌, map, All,
}
use oracle_pallet.Pallet.Config.{Config}
use oracle_pallet.Pallet.Calls.Spec.{Sender, sender}
use oracle_pallet.Pallet.Calls.History.{Extrinsic}
use oracle_pallet.Runtime.Calls.{
  Chain, Pallets, RuntimeCall, dia_oracle_module, Dispatcher, dispatch_call, is_sudo,
}
use oracle_pallet.Runtime.Api.{
  Libraries, execute_block, initialize_block, apply_extrinsic, finalize_block,
}

-- The origin of an extrinsic: an account or nobody, and never the root.
abbrev pub IsExternal : (C : Config) → C.Origin → Type 0
IsExternal C o = sender C o ≢ Sender.root

module _ {C : Config} where
  -- What is documented of FRAME's pallets: each writes to its own storage only. The system's calls
  -- write to any storage, for the root.
  pub record IsIsolated (P : Pallets C) : Type 0 where
    pub system :
        (c : P.SystemCall) (o : C.Origin) (chain : Chain C P.Rest)
        → IsExternal C o
        → (P.system c o chain).1.oracle ≡ chain.oracle
    pub timestamp :
        (c : P.TimestampCall) (o : C.Origin) (chain : Chain C P.Rest)
        → (P.timestamp c o chain).1.oracle ≡ chain.oracle
    pub grandpa :
        (c : P.GrandpaCall) (o : C.Origin) (chain : Chain C P.Rest)
        → (P.grandpa c o chain).1.oracle ≡ chain.oracle
    pub balances :
        (c : P.BalancesCall) (o : C.Origin) (chain : Chain C P.Rest)
        → (P.balances c o chain).1.oracle ≡ chain.oracle

module _ {C : Config} {P : Pallets C} (E : Libraries P) where
  -- What a block author calls, or a node that imports a block.
  pub data ApiCall : Type 0 where
    initialize : E.Header → ApiCall
    apply : E.UncheckedExtrinsic → ApiCall
    finalize : ApiCall
    execute : E.Block → ApiCall

  -- A block whose execution panics is not imported.
  abbrev pub imported : Option (Chain C P.Rest) → Chain C P.Rest → Chain C P.Rest
  imported none chain = chain
  imported (some chain') chain = chain'

  abbrev pub call_api : ApiCall → Chain C P.Rest → Chain C P.Rest
  call_api (initialize header) chain = initialize_block E header chain
  call_api (apply x) chain = (apply_extrinsic E x chain).1
  call_api finalize chain = (finalize_block E chain).1
  call_api (execute block) chain = imported (execute_block E block chain) chain

  unfoldable pub run_api : List ApiCall → Chain C P.Rest → Chain C P.Rest
  run_api [] chain = chain
  run_api (c ∷ cs) chain = run_api cs (call_api c chain)

  -- The calls of the extrinsics, in their order.
  module _ (call_of : E.UncheckedExtrinsic → RuntimeCall P)
      (extrinsics_of : E.Block → List E.UncheckedExtrinsic) where
    abbrev pub calls_of : ApiCall → List (RuntimeCall P)
    calls_of (initialize header) = []
    calls_of (apply x) = call_of x ∷ []
    calls_of finalize = []
    calls_of (execute block) = map call_of (extrinsics_of block)

    abbrev pub all_calls : List (ApiCall) → List (RuntimeCall P)
    all_calls [] = []
    all_calls (c ∷ cs) = calls_of c ++ all_calls cs

-- How the executive takes an extrinsic: its call, the origin that its signature gives it, and
-- whether it passes the checks in this state of the chain; and the parts of a block.
pub record Reading {C : Config} {P : Pallets C} (E : Libraries P) : Type 0 where
  pub call_of : E.UncheckedExtrinsic → RuntimeCall P
  pub origin_of : E.UncheckedExtrinsic → C.Origin
  pub passes : E.UncheckedExtrinsic → Chain C P.Rest → Bool
  pub header_of : E.Block → E.Header
  pub extrinsics_of : E.Block → List E.UncheckedExtrinsic

module _ {C : Config} {P : Pallets C} (E : Libraries P) (D : Reading E) where
  -- What is documented of `frame_executive`: a block begins with no events, and no hook writes to
  -- the oracle's storage, since the oracle has none but the off-chain worker. An extrinsic that
  -- passes the checks has its call dispatched from its origin, after what its signed extensions
  -- have written, and any other is refused. A block is executed like its header and its
  -- extrinsics, one after the other.
  pub record IsLawfulExecutive : Type 0 where
    pub external : (x : E.UncheckedExtrinsic) → IsExternal C (D.origin_of x)
    pub initialize_clears :
        (header : E.Header) (chain : Chain C P.Rest)
        → (E.initialize_block header chain).oracle ≡ record (chain.oracle) { events = [] }
    pub finalize_keeps : (chain : Chain C P.Rest) → (E.finalize_block chain).1.oracle ≡ chain.oracle
    pub applies :
        (d : Dispatcher P) (x : E.UncheckedExtrinsic) (chain : Chain C P.Rest)
        → D.passes x chain ≡ true
        → (before : Chain C P.Rest) × (before.oracle ≡ chain.oracle)
          × ((E.apply_extrinsic d x chain).1.oracle
              ≡ (d (D.call_of x) (D.origin_of x) before).1.oracle)
    pub refuses :
        (d : Dispatcher P) (x : E.UncheckedExtrinsic) (chain : Chain C P.Rest)
        → D.passes x chain ≡ false
        → (E.apply_extrinsic d x chain).1.oracle ≡ chain.oracle
    pub executes :
        (block : E.Block) (chain chain' : Chain C P.Rest)
        → E.execute_block (dispatch_call P) block chain ≡ some chain'
        → chain'.oracle
          ≡ (run_api E
              (initialize (D.header_of block) ∷ map apply (D.extrinsics_of block))
              chain).oracle

  -- The calls of the oracle alone: those of the extrinsics that pass the checks, each with the
  -- origin of its extrinsic.
  abbrev pub own_call : RuntimeCall P → C.Origin → List (Extrinsic C)
  own_call (dia_oracle_module c) o = (c, o) ∷ []
  own_call c o = []

  abbrev pub applied : E.UncheckedExtrinsic → Chain C P.Rest → List (Extrinsic C)
  applied x chain = if D.passes x chain then own_call (D.call_of x) (D.origin_of x) else []

  abbrev pub all_applied : List E.UncheckedExtrinsic → Chain C P.Rest → List (Extrinsic C)
  all_applied [] chain = []
  all_applied (x ∷ xs) chain = applied x chain ++ all_applied xs (apply_extrinsic E x chain).1

  abbrev pub if_imported : Option (Chain C P.Rest) → List (Extrinsic C) → List (Extrinsic C)
  if_imported none calls = []
  if_imported (some chain) calls = calls

  abbrev pub own_calls : ApiCall E → Chain C P.Rest → List (Extrinsic C)
  own_calls (initialize header) chain = []
  own_calls (apply x) chain = applied x chain
  own_calls finalize chain = []
  own_calls (execute block) chain =
      if_imported (execute_block E block chain)
        (all_applied (D.extrinsics_of block) (initialize_block E (D.header_of block) chain))

  abbrev pub all_own_calls : List (ApiCall E) → Chain C P.Rest → List (Extrinsic C)
  all_own_calls [] chain = []
  all_own_calls (c ∷ cs) chain = own_calls c chain ++ all_own_calls cs (call_api E c chain)

-- The calls of some extrinsics contain none of the sudo pallet.
abbrev pub NoSudo : {C : Config} {P : Pallets C} → List (RuntimeCall P) → Type 0
NoSudo {P} = All (λ c. is_sudo P c ≡ false)
