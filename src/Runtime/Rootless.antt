-- ===== src/Runtime/Rootless.antt =====
-- The calls of the oracle that blocks replay are never the root's.
use oracle_pallet.Prelude.{Bool-cases, All-append, Option, none, some, List, [], ◌∷◌, All, inl, inr}
use oracle_pallet.Pallet.Config.{Config}
use oracle_pallet.Pallet.Calls.History.{Extrinsic}
use oracle_pallet.Pallet.Calls.Authority.{IsNotRoot}
use oracle_pallet.Runtime.Calls.{
  Chain, Pallets, RuntimeCall, system, timestamp, grandpa, balances, sudo, dia_oracle_module,
}
use oracle_pallet.Runtime.Api.{Libraries, execute_block, initialize_block, apply_extrinsic}
use oracle_pallet.Runtime.Executive.{
  IsExternal, ApiCall, initialize, apply, finalize, execute, Reading, IsLawfulExecutive, own_call,
  applied, all_applied, own_calls, if_imported, all_own_calls, call_api,
}

module _ {C : Config} {P : Pallets C} (E : Libraries P) (D : Reading E)
    (X : IsLawfulExecutive E D) where
  own_call-IsNotRoot :
      (c : RuntimeCall P) (o : C.Origin) → IsExternal C o → All (IsNotRoot C) (own_call E D c o)
  own_call-IsNotRoot (dia_oracle_module c) o x = (x, tt)
  own_call-IsNotRoot (system c) o x = tt
  own_call-IsNotRoot (timestamp c) o x = tt
  own_call-IsNotRoot (grandpa c) o x = tt
  own_call-IsNotRoot (balances c) o x = tt
  own_call-IsNotRoot (sudo c) o x = tt

  applied-IsNotRoot :
      (x : E.UncheckedExtrinsic) (chain : Chain C P.Rest) → All (IsNotRoot C) (applied E D x chain)
  applied-IsNotRoot x chain = elim (Bool-cases (D.passes x chain)) [
    | inr refused ↦ rw refused tt
    | inl passed ↦ rw passed (own_call-IsNotRoot (D.call_of x) (D.origin_of x) (X.external x))
  ]

  all_applied-IsNotRoot :
      (xs : List E.UncheckedExtrinsic) (chain : Chain C P.Rest)
      → All (IsNotRoot C) (all_applied E D xs chain)
  all_applied-IsNotRoot [] chain = tt
  all_applied-IsNotRoot (x ∷ xs) chain =
      All-append (IsNotRoot C) (applied E D x chain) _ (applied-IsNotRoot x chain)
        (all_applied-IsNotRoot xs (apply_extrinsic E x chain).1)

  if_imported-IsNotRoot :
      (o : Option (Chain C P.Rest)) (calls : List (Extrinsic C))
      → All (IsNotRoot C) calls
      → All (IsNotRoot C) (if_imported E D o calls)
  if_imported-IsNotRoot none calls h = tt
  if_imported-IsNotRoot (some chain) calls h = h

  own_calls-IsNotRoot :
      (c : ApiCall E) (chain : Chain C P.Rest) → All (IsNotRoot C) (own_calls E D c chain)
  own_calls-IsNotRoot (initialize header) chain = tt
  own_calls-IsNotRoot (apply x) chain = applied-IsNotRoot x chain
  own_calls-IsNotRoot finalize chain = tt
  own_calls-IsNotRoot (execute block) chain =
      if_imported-IsNotRoot (execute_block E block chain) _ (
        all_applied-IsNotRoot (D.extrinsics_of block)
          (initialize_block E (D.header_of block) chain))

  -- The root makes none of these calls.
  pub all_own_calls-IsNotRoot :
      (cs : List (ApiCall E)) (chain : Chain C P.Rest)
      → All (IsNotRoot C) (all_own_calls E D cs chain)
  all_own_calls-IsNotRoot [] chain = tt
  all_own_calls-IsNotRoot (c ∷ cs) chain =
      All-append (IsNotRoot C) (own_calls E D c chain) _ (own_calls-IsNotRoot c chain)
        (all_own_calls-IsNotRoot cs (call_api E c chain))
