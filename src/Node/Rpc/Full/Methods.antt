-- ===== src/Node/Rpc/Full/Methods.antt =====
-- What a node's RPC serves.
use oracle_pallet.Prelude.{
  ◌≡◌, Bool, true, false, ◌&&◌, ◌||◌, ◌↔◌, Bool-cases, Option, none, some, arith, is_some, inl, inr,
  bytes_eq,
}
use oracle_pallet.Result.{ok, is_ok, Result-cases}
use oracle_pallet.Text.{codes}
use oracle_pallet.Pallet.Types.{Bytes, CoinInfo, CoinInfos, new_asset_id, Call}
use oracle_pallet.Pallet.Config.{Config, Storage, IsLawfulConfig}
use oracle_pallet.Pallet.Calls.{is_authorized, dispatch}
use oracle_pallet.Pallet.Oracle.{last_of}
use oracle_pallet.Node.Rpc.{Client, unwrap_or}
use oracle_pallet.Node.Rpc.Answers.{rpc_reads_update}
use oracle_pallet.Node.Rpc.Full.{RpcLibrary, FullDeps, create_full, RpcServer, Method, dia_methods}

abbrev pub or_else : {A : Type 0} → Option A → Option A → Option A
or_else (some a) o = some a
or_else none o = o

module _ {FullClient Pool : Type 0} (R : RpcLibrary FullClient Pool) {C : Config} {N : Client C}
    (S : RpcServer N) where
  -- The name is taken in both modules.
  abbrev pub shares :
      (R.RpcModule → Bytes → Option (Method S)) → R.RpcModule → R.RpcModule → Bytes → Bool
  shares method a b name = is_some (method a name) && is_some (method b name)

  -- What is documented of jsonrpsee: a merged module has the methods of both, and two modules are
  -- merged if and only if they share no name. `#[rpc(server)]` makes a module of the trait's methods.
  pub record IsLawfulRpc (client : FullClient) (method : R.RpcModule → Bytes → Option (Method S))
      : Type 0 where
    pub method-new : (name : Bytes) → method R.new name ≡ none
    pub method-merge :
        (a b m : R.RpcModule) (name : Bytes)
        → R.merge a b ≡ ok m
        → method m name ≡ or_else (method b name) (method a name)
    pub merge_apart :
        (a b : R.RpcModule)
        → ((name : Bytes) → shares method a b name ≡ false)
        → is_ok (R.merge a b) ≡ true
    pub merge_shared :
        (a b : R.RpcModule) (name : Bytes)
        → shares method a b name ≡ true
        → is_ok (R.merge a b) ≡ false
    pub method-dia_oracle : (name : Bytes) → method (R.dia_oracle client) name ≡ dia_methods S name

  module _ (deps : FullDeps R) (method : R.RpcModule → Bytes → Option (Method S))
      (L : IsLawfulRpc deps.client method) where
    abbrev system : R.RpcModule
    system = R.system deps.client deps.pool deps.deny_unsafe

    abbrev payment : R.RpcModule
    payment = R.transaction_payment deps.client

    abbrev oracle : R.RpcModule
    oracle = R.dia_oracle deps.client

    -- Some two of the three modules have the name.
    abbrev pub is_taken_twice : Bytes → Bool
    is_taken_twice name =
        shares method system payment name
        || (shares method system oracle name || shares method payment oracle name)

    -- The method of the one module that has it.
    abbrev pub served : Bytes → Option (Method S)
    served name = or_else (dia_methods S name) (or_else (method payment name) (method system name))

    -- The merge of the first module, which cannot fail.
    first_merge :
        (m : R.RpcModule) × (R.merge R.new system ≡ ok m)
        × ((name : Bytes) → method m name ≡ method system name)
    first_merge = elim (Result-cases (R.merge R.new system)) [
      | inl (m, e) ↦
          (m, e, λ name. ground (arith, L.method-merge R.new system m name e, L.method-new name))
      | inr (x, e) ↦
          let merges : is_ok (R.merge R.new system) ≡ true =
            L.merge_apart R.new system (λ name. ground (arith, L.method-new name)) in
          absurd (ground arith)
    ]

    -- Every method of a node that starts its RPC.
    pub method-create_full :
        (m : R.RpcModule) (name : Bytes) → create_full R deps ≡ ok m → method m name ≡ served name
    unfolding create_full
    method-create_full m name h =
        let (m₁, e₁, same) = first_merge in
        elim (Result-cases (R.merge m₁ payment)) [
          | inr (x, e₂) ↦ absurd (ground arith)
          | inl (m₂, e₂) ↦
              let e₃ : R.merge m₂ oracle ≡ ok m = ground arith in
              ground (
                arith,
                same name,
                L.method-merge m₁ payment m₂ name e₂,
                L.method-merge m₂ oracle m name e₃,
                L.method-dia_oracle name,
              )
        ]

    create_full_apart :
        ((name : Bytes) → is_taken_twice name ≡ false) → is_ok (create_full R deps) ≡ true
    unfolding create_full
    create_full_apart apart =
        let (m₁, e₁, same) = first_merge in
        let second : is_ok (R.merge m₁ payment) ≡ true =
          L.merge_apart m₁ payment (λ name. ground (arith, same name, apart name)) in
        elim (Result-cases (R.merge m₁ payment)) [
          | inr (x, e₂) ↦ absurd (ground arith)
          | inl (m₂, e₂) ↦
              let third : is_ok (R.merge m₂ oracle) ≡ true = L.merge_apart m₂ oracle (λ name.
                ground (arith, same name, apart name, L.method-merge m₁ payment m₂ name e₂)) in
              ground arith
        ]

    create_full_collides :
        (name : Bytes) → is_taken_twice name ≡ true → is_ok (create_full R deps) ≡ false
    unfolding create_full
    create_full_collides name twice =
        let (m₁, e₁, same) = first_merge in
        elim (Result-cases (R.merge m₁ payment)) [
          | inr (x, e₂) ↦ ground arith
          | inl (m₂, e₂) ↦ ground (
            arith,
            same name,
            L.merge_shared m₁ payment name,
            L.merge_shared m₂ oracle name,
            L.method-merge m₁ payment m₂ name e₂,
          )
        ]

    -- Over modules as jsonrpsee documents them, a node has its RPC exactly when no two of the three
    -- modules of the system, the payment and the oracle have a method of the same name.
    pub is_ok-create_full :
        (is_ok (create_full R deps) ≡ true) ↔ ((name : Bytes) → is_taken_twice name ≡ false)
    is_ok-create_full = (
      λ h name. elim (Bool-cases (is_taken_twice name)) [
        | inl twice ↦ absurd (ground (arith, create_full_collides name twice))
        | inr once ↦ once
      ],
      create_full_apart,
    )

    -- What a module answers to a request, if it has the method.
    abbrev pub respond : R.RpcModule → Bytes → S.Params → Option S.Reply
    respond m name params = elim (method m name) [ none ↦ none | some f ↦ some (f params) ]

    -- Over storage maps with the laws of FRAME and modules as jsonrpsee documents them: if a node has
    -- its RPC, and an authorized account has sent prices, then a request of `dia_getCoinInfo` or
    -- `dia_getValue` whose parameters read as a blockchain, a symbol and a block with the
    -- storage after it, the best block if none is named, is answered with the last coin info that
    -- was sent for them, or its price.
    pub request_reads_update :
        (CL : IsLawfulConfig C) (m : R.RpcModule) (params : S.Params) (b y : Bytes)
        (at : Option N.BlockHash) (cs : CoinInfos) (c : CoinInfo) (o : C.Origin) (who : C.AccountId)
        (s : Storage C)
        → create_full R deps ≡ ok m
        → S.parse params ≡ some (b, y, at)
        → C.ensure_signed o ≡ ok who
        → is_authorized C s who ≡ true
        → last_of cs (new_asset_id b y) ≡ some c
        → N.storage_at (unwrap_or at N.best_hash)
          ≡ ok (dispatch C (Call.set_updated_coin_infos cs) o s).1
        → (respond m (codes "dia_getCoinInfo") params ≡ some (S.coin_info_reply (ok c)))
          × (respond m (codes "dia_getValue") params
              ≡ some (S.price_reply (ok (record { value = c.price }))))
    unfolding dia_methods bytes_eq
    request_reads_update CL m params b y at cs c o who s starts reads signed known last here =
        let told = rpc_reads_update CL N b y at cs c o who s signed known last here in
        (
          ground (arith, method-create_full m (codes "dia_getCoinInfo") starts, told.0),
          ground (arith, method-create_full m (codes "dia_getValue") starts, told.1),
        )
