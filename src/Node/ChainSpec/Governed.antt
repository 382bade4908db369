-- ===== src/Node/ChainSpec/Governed.antt =====
-- The pallet on a chain that is started from one of the two specifications.
use oracle_pallet.Prelude.{
  ◌≡◌, refl, ap, sym, ◌∙◌, Bool, true, false, ◌||◌, Option, none, some, List, [], arith, All, ◌==◌,
  bytes_eq, Option-cases, inl, inr, ◌⊎◌, map,
}
use oracle_pallet.Result.{Result, ok, map_ok, ok_or}
use oracle_pallet.Text.{codes}
use oracle_pallet.Pallet.Types.{Bytes, AssetId, new_asset_id, asset_id_eq}
use oracle_pallet.Pallet.Config.{Config, same_account, Storage, IsLawfulConfig}
use oracle_pallet.Pallet.Calls.{is_authorized, is_supported}
use oracle_pallet.Pallet.Calls.History.{Extrinsic, run}
use oracle_pallet.Pallet.Calls.Authority.{IsGoverned, IsNotRoot, run-IsGoverned}
use oracle_pallet.Pallet.Genesis.{build, empty_storage, build_exact}
use oracle_pallet.Node.ChainSpec.{
  Keys, RuntimeGenesis, ChainSpec, vec, get_account_id_from_seed, authority_keys_from_seed,
  testnet_genesis, genesis_from_seeds, load_spec, development_spec, local_testnet_spec,
  development_authorities, development_accounts, local_testnet_authorities, local_testnet_accounts,
}

module _ {C : Config} (L : IsLawfulConfig C) (K : Keys C) where
  abbrev first_storage : RuntimeGenesis C K → Storage C
  first_storage g = build C g.dia_oracle_module (empty_storage C)

  -- The storage of the pallet when a chain starts, as far as it can be read.
  abbrev pub StartsWith : RuntimeGenesis C K → C.AccountId → Type 0
  StartsWith g root =
      (g.sudo_key ≡ some root)
      × ((a : C.AccountId) → is_authorized C (first_storage g) a ≡ same_account C root a)
      × ((k : AssetId)
          → is_supported C (first_storage g) k
            ≡ (new_asset_id (codes "Bitcoin") (codes "BTC") == k))
      × ((first_storage g).batching_api ≡ some (codes "http://localhost:8070/currencies"))

  or_false : (b : Bool) → (b || false) ≡ b
  or_false b = ground arith

  testnet_genesis-StartsWith :
      (wasm : Bytes) (authorities : List (K.AuraId × K.GrandpaId)) (root : C.AccountId)
      (endowed : List C.AccountId)
      → StartsWith (testnet_genesis K wasm authorities root endowed true) root
  unfolding testnet_genesis
  testnet_genesis-StartsWith wasm authorities root endowed =
      let g = (testnet_genesis K wasm authorities root endowed true).dia_oracle_module in
      let any = new_asset_id [] [] in
      (
        refl,
        (λ a. (build_exact C L g a any).0 ∙ or_false _),
        (λ k. (build_exact C L g root k).1 ∙ or_false _),
        (build_exact C L g root any).2,
      )

  genesis_from_seeds-StartsWith :
      (wasm : Bytes) (authorities endowed : List Bytes) (seed : Bytes) (g : RuntimeGenesis C K)
      → genesis_from_seeds K wasm authorities seed endowed ≡ some g
      → (root : C.AccountId) × (get_account_id_from_seed K seed ≡ some root) × StartsWith g root
  unfolding genesis_from_seeds
  genesis_from_seeds-StartsWith wasm authorities endowed seed g e =
      elim (Option-cases (vec (map (authority_keys_from_seed K) authorities))) [
        | inl none_ ↦ absurd (ground arith)
        | inr (keys, e₁) ↦ elim (Option-cases (get_account_id_from_seed K seed)) [
          | inl none_ ↦ absurd (ground arith)
          | inr (root, e₂) ↦ elim (Option-cases (vec (map (get_account_id_from_seed K) endowed))) [
            | inl none_ ↦ absurd (ground arith)
            | inr (accounts, e₃) ↦
                let same : testnet_genesis K wasm keys root accounts true ≡ g = ground arith in
                (root, e₂, rw (sym same) (testnet_genesis-StartsWith wasm keys root accounts))
          ]
        ]
      ]

  -- `dev`, the empty id and `local` name the two specifications of the program.
  abbrev pub IsBuiltIn : Bytes → Type 0
  IsBuiltIn id = (id ≡ codes "dev") ⊎ ((id ≡ []) ⊎ (id ≡ codes "local"))

  -- The two specifications, when the runtime is there.
  config-StartsWith :
      (config : Bytes → ChainSpec C K) (authorities endowed : List Bytes) (wasm : Option Bytes)
      (spec : ChainSpec C K) (g : RuntimeGenesis C K)
      → ((w : Bytes)
          → (config w).constructor ≡ genesis_from_seeds K w authorities (codes "Alice") endowed)
      → map_ok config (ok_or wasm (codes "Development wasm not available")) ≡ ok spec
      → spec.constructor ≡ some g
      → (root : C.AccountId) × (K.account_from_string (codes "//Alice") ≡ some root)
        × StartsWith g root
  unfolding get_account_id_from_seed
  config-StartsWith config authorities endowed none spec g h loaded made = absurd (ground arith)
  config-StartsWith config authorities endowed (some w) spec g h loaded made =
      let same : config w ≡ spec = ground arith in
      genesis_from_seeds-StartsWith w authorities endowed (codes "Alice") g
        (sym (h w) ∙ ap (λ (c : ChainSpec C K). c.constructor) same ∙ made)

  module _ (wasm : Option Bytes) (from_json_file : Bytes → Result Bytes (ChainSpec C K)) where
    abbrev loaded_as : (Bytes → ChainSpec C K) → Result Bytes (ChainSpec C K)
    loaded_as spec = map_ok spec (ok_or wasm (codes "Development wasm not available"))

    load_spec-dev : load_spec K wasm from_json_file (codes "dev") ≡ loaded_as (development_spec K)
    unfolding load_spec bytes_eq
    load_spec-dev = refl

    load_spec-nil : load_spec K wasm from_json_file [] ≡ loaded_as (local_testnet_spec K)
    unfolding load_spec bytes_eq
    load_spec-nil = refl

    load_spec-local :
        load_spec K wasm from_json_file (codes "local") ≡ loaded_as (local_testnet_spec K)
    unfolding load_spec bytes_eq
    load_spec-local = refl

  -- Over storage maps with the laws of FRAME, if one of the two specifications of the program is
  -- loaded and its genesis can be built, then the account of `//Alice` is the sudo key and the
  -- one authorized account, Bitcoin's BTC is the one supported currency, and the endpoint is
  -- http://localhost:8070/currencies.
  pub load_spec-StartsWith :
      (wasm : Option Bytes) (from_json_file : Bytes → Result Bytes (ChainSpec C K)) (id : Bytes)
      (spec : ChainSpec C K) (g : RuntimeGenesis C K)
      → IsBuiltIn id
      → load_spec K wasm from_json_file id ≡ ok spec
      → spec.constructor ≡ some g
      → (root : C.AccountId) × (K.account_from_string (codes "//Alice") ≡ some root)
        × StartsWith g root
  unfolding development_spec local_testnet_spec
  load_spec-StartsWith wasm from_json_file id spec g (inl dev) loaded made =
      config-StartsWith (development_spec K) development_authorities development_accounts wasm spec
        g (λ w. refl)
        (sym (load_spec-dev wasm from_json_file)
          ∙ sym (ap (load_spec K wasm from_json_file) dev)
          ∙ loaded)
        made
  load_spec-StartsWith wasm from_json_file id spec g (inr (inl empty)) loaded made =
      config-StartsWith (local_testnet_spec K) local_testnet_authorities local_testnet_accounts wasm
        spec g (λ w. refl)
        (sym (load_spec-nil wasm from_json_file)
          ∙ sym (ap (load_spec K wasm from_json_file) empty)
          ∙ loaded)
        made
  load_spec-StartsWith wasm from_json_file id spec g (inr (inr local)) loaded made =
      config-StartsWith (local_testnet_spec K) local_testnet_authorities local_testnet_accounts wasm
        spec g (λ w. refl)
        (sym (load_spec-local wasm from_json_file)
          ∙ sym (ap (load_spec K wasm from_json_file) local)
          ∙ loaded)
        made

  -- Over storage maps with the laws of FRAME, if one of the two specifications of the program is
  -- loaded and its genesis can be built, then, as long as the root makes no call, some account
  -- is authorized on its chain after any calls.
  pub load_spec-IsGoverned :
      (wasm : Option Bytes) (from_json_file : Bytes → Result Bytes (ChainSpec C K)) (id : Bytes)
      (spec : ChainSpec C K) (g : RuntimeGenesis C K) (txs : List (Extrinsic C))
      → IsBuiltIn id
      → load_spec K wasm from_json_file id ≡ ok spec
      → spec.constructor ≡ some g
      → All (IsNotRoot C) txs
      → IsGoverned C (run C txs (build C g.dia_oracle_module (empty_storage C)))
  load_spec-IsGoverned wasm from_json_file id spec g txs built loaded made rootless =
      let (root, key, start) =
        load_spec-StartsWith wasm from_json_file id spec g built loaded made in
      run-IsGoverned C L txs (first_storage g) rootless (root, ground (arith, start.1 root))
