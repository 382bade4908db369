-- ===== src/Node/ChainSpec.antt =====
-- node/src/chain_spec.rs, and `load_spec` of node/src/command.rs. Keys are derived by the library
-- of crypto schemes, a parameter. A panic on a seed with no key is `none`.
pub mod Governed
use oracle_pallet.Prelude.{
  ℕ, ◌^◌, Bool, true, false, Option, none, some, List, [], ◌∷◌, ◌++◌, map, ◌==◌, bytes_eq, ◌||◌,
}
use oracle_pallet.Result.{Result, ok, err, ok_or, map_ok, and_then}
use oracle_pallet.Text.{codes}
use oracle_pallet.Pallet.Types.{Bytes, AssetId, new_asset_id}
use oracle_pallet.Pallet.Config.{Config}
use oracle_pallet.Pallet.Genesis.{GenesisConfig}

-- `Pair::from_string(text, None)` with the public key of the pair, in each scheme; for accounts
-- with `into_account`.
pub record Keys (C : Config) : Type 1 where
  pub AuraId : Type 0
  pub GrandpaId : Type 0
  pub account_from_string : Bytes → Option C.AccountId
  pub aura_from_string : Bytes → Option AuraId
  pub grandpa_from_string : Bytes → Option GrandpaId

-- The `GenesisConfig` of the runtime. `transaction_payment` is the default of its pallet.
pub record RuntimeGenesis (C : Config) (K : Keys C) : Type 0 where
  pub code : Bytes
  pub balances : List (C.AccountId × ℕ)
  pub aura : List K.AuraId
  pub grandpa : List (K.GrandpaId × ℕ)
  pub sudo_key : Option C.AccountId
  pub dia_oracle_module : GenesisConfig C

pub data ChainType : Type 0 where
  development local : ChainType

-- `ChainSpec::from_genesis(name, id, chain_type, constructor, boot_nodes, ...)`; the other
-- arguments are `None`. The constructor's panic is `none`.
pub record ChainSpec (C : Config) (K : Keys C) : Type 0 where
  pub name : Bytes
  pub id : Bytes
  pub chain_type : ChainType
  pub constructor : Option (RuntimeGenesis C K)
  pub boot_nodes : List Bytes

-- A constructor's steps may panic.
infixl 5 ◌>>=◌
abbrev ◌>>=◌ : {A B : Type 0} → Option A → (A → Option B) → Option B
none >>= f = none
some a >>= f = f a

-- `vec![...]` of values of which each may panic.
unfoldable pub vec : {A : Type 0} → List (Option A) → Option (List A)
vec [] = some []
vec (o ∷ rest) = do a ← o; as_ ← vec rest; some (a ∷ as_)

unfoldable pub get_from_seed : {A : Type 0} → (Bytes → Option A) → Bytes → Option A
get_from_seed from_string seed = from_string (codes "//" ++ seed)

-- The seeds of the initial authorities and of the accounts with funds.
abbrev pub development_authorities : List Bytes
development_authorities = codes "Alice" ∷ []

abbrev pub development_accounts : List Bytes
development_accounts = codes "Alice" ∷ codes "Bob" ∷ codes "Alice//stash" ∷ codes "Bob//stash" ∷ []

abbrev pub local_testnet_authorities : List Bytes
local_testnet_authorities = codes "Alice" ∷ codes "Bob" ∷ []

abbrev pub local_testnet_accounts : List Bytes
local_testnet_accounts =
    codes "Alice"
    ∷ codes "Bob"
    ∷ codes "Charlie"
    ∷ codes "Dave"
    ∷ codes "Eve"
    ∷ codes "Ferdie"
    ∷ codes "Alice//stash"
    ∷ codes "Bob//stash"
    ∷ codes "Charlie//stash"
    ∷ codes "Dave//stash"
    ∷ codes "Eve//stash"
    ∷ codes "Ferdie//stash"
    ∷ []

module _ {C : Config} (K : Keys C) where
  unfoldable pub get_account_id_from_seed : Bytes → Option C.AccountId
  unfolding get_from_seed
  get_account_id_from_seed = get_from_seed K.account_from_string

  unfoldable pub authority_keys_from_seed : Bytes → Option (K.AuraId × K.GrandpaId)
  unfolding get_from_seed
  authority_keys_from_seed seed = do
    aura ← get_from_seed K.aura_from_string seed
    grandpa ← get_from_seed K.grandpa_from_string seed
    some (aura, grandpa)

  unfoldable pub testnet_genesis :
      Bytes
      → List (K.AuraId × K.GrandpaId)
      → C.AccountId
      → List C.AccountId
      → Bool
      → RuntimeGenesis C K
  testnet_genesis wasm_binary initial_authorities root_key endowed_accounts _enable_println =
      record {
        code = wasm_binary;
        balances = map (λ k. (k, 2 ^ 60)) endowed_accounts;
        aura = map (λ x. x.0) initial_authorities;
        grandpa = map (λ x. (x.1, 1)) initial_authorities;
        sudo_key = some root_key;
        dia_oracle_module = record {
          authorized_accounts = root_key ∷ [];
          supported_currencies = new_asset_id (codes "Bitcoin") (codes "BTC") ∷ [];
          batching_api = codes "http://localhost:8070/currencies";
          coin_infos_map = [];
        };
      }

  -- The constructor that both specifications share: the seeds of the authorities, of the sudo
  -- account and of the accounts with funds.
  unfoldable pub genesis_from_seeds :
      Bytes → List Bytes → Bytes → List Bytes → Option (RuntimeGenesis C K)
  unfolding testnet_genesis get_account_id_from_seed authority_keys_from_seed vec
  genesis_from_seeds wasm_binary authorities root endowed = do
    initial_authorities ← vec (map authority_keys_from_seed authorities)
    root_key ← get_account_id_from_seed root
    endowed_accounts ← vec (map get_account_id_from_seed endowed)
    some (testnet_genesis wasm_binary initial_authorities root_key endowed_accounts true)

  unfoldable pub development_spec : Bytes → ChainSpec C K
  unfolding genesis_from_seeds
  development_spec wasm_binary = record {
    name = codes "Development";
    id = codes "dev";
    chain_type = ChainType.development;
    constructor =
        genesis_from_seeds wasm_binary development_authorities (codes "Alice") development_accounts;
    boot_nodes = [];
  }

  unfoldable pub local_testnet_spec : Bytes → ChainSpec C K
  unfolding genesis_from_seeds
  local_testnet_spec wasm_binary = record {
    name = codes "Local Testnet";
    id = codes "local_testnet";
    chain_type = ChainType.local;
    constructor =
        genesis_from_seeds wasm_binary local_testnet_authorities (codes "Alice")
          local_testnet_accounts;
    boot_nodes = [];
  }

  -- The argument is `WASM_BINARY`, which the build makes.
  unfoldable pub development_config : Option Bytes → Result Bytes (ChainSpec C K)
  unfolding development_spec
  development_config wasm =
      map_ok development_spec (ok_or wasm (codes "Development wasm not available"))

  unfoldable pub local_testnet_config : Option Bytes → Result Bytes (ChainSpec C K)
  unfolding local_testnet_spec
  local_testnet_config wasm =
      map_ok local_testnet_spec (ok_or wasm (codes "Development wasm not available"))

  -- `from_json_file` is a parameter.
  unfoldable pub load_spec :
      Option Bytes → (Bytes → Result Bytes (ChainSpec C K)) → Bytes → Result Bytes (ChainSpec C K)
  unfolding development_config local_testnet_config
  load_spec wasm from_json_file id = elim (id == codes "dev") [
    | true ↦ development_config wasm
    | false ↦ elim (id == [] || id == codes "local") [
      | true ↦ local_testnet_config wasm
      | false ↦ from_json_file id
    ]
  ]
