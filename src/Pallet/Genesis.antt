-- ===== src/Pallet/Genesis.antt =====
-- `GenesisConfig` and its `build` of pallets/dia-oracle/src/lib.rs.
use oracle_pallet.Prelude.{◌≡◌, refl, Bool, false, ◌||◌, none, some, List, [], ◌∷◌, arith, ◌==◌, Eq}
use oracle_pallet.Frame.{StorageMap, IsLawful}
use oracle_pallet.Pallet.Types.{Bytes, CoinInfo, AssetId, asset_id_eq}
use oracle_pallet.Pallet.Config.{Config, Storage, IsLawfulConfig}
use oracle_pallet.Pallet.Calls.{is_authorized, is_supported}

module _ (C : Config) where
  pub record GenesisConfig : Type 0 where
    pub authorized_accounts : List C.AccountId
    pub supported_currencies : List AssetId
    pub batching_api : Bytes
    pub coin_infos_map : List (Bytes × CoinInfo)

-- A loop that inserts every key of a list.
insert_keys : {K : Type 0} (S : StorageMap K (Unit {0})) → List K → S.Map → S.Map
insert_keys S [] m = m
insert_keys S (k ∷ ks) m = insert_keys S ks (S.insert m k tt)

module _ (C : Config) where
  -- `GenesisConfig::default`
  abbrev pub default_genesis_config : GenesisConfig C
  default_genesis_config = record {
    authorized_accounts = [];
    supported_currencies = [];
    batching_api = [];
    coin_infos_map = [];
  }

  -- The storage of a chain before its first block.
  abbrev pub empty_storage : Storage C
  empty_storage = record {
    authorized_accounts = C.authorized.empty;
    supported_currencies = C.supported.empty;
    batching_api = none;
    coin_infos_map = C.coin_infos.empty;
    events = [];
  }

  unfoldable pub build : GenesisConfig C → Storage C → Storage C
  unfolding insert_keys
  build g s = record s {
    supported_currencies = insert_keys C.supported g.supported_currencies s.supported_currencies;
    authorized_accounts = insert_keys C.authorized g.authorized_accounts s.authorized_accounts;
    batching_api = some g.batching_api;
  }

abbrev pub contains : {K : Type 0} ⦃e : Eq K⦄ → List K → K → Bool
contains [] k = false
contains (j ∷ js) k = j == k || contains js k

contains_key-insert_keys :
    {K : Type 0} ⦃e : Eq K⦄ (S : StorageMap K (Unit {0})) (L : IsLawful S) (ks : List K) (m : S.Map)
    (k : K)
    → S.contains_key (insert_keys S ks m) k ≡ (contains ks k || S.contains_key m k)
unfolding insert_keys
contains_key-insert_keys S L [] m k = refl
contains_key-insert_keys S L (j ∷ js) m k = ground (
  arith,
  contains_key-insert_keys S L js (S.insert m j tt) k,
  L.contains_key-get (S.insert m j tt) k,
  L.contains_key-get m k,
  L.get-insert m j k tt,
)

module _ (C : Config) (L : IsLawfulConfig C) where
  -- Over storage maps with the laws of FRAME, the first storage authorizes and supports exactly
  -- what the configuration lists, has its endpoint, and holds no coin info and no event,
  -- whatever `coin_infos_map` lists.
  pub build_exact :
      (g : GenesisConfig C) (a : C.AccountId) (k : AssetId)
      → let s = build C g (empty_storage C) in
        (is_authorized C s a ≡ contains ⦃e = C.account_eq⦄ g.authorized_accounts a)
        × (is_supported C s k ≡ contains g.supported_currencies k)
        × (s.batching_api ≡ some g.batching_api)
        × (C.coin_infos.get s.coin_infos_map k ≡ none)
        × (s.events ≡ [])
  unfolding build
  build_exact g a k = (
    ground (
      arith,
      contains_key-insert_keys ⦃e = C.account_eq⦄ C.authorized L.authorized g.authorized_accounts
          C.authorized.empty a,
      L.authorized.contains_key-get C.authorized.empty a,
      L.authorized.get-empty a,
    ),
    ground (
      arith,
      contains_key-insert_keys C.supported L.supported g.supported_currencies C.supported.empty k,
      L.supported.contains_key-get C.supported.empty k,
      L.supported.get-empty k,
    ),
    refl,
    L.coin_infos.get-empty k,
    refl,
  )
