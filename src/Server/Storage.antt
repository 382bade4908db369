-- ===== src/Server/Storage.antt =====
-- `CoinInfoStorage` of dia-batching-server/src/storage.rs. The `ArcSwap` is one value that a store
-- replaces whole, so that a reader sees one whole map.
pub mod Answers
use oracle_pallet.Prelude.{ℕ_discrete, Option, none, some, List, [], ◌∷◌, map, Eq}
use oracle_pallet.Dict.{Dict, get, collect_into}
use oracle_pallet.Server.Types.{Text, CoinInfo, Currency}

-- `(SmolStr, SmolStr)`: a blockchain and a symbol.
abbrev pub Key : Type 0
Key = Text × Text

key_dec : Discrete Key
key_dec = hlevel ℕ_discrete

instance unfoldable pub key_eq : Eq Key
unfolding key_dec ℕ_discrete
key_eq = record { dec = key_dec }

pub record CoinInfoStorage : Type 0 where
  pub currencies_by_blockchain_and_symbol : Dict Key CoinInfo

-- `CoinInfoStorage::default`
abbrev pub default_storage : CoinInfoStorage
default_storage = record { currencies_by_blockchain_and_symbol = [] }

-- `iter.filter_map(f).collect()`
unfoldable pub filter_map : {A B : Type 0} → (A → Option B) → List A → List B
filter_map f [] = []
filter_map f (x ∷ xs) = let rest = filter_map f xs in elim (f x) [ none ↦ rest | some y ↦ y ∷ rest ]

unfoldable pub get_currencies_by_blockchains_and_symbols :
    CoinInfoStorage → List Currency → List CoinInfo
unfolding filter_map
get_currencies_by_blockchains_and_symbols storage =
    filter_map (λ c. get storage.currencies_by_blockchain_and_symbol (c.blockchain, c.symbol))

-- What was stored before is dropped.
unfoldable pub replace_currencies_by_symbols : CoinInfoStorage → List CoinInfo → CoinInfoStorage
replace_currencies_by_symbols storage currencies = record {
  currencies_by_blockchain_and_symbol =
      collect_into [] (map (λ x. ((x.blockchain, x.symbol), x)) currencies);
}
