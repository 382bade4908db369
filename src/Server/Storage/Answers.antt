-- ===== src/Server/Storage/Answers.antt =====
-- What a request reads after a replacement.
use mathlib.Core.Path.{subst}
use oracle_pallet.Prelude.{
  ◌≡◌, refl, fun_ext, ◌&&◌, Option, none, some, List, [], ◌∷◌, map, arith, if◌then◌else◌, ◌==◌,
  bytes_eq, All, Option-cases, inl, inr,
}
use oracle_pallet.Dict.{Dict, get, insert, collect_into, get-insert}
use oracle_pallet.Server.Types.{Text, CoinInfo, Currency}
use oracle_pallet.Server.Storage.{
  Key, key_eq, CoinInfoStorage, filter_map, get_currencies_by_blockchains_and_symbols,
  replace_currencies_by_symbols,
}

-- The last info of a list that names this blockchain and symbol.
abbrev pub last_info : List CoinInfo → Text → Text → Option CoinInfo
last_info [] b y = none
last_info (c ∷ rest) b y = elim (last_info rest b y) [
  | some d ↦ some d
  | none ↦ if c.blockchain == b && c.symbol == y then some c else none
]

abbrev or_before : Option CoinInfo → Option CoinInfo → Option CoinInfo
or_before (some c) old = some c
or_before none old = old

abbrev keyed : List CoinInfo → List (Key × CoinInfo)
keyed = map (λ x. ((x.blockchain, x.symbol), x))

get-collect_into :
    (d : Dict Key CoinInfo) (cs : List CoinInfo) (b y : Text)
    → get (collect_into d (keyed cs)) (b, y) ≡ or_before (last_info cs b y) (get d (b, y))
unfolding collect_into
get-collect_into d [] b y = refl
get-collect_into d (c ∷ cs) b y = ground (
  arith,
  get-collect_into (insert d (c.blockchain, c.symbol) c) cs b y,
  get-insert d (c.blockchain, c.symbol) (b, y) c,
)

pub last_info-names :
    (cs : List CoinInfo) (b y : Text) (c : CoinInfo)
    → last_info cs b y ≡ some c
    → (c.blockchain ≡ b) × (c.symbol ≡ y)
last_info-names [] b y c h = cc
last_info-names (x ∷ cs) b y c h = ground (arith, last_info-names cs b y c)

pub filter_map-All :
    {A B : Type 0} (P : B → Type 0) (f : A → Option B) (xs : List A)
    → ((x : A) (y : B) → f x ≡ some y → P y)
    → All P (filter_map f xs)
unfolding filter_map
filter_map-All P f [] h = tt
filter_map-All P f (x ∷ xs) h = elim (Option-cases (f x)) [
  | inl missing ↦ rw (missing, filter_map) (filter_map-All P f xs h)
  | inr (y, known_) ↦ rw (known_, filter_map) (h x y known_, filter_map-All P f xs h)
]

pub last_info-All :
    (P : CoinInfo → Type 0) (cs : List CoinInfo) (b y : Text) (c : CoinInfo)
    → All P cs
    → last_info cs b y ≡ some c
    → P c
last_info-All P [] b y c all h = cc
last_info-All P (x ∷ cs) b y c all h = elim (Option-cases (last_info cs b y)) [
  | inl missing ↦ let e : x ≡ c = ground arith in subst P e all.0
  | inr (d, found) ↦ last_info-All P cs b y c all.1 (ground arith)
]

pub get-nil : (k : Key) → get {V = CoinInfo} [] k ≡ none
unfolding get
get-nil k = refl

pub get-replace :
    (st : CoinInfoStorage) (cs : List CoinInfo) (b y : Text)
    → get (replace_currencies_by_symbols st cs).currencies_by_blockchain_and_symbol (b, y)
      ≡ last_info cs b y
unfolding replace_currencies_by_symbols
get-replace st cs b y = ground (arith, get-collect_into [] cs b y, get-nil (b, y))

-- After a replacement, whatever was stored before, a request is answered with the last new info
-- of each currency that it names, in the order of the request, and nothing for the others.
pub get_currencies-replace :
    (st : CoinInfoStorage) (cs : List CoinInfo) (request : List Currency)
    → get_currencies_by_blockchains_and_symbols (replace_currencies_by_symbols st cs) request
      ≡ filter_map (λ r. last_info cs r.blockchain r.symbol) request
unfolding get_currencies_by_blockchains_and_symbols
get_currencies-replace st cs request =
    rw (fun_ext (λ (r : Currency). get-replace st cs r.blockchain r.symbol))

-- An answer leaves out currencies of the request and keeps the order; each info that it holds
-- names the currency that was asked for.
pub data Matches : List Currency → List CoinInfo → Type 0 where
  end : Matches [] []
  unknown :
      {r : Currency} {rs : List Currency} {cs : List CoinInfo} → Matches rs cs → Matches (r ∷ rs) cs
  known :
      {r : Currency} {rs : List Currency} {c : CoinInfo} {cs : List CoinInfo}
      → c.blockchain ≡ r.blockchain
      → c.symbol ≡ r.symbol
      → Matches rs cs
      → Matches (r ∷ rs) (c ∷ cs)

filter_map-Matches :
    (cs : List CoinInfo) (request : List Currency)
    → Matches request (filter_map (λ r. last_info cs r.blockchain r.symbol) request)
unfolding filter_map
filter_map-Matches cs [] = end
filter_map-Matches cs (r ∷ rs) = elim (Option-cases (last_info cs r.blockchain r.symbol)) [
  | inl missing ↦ rw (missing, filter_map) (unknown (filter_map-Matches cs rs))
  | inr (c, found) ↦
      let names = last_info-names cs r.blockchain r.symbol c found in
      rw (found, filter_map) (known names.0 names.1 (filter_map-Matches cs rs))
]

-- The answer to any request after a replacement keeps the order of the request, leaves out some
-- currencies, and each info that it holds names the currency that was asked for.
pub get_currencies-Matches :
    (st : CoinInfoStorage) (cs : List CoinInfo) (request : List Currency)
    → Matches request
        (get_currencies_by_blockchains_and_symbols (replace_currencies_by_symbols st cs) request)
get_currencies-Matches st cs request = rw get_currencies-replace (filter_map-Matches cs request)
