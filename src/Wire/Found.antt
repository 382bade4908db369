-- ===== src/Wire/Found.antt =====
-- The infos that the server finds for a request, and what the worker reads of them.
use oracle_pallet.Prelude.{
  ◌≡◌, ap, ◌∙◌, Bool, true, false, ◌&&◌, ◌||◌, Option, none, some, List, [], ◌∷◌, map, arith,
  if◌then◌else◌, All, bytes_eq, ◌==◌, Option-cases, ◌⊎◌, inl, inr,
}
use oracle_pallet.Text.{encode_utf8}
use oracle_pallet.Pallet.Types.{
  Bytes, AssetId, new_asset_id, asset_id_eq, Call, module_error, no_coin_info_available,
  deserialize_error,
}
use oracle_pallet.Pallet.Types
use oracle_pallet.Pallet.Worker.Delivery
use oracle_pallet.Pallet.Worker.Delivery.{worker_to_chain}
use oracle_pallet.Server.Types.{CoinInfo}
use oracle_pallet.Server.Storage.{filter_map}
use oracle_pallet.Server.Storage.Answers.{last_info, last_info-names, last_info-All, filter_map-All}
use oracle_pallet.Wire.{IsAscii}
use oracle_pallet.Wire.Answer.{stored, as_currency, has_plain_texts, read_back, encode_ascii}

-- Whether the request names this blockchain and symbol.
abbrev pub asked : List AssetId → Bytes → Bytes → Bool
asked [] b y = false
asked (k ∷ ks) b y = k == new_asset_id b y || asked ks b y

-- What the server stores under a blockchain and symbol, as the pallet stores it.
abbrev pub served : List CoinInfo → Bytes → Bytes → Option Types.CoinInfo
served cs b y = elim (last_info cs b y) [ none ↦ none | some c ↦ some (stored c) ]

abbrev pub AllAscii : List AssetId → Type 0
AllAscii = All (λ a. IsAscii a.blockchain × IsAscii a.symbol)

-- The infos that answer a request.
abbrev pub found : List CoinInfo → List AssetId → List CoinInfo
found cs ks = filter_map (λ r. last_info cs r.blockchain r.symbol) (map as_currency ks)

pub found-All :
    (P : CoinInfo → Type 0) (cs : List CoinInfo) (ks : List AssetId)
    → All P cs
    → All P (found cs ks)
found-All P cs ks all =
    filter_map-All P _ (map as_currency ks)
      (λ r c known. last_info-All P cs r.blockchain r.symbol c all known)

-- The currency asked for last is the one that is read, or another.
asked-cases :
    (k : AssetId) (b y : Bytes)
    → ((k.blockchain ≡ b) × (k.symbol ≡ y) × ((k == new_asset_id b y) ≡ true))
      ⊎ (((k.blockchain == b && k.symbol == y) ≡ false) × ((k == new_asset_id b y) ≡ false))
asked-cases k b y = ground arith

-- The last info of what is read back.
pub last_info-found :
    (cs : List CoinInfo) (ks : List AssetId) (b y : Bytes) (prices : List Types.CoinInfo)
    → AllAscii ks
    → read_back (found cs ks) ≡ some prices
    → Delivery.last_info prices b y ≡ (if asked ks b y then served cs b y else none)
unfolding filter_map
last_info-found cs [] b y prices ascii h = ground arith
last_info-found cs (k ∷ ks) b y prices ascii h =
    elim (Option-cases (last_info cs k.blockchain k.symbol)) [
      | inl missing ↦
          let rest = last_info-found cs ks b y prices ascii.1 (rw (missing, filter_map) at h) in
          elim (asked-cases k b y) [
            | inl (eb, ey, e) ↦ ground (arith, rest)
            | inr (n, e) ↦ ground (arith, rest)
          ]
      | inr (c, known) ↦ elim (Option-cases (read_back (found cs ks))) [
        | inl bad ↦ absurd (ground arith)
        | inr (ps, good) ↦
            let rest = last_info-found cs ks b y ps ascii.1 good in
            let names = last_info-names cs k.blockchain k.symbol c known in
            let eb : encode_utf8 c.blockchain ≡ k.blockchain =
              ap encode_utf8 names.0 ∙ encode_ascii k.blockchain ascii.0.0 in
            let ey : encode_utf8 c.symbol ≡ k.symbol =
              ap encode_utf8 names.1 ∙ encode_ascii k.symbol ascii.0.1 in
            let e : prices ≡ stored c ∷ ps = ground arith in
            rw e (elim (asked-cases k b y) [
              | inl (mb, my, m) ↦ ground (arith, rest, eb, ey)
              | inr (n, m) ↦ ground (arith, rest, eb, ey)
            ])
      ]
    ]

-- One info with an escape spoils the whole answer.
pub read_back-found :
    (cs : List CoinInfo) (ks : List AssetId) (b y : Bytes) (c : CoinInfo)
    → asked ks b y ≡ true
    → last_info cs b y ≡ some c
    → has_plain_texts c ≡ false
    → read_back (found cs ks) ≡ none
unfolding filter_map
read_back-found cs [] b y c h known bad = absurd (ground arith)
read_back-found cs (k ∷ ks) b y c h known bad = elim (asked-cases k b y) [
  | inl (eb, ey, m) ↦
      let known' : last_info cs k.blockchain k.symbol ≡ some c = rw (eb, ey) known in
      rw (known', filter_map) (ground arith)
  | inr (n, m) ↦
      let rest = read_back-found cs ks b y c (ground arith) known bad in ground (arith, rest)
]
