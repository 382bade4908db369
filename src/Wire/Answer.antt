-- ===== src/Wire/Answer.antt =====
-- What the worker reads of the server's answer, and the server of the worker's request.
use oracle_pallet.Prelude.{
  ◌^◌, ◌≤◌, ◌<◌, ◌≡◌, refl, true, Bool, ◌&&◌, Option, none, some, List, [], ◌∷◌, map, arith,
  if◌then◌else◌, length, All, bytes_eq,
}
use oracle_pallet.Text.{encode_utf8, is_utf8-ascii}
use oracle_pallet.Pallet.Types.{Bytes, AssetId}
use oracle_pallet.Pallet.Types
use oracle_pallet.Pallet.Worker.Request.{request_items, request_body}
use oracle_pallet.Pallet.Worker.Json.{IsPlainAsset, IsUtf8Asset, decode-request_body}
use oracle_pallet.Server.Types.{Text, Currency, CoinInfo}
use oracle_pallet.Server.Storage.{CoinInfoStorage}
use oracle_pallet.Server.Handlers.{currencies_post}
use oracle_pallet.Wire.{
  JsonApi, IsLawfulJson, traverse, field, de_string, de_string_to_bytes, de_number,
  deserialize_coin_info, serialize_coin_info, deserialize_currency, from_slice, answer, is_plain,
  IsAscii, tokens, asset_tokens,
}

-- A coin info of the server as the pallet stores it: its texts as bytes.
abbrev pub stored : CoinInfo → Types.CoinInfo
stored c = record {
  symbol = encode_utf8 c.symbol;
  name = encode_utf8 c.name;
  blockchain = encode_utf8 c.blockchain;
  supply = c.supply;
  last_update_timestamp = c.last_update_timestamp;
  price = c.price;
}

abbrev pub as_currency : AssetId → Currency
as_currency k = record { blockchain = k.blockchain; symbol = k.symbol }

-- The numbers fit their types.
abbrev pub Fits : CoinInfo → Type 0
Fits c = (c.supply < 2 ^ 128) × (c.last_update_timestamp < 2 ^ 64) × (c.price < 2 ^ 128)

-- No text of the info needs an escape.
unfoldable pub has_plain_texts : CoinInfo → Bool
unfolding is_plain
has_plain_texts c = is_plain c.symbol && is_plain c.name && is_plain c.blockchain

deserialize-serialize :
    (c : CoinInfo)
    → Fits c
    → deserialize_coin_info (tokens (serialize_coin_info c))
      ≡ (if has_plain_texts c then some (stored c) else none)
unfolding deserialize_coin_info serialize_coin_info field has_plain_texts de_string_to_bytes
    de_number
deserialize-serialize c h = ground arith

pub encode_ascii : (t : Text) → IsAscii t → encode_utf8 t ≡ t
unfolding encode_utf8
encode_ascii [] h = refl
encode_ascii (c ∷ t) h = ground (arith, encode_ascii t h.1)

-- The infos of an answer, if every text of them can be borrowed.
abbrev pub read_back : List CoinInfo → Option (List Types.CoinInfo)
read_back [] = some []
read_back (c ∷ cs) = elim (read_back cs) [
  | none ↦ none
  | some rest ↦ if has_plain_texts c then some (stored c ∷ rest) else none
]

pub read_back-plain :
    (cs : List CoinInfo)
    → All (λ c. has_plain_texts c ≡ true) cs
    → (ds : List Types.CoinInfo) × (read_back cs ≡ some ds)
read_back-plain [] h = ([], refl)
read_back-plain (c ∷ cs) h =
    let (ds, e) = read_back-plain cs h.1 in (stored c ∷ ds, ground (arith, h.0))

traverse-serialize :
    (cs : List CoinInfo)
    → All Fits cs
    → traverse deserialize_coin_info (map tokens (map serialize_coin_info cs)) ≡ read_back cs
unfolding traverse
traverse-serialize [] h = refl
traverse-serialize (c ∷ cs) h =
    rw (deserialize-serialize c h.0) (ground (arith, traverse-serialize cs h.1))

traverse-asset_tokens :
    (ks : List AssetId)
    → traverse deserialize_currency (map asset_tokens ks) ≡ some (map as_currency ks)
unfolding traverse deserialize_currency field de_string
traverse-asset_tokens [] = refl
traverse-asset_tokens (k ∷ ks) = ground (arith, traverse-asset_tokens ks)

ascii-IsUtf8 :
    (ks : List AssetId) → All (λ a. IsAscii a.blockchain × IsAscii a.symbol) ks → All IsUtf8Asset ks
ascii-IsUtf8 [] h = tt
ascii-IsUtf8 (k ∷ ks) h =
    ((is_utf8-ascii k.blockchain h.0.0, is_utf8-ascii k.symbol h.0.1), ascii-IsUtf8 ks h.1)

module _ (J : JsonApi) (L : IsLawfulJson J) where
  pub from_slice-respond :
      (cs : List CoinInfo)
      → All Fits cs
      → from_slice J (J.respond (map serialize_coin_info cs)) ≡ read_back cs
  unfolding from_slice
  from_slice-respond cs h =
      rw (L.from_slice-respond (map serialize_coin_info cs)) (traverse-serialize cs h)

  -- If some currency is supported, the texts of all of them are ASCII without a quote, a backslash
  -- or a control character, and the request is not above the size limit, then the server answers
  -- with the stored infos of the supported currencies.
  pub answer-request :
      (storage : CoinInfoStorage) (k : AssetId) (ks : List AssetId)
      → length (request_body (request_items (k ∷ ks))) ≤ J.limit
      → All IsPlainAsset (k ∷ ks)
      → All (λ a. IsAscii a.blockchain × IsAscii a.symbol) (k ∷ ks)
      → answer J storage (request_body (request_items (k ∷ ks)))
        ≡ J.respond (map serialize_coin_info (currencies_post (map as_currency (k ∷ ks)) storage))
  unfolding answer
  answer-request storage k ks small plain ascii =
      rw
        (
          L.extract-decode (request_body (request_items (k ∷ ks))) (k ∷ ks) small
              (decode-request_body k ks plain (ascii-IsUtf8 (k ∷ ks) ascii)) ascii,
          answer,
        )
        (rw (traverse-asset_tokens (k ∷ ks)))
