-- ===== src/System/Answers.antt =====
-- What a worker can read of an answer of the server, whatever it has asked for.
use mathlib.Core.Path.{subst}
use oracle_pallet.Prelude.{◌≡◌, none, some, List, [], ◌∷◌, map, arith, All, Option-cases, inl, inr}
use oracle_pallet.Dict.{get}
use oracle_pallet.Pallet.Types.{Bytes}
use oracle_pallet.Pallet.Types
use oracle_pallet.Server.Types.{CoinInfo, Currency}
use oracle_pallet.Server.Storage.{Key, key_eq, CoinInfoStorage, replace_currencies_by_symbols}
use oracle_pallet.Server.Storage.Answers.{last_info-All, filter_map-All, get-replace}
use oracle_pallet.Server.Handlers.{currencies_post}
use oracle_pallet.Wire.{
  ◌>>=◌, JsonApi, IsLawfulJson, traverse, field, de_string_to_bytes, de_number,
  deserialize_coin_info, deserialize_currency, serialize_coin_info, from_slice, answer, tokens,
}
use oracle_pallet.Wire.Answer.{stored}

deserialize-serialized :
    (c : CoinInfo) (d : Types.CoinInfo)
    → deserialize_coin_info (tokens (serialize_coin_info c)) ≡ some d
    → d ≡ stored c
unfolding deserialize_coin_info serialize_coin_info field de_string_to_bytes de_number
deserialize-serialized c d h = ground arith

module _ (P : CoinInfo → Type 0) where
  -- Every info of the map has the property.
  abbrev pub Has : CoinInfoStorage → Type 0
  Has coins =
      (k : Key) (c : CoinInfo) → get coins.currencies_by_blockchain_and_symbol k ≡ some c → P c

  -- The pallet's form of an info that has the property.
  abbrev pub Stored : Types.CoinInfo → Type 0
  Stored d = (c : CoinInfo) × P c × (d ≡ stored c)

  pub replace-Has :
      (coins : CoinInfoStorage) (cs : List CoinInfo)
      → All P cs
      → Has (replace_currencies_by_symbols coins cs)
  replace-Has coins cs all (b, y) c h = last_info-All P cs b y c all (rw get-replace at h)

  pub found-All :
      (coins : CoinInfoStorage) (request : List Currency)
      → Has coins
      → All P (currencies_post request coins)
  unfolding currencies_post
  found-All coins request has =
      filter_map-All P _ request (λ r c known. has (r.blockchain, r.symbol) c known)

  traverse-All :
      (cs : List CoinInfo) (ds : List Types.CoinInfo)
      → traverse deserialize_coin_info (map tokens (map serialize_coin_info cs)) ≡ some ds
      → All P cs
      → All Stored ds
  unfolding traverse
  traverse-All [] ds h all = let e : [] ≡ ds = ground arith in subst (All Stored) e tt
  traverse-All (c ∷ cs) ds h all =
      elim (Option-cases (deserialize_coin_info (tokens (serialize_coin_info c)))) [
        | inl bad ↦ absurd (ground arith)
        | inr (d, good) ↦
            elim (Option-cases
              (traverse deserialize_coin_info (map tokens (map serialize_coin_info cs)))) [
                | inl bad ↦ absurd (ground arith)
                | inr (rest, read) ↦
                    let e : d ∷ rest ≡ ds = ground arith in
                    subst (All Stored) e
                      ((c, all.0, deserialize-serialized c d good), traverse-All cs rest read all.1)
              ]
      ]

  pub answer-All :
      (J : JsonApi) (coins : CoinInfoStorage) (body : Bytes) (ds : List Types.CoinInfo)
      → IsLawfulJson J
      → J.from_slice J.bad_request ≡ none
      → from_slice J (answer J coins body) ≡ some ds
      → Has coins
      → All Stored ds
  unfolding answer from_slice
  answer-All J coins body ds L unreadable h has =
      elim (Option-cases (J.extract body >>= traverse deserialize_currency)) [
        | inl bad ↦ absurd (ground arith)
        | inr (request, asked) ↦
            let e : from_slice J
                  (J.respond (map serialize_coin_info (currencies_post request coins)))
                ≡ some ds =
              ground arith in
            traverse-All (currencies_post request coins) ds (rw L.from_slice-respond at e)
              (found-All coins request has)
      ]
