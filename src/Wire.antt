-- ===== src/Wire.antt =====
-- The JSON between the off-chain worker and the batching server: the serde attributes of `CoinInfo`
-- in pallets/dia-oracle/src/dia.rs, of `CoinInfo` in dia-batching-server/src/storage.rs and of
-- `Currency` in dia-batching-server/src/handlers.rs, and the handler between them. The readers and
-- the writer of JSON texts are the libraries', as parameters.
pub mod Answer
pub mod Found
pub mod Served
pub mod Quoted
pub mod Mock
mod Tests
use oracle_pallet.Prelude.{
  ℕ, ◌+◌, ◌*◌, ◌/◌, ◌%◌, ◌^◌, ◌≤◌, ◌≡◌, Bool, true, false, ◌&&◌, not, Option, none, some, List, [],
  ◌∷◌, ◌++◌, map, arith, leb, ltb, if◌then◌else◌, ◌==◌, bytes_eq, nat_eq, length, All, is_some,
}
use oracle_pallet.Text.{codes, encode_utf8}
use oracle_pallet.Pallet.Types.{Bytes, AssetId}
use oracle_pallet.Pallet.Types
use oracle_pallet.Pallet.Worker.Json.{decode}
use oracle_pallet.Server.Types.{Text, Currency, CoinInfo}
use oracle_pallet.Server.Storage.{CoinInfoStorage}
use oracle_pallet.Server.Handlers.{currencies_post}

-- A field's value as it is written.
pub data Scalar : Type 0 where
  number : ℕ → Scalar
  text : Text → Scalar

-- A field's value as it is read: a text that holds an escape is unescaped into a new buffer, any
-- other is borrowed from the input.
pub data Token : Type 0 where
  number : ℕ → Token
  borrowed : Text → Token
  owned : Text → Token

abbrev pub Object : Type 0 → Type 0
Object V = List (Bytes × V)

-- The libraries: `serde_json::from_slice` in the pallet, the extractor and the responder
-- `web::Json` in the server, and the body of its answer to a request that it cannot read.
pub record JsonApi : Type 0 where
  pub from_slice : Bytes → Option (List (Object Token))
  pub extract : Bytes → Option (List (Object Token))
  pub respond : List (Object Scalar) → Bytes
  pub bad_request : Bytes
  pub limit : ℕ

infixl 5 ◌>>=◌
abbrev pub ◌>>=◌ {ℓ} : {A B : Type ℓ} → Option A → (A → Option B) → Option B
none >>= f = none
some a >>= f = f a

-- `Vec<T>` of what can be read, or nothing.
unfoldable pub traverse : {A B : Type 0} → (A → Option B) → List A → Option (List B)
traverse f [] = some []
traverse f (x ∷ xs) = let rest = traverse f xs in (do y ← f x; ys ← rest; some (y ∷ ys))

-- A field of a struct: missing fields and duplicate ones are errors, unknown ones are ignored.
unfoldable pub field : {V : Type 0} → Bytes → Object V → Option V
unfolding bytes_eq
field name [] = none
field name ((n, v) ∷ rest) =
    let more = field name rest in
    if n == name then (if is_some more then none else some v) else more

-- `String::deserialize`
unfoldable pub de_string : Token → Option Text
de_string (Token.number n) = none
de_string (Token.borrowed t) = some t
de_string (Token.owned t) = some t

-- `de_string_to_bytes`: the `&str` that it asks for can only be borrowed.
unfoldable pub de_string_to_bytes : Token → Option Bytes
unfolding encode_utf8
de_string_to_bytes (Token.number n) = none
de_string_to_bytes (Token.borrowed t) = some (encode_utf8 t)
de_string_to_bytes (Token.owned t) = none

-- A `w`-bit number.
unfoldable pub de_number : ℕ → Token → Option ℕ
de_number w (Token.number n) = if ltb n (2 ^ w) then some n else none
de_number w (Token.borrowed t) = none
de_number w (Token.owned t) = none

-- `Deserialize` of the pallet's `CoinInfo`
unfoldable pub deserialize_coin_info : Object Token → Option Types.CoinInfo
unfolding field de_string_to_bytes de_number
deserialize_coin_info o = do
  symbol ← field (codes "symbol") o >>= de_string_to_bytes
  name ← field (codes "name") o >>= de_string_to_bytes
  blockchain ← field (codes "blockchain") o >>= de_string_to_bytes
  supply ← field (codes "supply") o >>= de_number 128
  last_update_timestamp ← field (codes "lastUpdateTimestamp") o >>= de_number 64
  price ← field (codes "price") o >>= de_number 128
  some (record {
    symbol = symbol;
    name = name;
    blockchain = blockchain;
    supply = supply;
    last_update_timestamp = last_update_timestamp;
    price = price;
  })

-- `Serialize` of the server's `CoinInfo`
unfoldable pub serialize_coin_info : CoinInfo → Object Scalar
serialize_coin_info c =
    (codes "symbol", Scalar.text c.symbol)
    ∷ (codes "name", Scalar.text c.name)
    ∷ (codes "blockchain", Scalar.text c.blockchain)
    ∷ (codes "supply", Scalar.number c.supply)
    ∷ (codes "lastUpdateTimestamp", Scalar.number c.last_update_timestamp)
    ∷ (codes "price", Scalar.number c.price)
    ∷ []

-- `Deserialize` of `Currency`
unfoldable pub deserialize_currency : Object Token → Option Currency
unfolding field de_string
deserialize_currency o = do
  blockchain ← field (codes "blockchain") o >>= de_string
  symbol ← field (codes "symbol") o >>= de_string
  some (record { blockchain = blockchain; symbol = symbol })

module _ (J : JsonApi) where
  -- `serde_json::from_slice::<Vec<CoinInfo>>`
  unfoldable pub from_slice : Bytes → Option (List Types.CoinInfo)
  unfolding traverse deserialize_coin_info
  from_slice body = J.from_slice body >>= traverse deserialize_coin_info

  -- What the server answers to a POST of `/currencies`.
  unfoldable pub answer : CoinInfoStorage → Bytes → Bytes
  unfolding traverse deserialize_currency currencies_post serialize_coin_info
  answer storage body = elim (J.extract body >>= traverse deserialize_currency) [
    | none ↦ J.bad_request
    | some currencies ↦ J.respond (map serialize_coin_info (currencies_post currencies storage))
  ]

-- Whether a text is written without an escape: no quote, no backslash, no control character.
unfoldable pub is_plain : Text → Bool
unfolding nat_eq
is_plain [] = true
is_plain (c ∷ t) = not (c == b'"') && not (c == b'\\') && leb 32 c && is_plain t

abbrev pub IsAscii : Text → Type 0
IsAscii = All (λ c. c ≤ 127)

abbrev pub token : Scalar → Token
token (Scalar.number n) = Token.number n
token (Scalar.text t) = if is_plain t then Token.borrowed t else Token.owned t

abbrev pub tokens : Object Scalar → Object Token
tokens = map (λ e. (e.0, token e.1))

abbrev pub asset_tokens : AssetId → Object Token
asset_tokens k =
    (codes "blockchain", Token.borrowed k.blockchain)
    ∷ (codes "symbol", Token.borrowed k.symbol)
    ∷ []

-- What is documented of the libraries: what the server writes, the pallet's reader reads back, with
-- the texts without escapes borrowed; and the extractor reads an array of objects of two texts in
-- ASCII, if it is not above its size limit.
pub record IsLawfulJson (J : JsonApi) : Type 0 where
  pub from_slice-respond :
      (objects : List (Object Scalar))
      → J.from_slice (J.respond objects) ≡ some (map tokens objects)
  pub extract-decode :
      (body : Bytes) (ks : List AssetId)
      → length body ≤ J.limit
      → decode body ≡ some ks
      → All (λ k. IsAscii k.blockchain × IsAscii k.symbol) ks
      → J.extract body ≡ some (map asset_tokens ks)
