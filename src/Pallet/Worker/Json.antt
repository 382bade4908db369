-- ===== src/Pallet/Worker/Json.antt =====
-- A JSON reader of an array of `{"blockchain":"…","symbol":"…"}` in the form that `update_prices`
-- writes, independent of the writer. A text without escapes is read up to its quote, and control
-- characters are refused, as RFC 8259 has it, and so are bytes that are no UTF-8.
use oracle_pallet.Prelude.{
  ℕ, zero, suc, ◌≤◌, ◌<◌, ◌≡◌, ◌≢◌, refl, ap, ◌∙◌, true, ◌||◌, Option, none, some, List, [], ◌∷◌,
  ◌++◌, arith, ltb, if◌then◌else◌, ◌==◌, nat_eq, All, length, length-append,
}
use mathlib.Core.List.{append_assoc}
use oracle_pallet.Text.{codes, is_utf8, is_utf8-append, is_utf8-ascii}
use oracle_pallet.Pallet.Types.{Bytes, AssetId, new_asset_id}
use oracle_pallet.Pallet.Worker.Request.{request_item, request_items, request_body}

infixl 5 ◌>>=◌
abbrev ◌>>=◌ : {A B : Type 0} → Option A → (A → Option B) → Option B
none >>= f = none
some a >>= f = f a

-- What follows a literal text.
strip : Bytes → Bytes → Option Bytes
unfolding nat_eq
strip [] r = some r
strip (p ∷ ps) [] = none
strip (p ∷ ps) (c ∷ r) = if p == c then strip ps r else none

-- The characters up to a quote, and what follows the quote.
read_string : Bytes → Option (Bytes × Bytes)
unfolding nat_eq
read_string [] = none
read_string (c ∷ r) =
    let rest = (read_string r >>= λ (s, t). some (c ∷ s, t)) in
    if c == b'"' then some ([], r) else if c == b'\\' || ltb c 32 then none else rest

read_asset : Bytes → Option (AssetId × Bytes)
unfolding strip read_string
read_asset r = do
  r₁ ← strip (codes "{\"blockchain\":\"") r
  (blockchain, r₂) ← read_string r₁
  r₃ ← strip (codes ",\"symbol\":\"") r₂
  (symbol, r₄) ← read_string r₃
  r₅ ← strip (codes "}") r₄
  some (new_asset_id blockchain symbol, r₅)

-- The elements up to the closing bracket, which ends the text. The fuel bounds their number.
read_assets : ℕ → Bytes → Option (List AssetId)
unfolding read_asset
read_assets zero r = none
read_assets (suc fuel) r = do
  (k, r₁) ← read_asset r
  elim (strip (codes "]") r₁) [
    | some [] ↦ some (k ∷ [])
    | some (c ∷ r₂) ↦ none
    | none ↦ (do r₂ ← strip (codes ",") r₁; ks ← read_assets fuel r₂; some (k ∷ ks))
  ]

unfoldable pub decode : Bytes → Option (List AssetId)
unfolding read_assets strip is_utf8
decode body =
    let read = (strip (codes "[") body >>= λ r. read_assets (length body) r) in
    if is_utf8 body then read else none

-- No quote, no backslash and no control character.
abbrev pub IsPlain : Bytes → Type 0
IsPlain = All (λ c. (c ≢ b'"') × (c ≢ b'\\') × (32 ≤ c))

abbrev pub IsPlainAsset : AssetId → Type 0
IsPlainAsset k = IsPlain k.blockchain × IsPlain k.symbol

strip-append : (p r : Bytes) → strip p (p ++ r) ≡ some r
unfolding strip
strip-append [] r = refl
strip-append (c ∷ p) r = ground (arith, strip-append p r)

read_string-append : (s r : Bytes) → IsPlain s → read_string (s ++ b'"' ∷ r) ≡ some (s, r)
unfolding read_string
read_string-append [] r h = refl
read_string-append (c ∷ s) r h = ground (arith, read_string-append s r h.1)

-- A written asset, bracketed to the right.
request_item-append :
    (k : AssetId) (r : Bytes)
    → request_item k ++ r
      ≡ codes "{\"blockchain\":\""
        ++ (k.blockchain
            ++ b'"' ∷ (codes ",\"symbol\":\"" ++ (k.symbol ++ b'"' ∷ (codes "}" ++ r))))
unfolding request_item
request_item-append k r = simp append_assoc

read_asset-append :
    (k : AssetId) (r : Bytes) → IsPlainAsset k → read_asset (request_item k ++ r) ≡ some (k, r)
unfolding read_asset
read_asset-append k r h = rw request_item-append (
    rw (read_string-append k.blockchain _ h.0, read_asset) (rw (read_string-append k.symbol _ h.1)))

request_items-cons :
    (k j : AssetId) (js : List AssetId) (r : Bytes)
    → request_items (k ∷ j ∷ js) ++ r ≡ request_item k ++ b',' ∷ (request_items (j ∷ js) ++ r)
unfolding request_items
request_items-cons k j js r = append_assoc (request_item k) (b',' ∷ request_items (j ∷ js)) r

request_items-one : (k : AssetId) → request_items (k ∷ []) ≡ request_item k
unfolding request_items
request_items-one k = refl

read_assets-request_items :
    (fuel : ℕ) (k : AssetId) (ks : List AssetId)
    → length ks < fuel
    → All IsPlainAsset (k ∷ ks)
    → read_assets fuel (request_items (k ∷ ks) ++ b']' ∷ []) ≡ some (k ∷ ks)
unfolding read_assets
read_assets-request_items zero k ks lt h = elim lt [ ]
read_assets-request_items (suc fuel) k [] lt h =
    rw request_items-one (rw (read_asset-append k (b']' ∷ []) h.0, read_assets))
read_assets-request_items (suc fuel) k (j ∷ js) lt h = rw request_items-cons (
    rw (read_asset-append k _ h.0, read_assets)
      (rw (read_assets-request_items fuel j js (omega arith) h.1)))

length-request_item : (k : AssetId) → 1 ≤ length (request_item k)
unfolding request_item
length-request_item k = omega arith

pub length-request_items : (ks : List AssetId) → length ks ≤ length (request_items ks)
unfolding request_items
length-request_items [] = omega arith
length-request_items (k ∷ []) = omega (arith, length-request_item k)
length-request_items (k ∷ j ∷ js) = omega (
  arith,
  length-request_items (j ∷ js),
  length-append (request_item k) (b',' ∷ request_items (j ∷ js)),
)

reads-request_body :
    (k : AssetId) (ks : List AssetId)
    → All IsPlainAsset (k ∷ ks)
    → (strip (codes "[") (request_body (request_items (k ∷ ks))) >>= λ r.
        read_assets (length (request_body (request_items (k ∷ ks)))) r)
      ≡ some (k ∷ ks)
unfolding request_body strip
reads-request_body k ks h =
    read_assets-request_items (suc (length (request_items (k ∷ ks) ++ b']' ∷ []))) k ks
      (omega
        (arith, length-request_items (k ∷ ks), length-append (request_items (k ∷ ks)) (b']' ∷ [])))
      h

-- The blockchain and the symbol are texts.
abbrev pub IsUtf8Asset : AssetId → Type 0
IsUtf8Asset k = (is_utf8 k.blockchain ≡ true) × (is_utf8 k.symbol ≡ true)

is_utf8-request_item :
    (k : AssetId) (r : Bytes) → IsUtf8Asset k → is_utf8 (request_item k ++ r) ≡ is_utf8 r
is_utf8-request_item k r (hb, hy) =
    ap is_utf8 (request_item-append k r)
    ∙ is_utf8-append (codes "{\"blockchain\":\"") _ (is_utf8-ascii _ (omega arith))
    ∙ is_utf8-append k.blockchain _ hb
    ∙ is_utf8-append (codes "\",\"symbol\":\"") _ (is_utf8-ascii _ (omega arith))
    ∙ is_utf8-append k.symbol _ hy
    ∙ is_utf8-append (codes "\"}") r (is_utf8-ascii _ (omega arith))

is_utf8-request_items :
    (k : AssetId) (ks : List AssetId) (r : Bytes)
    → All IsUtf8Asset (k ∷ ks)
    → is_utf8 (request_items (k ∷ ks) ++ r) ≡ is_utf8 r
is_utf8-request_items k [] r h = rw request_items-one (is_utf8-request_item k r h.0)
is_utf8-request_items k (j ∷ js) r h =
    ap is_utf8 (request_items-cons k j js r)
    ∙ is_utf8-request_item k (b',' ∷ (request_items (j ∷ js) ++ r)) h.0
    ∙ is_utf8-append (codes ",") (request_items (j ∷ js) ++ r) (is_utf8-ascii _ (omega arith))
    ∙ is_utf8-request_items j js r h.1

is_utf8-request_body :
    (k : AssetId) (ks : List AssetId)
    → All IsUtf8Asset (k ∷ ks)
    → is_utf8 (request_body (request_items (k ∷ ks))) ≡ true
unfolding request_body
is_utf8-request_body k ks h =
    is_utf8-append (codes "[") (request_items (k ∷ ks) ++ b']' ∷ []) (is_utf8-ascii _ (omega arith))
    ∙ is_utf8-request_items k ks (b']' ∷ []) h
    ∙ is_utf8-ascii (codes "]") (omega arith)

-- If at least one currency is supported, and each blockchain and symbol is UTF-8 and holds no
-- quote, no backslash and no control character, the request body reads back as the supported
-- currencies, in order.
pub decode-request_body :
    (k : AssetId) (ks : List AssetId)
    → All IsPlainAsset (k ∷ ks)
    → All IsUtf8Asset (k ∷ ks)
    → decode (request_body (request_items (k ∷ ks))) ≡ some (k ∷ ks)
unfolding decode
decode-request_body k ks h valid =
    rw (is_utf8-request_body k ks valid, decode) (reads-request_body k ks h)

-- A symbol that holds a quote can pose as two currencies: the request for it alone is the same
-- text as the request for both.
pub request_body_collides :
    (b₁ y₁ b₂ y₂ : Bytes)
    → let posing =
        y₁ ++ (codes "\"},{\"blockchain\":\"" ++ (b₂ ++ (codes "\",\"symbol\":\"" ++ y₂))) in
      request_body (request_items (new_asset_id b₁ posing ∷ []))
      ≡ request_body (request_items (new_asset_id b₁ y₁ ∷ new_asset_id b₂ y₂ ∷ []))
unfolding request_body request_items
request_body_collides b₁ y₁ b₂ y₂ = simp append_assoc
