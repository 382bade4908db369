-- ===== src/Text.antt =====
-- Bytes and characters as numbers, and the functions of Rust's standard library that the program
-- calls on them: `concat`, `join`, `str::from_utf8`.
pub mod Number
use Prim.Native.Char.{code}
use Prim.Native.String.{String}
use oracle_pallet.Prelude.{
  All, arith, ◌≤◌, Option-cases, Bool-cases, inl, inr, ℕ, zero, suc, ◌+◌, ◌/◌, ◌%◌, ◌≡◌, refl, Bool,
  true, false, ◌&&◌, Option, none, some, List, [], ◌∷◌, ◌++◌, leb, ltb, if◌then◌else◌, ◌==◌, nat_eq,
}

-- The characters of a text; its bytes, if it is ASCII.
abbrev pub codes : String → List ℕ
codes String.[] = []
codes (String.◌∷◌ c s) = code c ∷ codes s

-- `[a, b, c].concat()`
unfoldable pub concat : List (List ℕ) → List ℕ
concat [] = []
concat (x ∷ xs) = x ++ concat xs

-- `parts.join(&separator)`
unfoldable pub join : ℕ → List (List ℕ) → List ℕ
join separator [] = []
join separator (x ∷ []) = x
join separator (x ∷ y ∷ rest) = x ++ separator ∷ join separator (y ∷ rest)

-- How many bytes follow a first byte of a UTF-8 sequence, and the range of the next one.
lead : ℕ → Option (ℕ × ℕ × ℕ)
lead b =
    if ltb b 0x80
    then some (0, 0, 0)
    else if leb 0xC2 b && leb b 0xDF
    then some (1, 0x80, 0xBF)
    else if b == 0xE0
    then some (2, 0xA0, 0xBF)
    else if b == 0xED
    then some (2, 0x80, 0x9F)
    else if leb 0xE1 b && leb b 0xEF
    then some (2, 0x80, 0xBF)
    else if b == 0xF0
    then some (3, 0x90, 0xBF)
    else if leb 0xF1 b && leb b 0xF3
    then some (3, 0x80, 0xBF)
    else if b == 0xF4
    then some (3, 0x80, 0x8F)
    else none

-- `need` continuation bytes are awaited, the next one between `lo` and `hi`.
utf8_rest : ℕ → ℕ → ℕ → List ℕ → Bool
utf8_rest zero lo hi [] = true
utf8_rest (suc need) lo hi [] = false
utf8_rest zero lo hi (b ∷ rest) = elim (lead b) [
  | none ↦ false
  | some (need, lo', hi') ↦ utf8_rest need lo' hi' rest
]
utf8_rest (suc need) lo hi (b ∷ rest) =
    let more = utf8_rest need 0x80 0xBF rest in if leb lo b && leb b hi then more else false

-- `str::from_utf8(bytes).is_ok()`
unfoldable pub is_utf8 : List ℕ → Bool
unfolding lead utf8_rest nat_eq
is_utf8 bytes = utf8_rest 0 0 0 bytes

-- The bytes of a character, and of a text: `str::as_bytes`.
unfoldable pub encode_char : ℕ → List ℕ
encode_char c =
    if ltb c 0x80
    then (c ∷ [])
    else if ltb c 0x800
    then (0xC0 + c / 64) ∷ (0x80 + c % 64) ∷ []
    else if ltb c 0x10000
    then (0xE0 + c / 4096) ∷ (0x80 + c / 64 % 64) ∷ (0x80 + c % 64) ∷ []
    else (0xF0 + c / 262144) ∷ (0x80 + c / 4096 % 64) ∷ (0x80 + c / 64 % 64) ∷ (0x80 + c % 64) ∷ []

unfoldable pub encode_utf8 : List ℕ → List ℕ
unfolding encode_char
encode_utf8 [] = []
encode_utf8 (c ∷ t) = encode_char c ++ encode_utf8 t

encode_utf8_euro : encode_utf8 (0x20AC ∷ 0x21 ∷ []) ≡ 0xE2 ∷ 0x82 ∷ 0xAC ∷ 0x21 ∷ []
unfolding encode_utf8
encode_utf8_euro = refl

is_utf8_bad : is_utf8 (0x68 ∷ 0xC0 ∷ 0x80 ∷ []) ≡ false
unfolding is_utf8
is_utf8_bad = refl

is_utf8_euro : is_utf8 (0xE2 ∷ 0x82 ∷ 0xAC ∷ 0x21 ∷ []) ≡ true
unfolding is_utf8
is_utf8_euro = refl

utf8_rest-zero : (lo hi : ℕ) (b : List ℕ) → utf8_rest zero lo hi b ≡ utf8_rest zero 0 0 b
unfolding utf8_rest
utf8_rest-zero lo hi [] = refl
utf8_rest-zero lo hi (c ∷ b) = refl

utf8_rest-append :
    (need lo hi : ℕ) (a b : List ℕ)
    → utf8_rest need lo hi a ≡ true
    → utf8_rest need lo hi (a ++ b) ≡ utf8_rest zero 0 0 b
unfolding utf8_rest
utf8_rest-append zero lo hi [] b h = utf8_rest-zero lo hi b
utf8_rest-append (suc need) lo hi [] b h = cc
utf8_rest-append zero lo hi (c ∷ a) b h = elim (Option-cases (lead c)) [
  | inl bad ↦ let bad' = rw (bad, utf8_rest) at h in cc
  | inr (next, good) ↦
      rw (good, utf8_rest) (utf8_rest-append next.0 next.1 next.2 a b (rw (good, utf8_rest) at h))
]
utf8_rest-append (suc need) lo hi (c ∷ a) b h = elim (Bool-cases (leb lo c && leb c hi)) [
  | inr bad ↦ let bad' = rw (bad, utf8_rest) at h in cc
  | inl good ↦
      rw (good, utf8_rest) (utf8_rest-append need 0x80 0xBF a b (rw (good, utf8_rest) at h))
]

-- What follows a valid text decides.
pub is_utf8-append : (a b : List ℕ) → is_utf8 a ≡ true → is_utf8 (a ++ b) ≡ is_utf8 b
unfolding is_utf8
is_utf8-append a b h = utf8_rest-append 0 0 0 a b h

lead-ascii : (c : ℕ) → c ≤ 0x7F → lead c ≡ some (0, 0, 0)
unfolding lead
lead-ascii c h = ground arith

utf8_rest-ascii : (a : List ℕ) → All (λ c. c ≤ 0x7F) a → utf8_rest zero 0 0 a ≡ true
unfolding utf8_rest
utf8_rest-ascii [] h = refl
utf8_rest-ascii (c ∷ a) h = rw (lead-ascii c h.0, utf8_rest) (utf8_rest-ascii a h.1)

pub is_utf8-ascii : (a : List ℕ) → All (λ c. c ≤ 0x7F) a → is_utf8 a ≡ true
unfolding is_utf8
is_utf8-ascii a h = utf8_rest-ascii a h
