-- ===== src/Text/Number.antt =====
-- `u128::to_string` and `str::parse::<u128>` of Rust's standard library.
use native.Mathlib.Numerals.{unary_clauses}
use oracle_pallet.Prelude.{
  ℕ, zero, suc, ◌+◌, ◌-◌, ◌*◌, ◌/◌, ◌%◌, ◌^◌, ◌<◌, ◌≡◌, ◌≢◌, refl, ◌&&◌, Option, none, some, List,
  [], ◌∷◌, ◌++◌, arith, leb, ltb, if◌then◌else◌, ◌==◌, nat_eq,
}

-- The decimal digits of a number, as many as there are up to a bound.
unfoldable pub digits : ℕ → ℕ → List ℕ
digits zero n = []
digits (suc k) n =
    let before = digits k (n / 10) in
    if ltb n 10 then (48 + n) ∷ [] else before ++ ((48 + n % 10) ∷ [])

-- 39 digits are enough, since 2^128 is below 10^39.
unfoldable pub to_string : ℕ → List ℕ
unfolding digits
to_string = digits 39

-- Digits after a value that they extend; a character that is no digit and an overflow fail.
unfoldable pub parse_digits : ℕ → List ℕ → Option ℕ
parse_digits acc [] = some acc
parse_digits acc (c ∷ cs) =
    let next = acc * 10 + (c - 48) in
    let rest = parse_digits next cs in
    if leb 48 c && leb c 57 && ltb next (2 ^ 128) then rest else none

-- A plus sign may come first. An empty text and a sign alone fail.
unfoldable pub parse_u128 : List ℕ → Option ℕ
unfolding parse_digits nat_eq
parse_u128 [] = none
parse_u128 (c ∷ cs) =
    if c == 43
    then elim cs [ [] ↦ none | d ∷ ds ↦ parse_digits 0 (d ∷ ds) ]
    else parse_digits 0 (c ∷ cs)

append_ne_nil : (cs : List ℕ) (d : ℕ) → (cs ++ (d ∷ [])) ≢ []
append_ne_nil [] d h = cc
append_ne_nil (c ∷ cs) d h = cc

abbrev then_digit : Option ℕ → ℕ → Option ℕ
then_digit none d = none
then_digit (some v) d = parse_digits v (d ∷ [])

parse_digits-append :
    (acc : ℕ) (cs : List ℕ) (d : ℕ)
    → parse_digits acc (cs ++ (d ∷ [])) ≡ then_digit (parse_digits acc cs) d
unfolding parse_digits
parse_digits-append acc [] d = refl
parse_digits-append acc (c ∷ cs) d = ground (arith, parse_digits-append (acc * 10 + (c - 48)) cs d)

one_digit : (n : ℕ) → n < 10 → parse_digits 0 ((48 + n) ∷ []) ≡ some n
unfolding parse_digits
one_digit n h = ground arith

last_digit : (n : ℕ) → n < 2 ^ 128 → parse_digits (n / 10) ((48 + n % 10) ∷ []) ≡ some n
unfolding parse_digits
last_digit n h = ground arith

quotient_fits : (k n : ℕ) → n < 10 ^ suc k → n / 10 < 10 ^ k
quotient_fits k n h = omega (arith, simp unary_clauses at h)

parse_digits-digits : (k n : ℕ) → n < 10 ^ k → n < 2 ^ 128 → parse_digits 0 (digits k n) ≡ some n
unfolding digits parse_digits
parse_digits-digits zero n small h = ground arith
parse_digits-digits (suc k) n small h = ground (
  arith,
  one_digit n,
  parse_digits-digits k (n / 10) (quotient_fits k n small) (omega arith),
  parse_digits-append 0 (digits k (n / 10)) (48 + n % 10),
  last_digit n h,
)

-- A text that reads as digits reads as a number, unless it is empty.
parse_u128-digits :
    (cs : List ℕ) (v : ℕ) → cs ≢ [] → parse_digits 0 cs ≡ some v → parse_u128 cs ≡ some v
unfolding parse_u128
parse_u128-digits [] v ne h = absurd (ne refl)
parse_u128-digits (c ∷ cs) v ne h = ground arith

digits-ne-nil : (k n : ℕ) → digits (suc k) n ≢ []
unfolding digits
digits-ne-nil k n = ground (arith, append_ne_nil (digits k (n / 10)) (48 + n % 10))

pub parse-to_string : (n : ℕ) → n < 2 ^ 128 → parse_u128 (to_string n) ≡ some n
unfolding to_string
parse-to_string n h =
    parse_u128-digits (digits 39 n) n (digits-ne-nil 38 n)
      (parse_digits-digits 39 n (omega arith) h)

parse_digits-bound :
    (acc : ℕ) (cs : List ℕ) (v : ℕ) → acc < 2 ^ 128 → parse_digits acc cs ≡ some v → v < 2 ^ 128
unfolding parse_digits
parse_digits-bound acc [] v small h = ground arith
parse_digits-bound acc (c ∷ cs) v small h =
    ground (arith, parse_digits-bound (acc * 10 + (c - 48)) cs v)

pub parse-bound : (cs : List ℕ) (v : ℕ) → parse_u128 cs ≡ some v → v < 2 ^ 128
unfolding parse_u128
parse-bound [] v h = ground arith
parse-bound (c ∷ []) v h = ground (arith, parse_digits-bound 0 (c ∷ []) v (omega arith))
parse-bound (c ∷ d ∷ cs) v h = ground (
  arith,
  parse_digits-bound 0 (d ∷ cs) v (omega arith),
  parse_digits-bound 0 (c ∷ d ∷ cs) v (omega arith),
)
