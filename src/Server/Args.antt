-- ===== src/Server/Args.antt =====
-- The supported currencies of the command line: `parse_currency_vec` of
-- dia-batching-server/src/args.rs, and the string functions of Rust that it and main.rs call.
use oracle_pallet.Prelude.{
  ℕ, Bool, ◌||◌, ◌&&◌, Option, none, some, List, [], ◌∷◌, leb, if◌then◌else◌, ◌==◌, nat_eq,
}
use oracle_pallet.Text.{codes}
use oracle_pallet.Server.Types.{Text}

-- The first piece of a split gets one more character.
abbrev pub extend : ℕ → List Text → List Text
extend c [] = (c ∷ []) ∷ []
extend c (piece ∷ pieces) = (c ∷ piece) ∷ pieces

-- `text.split(separator)`: one piece more than there are separators.
unfoldable pub split : ℕ → Text → List Text
unfolding nat_eq
split separator [] = [] ∷ []
split separator (c ∷ text) =
    let pieces = split separator text in if c == separator then [] ∷ pieces else extend c pieces

-- `text.split_once(separator)`, at the first separator.
unfoldable pub split_once : ℕ → Text → Option (Text × Text)
unfolding nat_eq
split_once separator [] = none
split_once separator (c ∷ text) =
    let rest = split_once separator text in
    if c == separator
    then some ([], text)
    else elim rest [ none ↦ none | some (before, after) ↦ some (c ∷ before, after) ]

-- `char::is_whitespace`: the characters with the property White_Space of Unicode.
unfoldable pub is_whitespace : ℕ → Bool
unfolding nat_eq
is_whitespace c =
    (leb 0x9 c && leb c 0xD)
    || c == 0x20
    || c == 0x85
    || c == 0xA0
    || c == 0x1680
    || (leb 0x2000 c && leb c 0x200A)
    || c == 0x2028
    || c == 0x2029
    || c == 0x202F
    || c == 0x205F
    || c == 0x3000

unfoldable pub trim_start : Text → Text
unfolding is_whitespace
trim_start [] = []
trim_start (c ∷ text) = let rest = trim_start text in if is_whitespace c then rest else c ∷ text

unfoldable pub trim_end : Text → Text
unfolding is_whitespace
trim_end [] = []
trim_end (c ∷ text) = elim (trim_end text) [
  | [] ↦ if is_whitespace c then [] else c ∷ []
  | d ∷ rest ↦ c ∷ d ∷ rest
]

-- `text.trim()`
unfoldable pub trim : Text → Text
unfolding trim_start trim_end
trim text = trim_end (trim_start text)

pub record SupportedCurrencies : Type 0 where
  pub currencies : List Text

unfoldable pub parse_currency_vec : Text → SupportedCurrencies
unfolding split
parse_currency_vec src = record { currencies = split b',' src }

pub record DiaApiArgs : Type 0 where
  pub iteration_timeout_in_seconds : ℕ
  pub request_timeout_in_milliseconds : ℕ
  pub supported_currencies : SupportedCurrencies

-- The arguments of a command line that names none.
abbrev pub default_args : DiaApiArgs
default_args = record {
  iteration_timeout_in_seconds = 60;
  request_timeout_in_milliseconds = 100;
  supported_currencies = parse_currency_vec (
      codes
        "Polkadot:DOT,Kusama:KSM,Stellar:XLM,FIAT:USD-USD,FIAT:MXN-USD,FIAT:BRL-USD,Amplitude:AMPE");
}
