-- ===== src/Server/Main.antt =====
-- `main` of dia-batching-server/src/main.rs, and what it hands to the updater.
pub mod Entries
pub mod Supported
pub mod Sets
pub mod Tests
use oracle_pallet.Prelude.{
  ℕ, ◌*◌, Bool, true, false, not, Option, none, some, List, [], ◌∷◌, ◌++◌, if◌then◌else◌, length,
  ltb,
}
use oracle_pallet.Result.{Result, Exec, lift, modify, ◌>>=◌, ◌>>◌}
use oracle_pallet.Text.{codes}
use oracle_pallet.Server.Types.{Text, AssetSpecifier, asset_specifier_eq, BoxError}
use oracle_pallet.Server.Args.{
  SupportedCurrencies, DiaApiArgs, split_once, trim, parse_currency_vec,
}
use oracle_pallet.Server.Storage.{filter_map}
use oracle_pallet.Server.Updater.{contains}

-- `asset.trim().split_once(":")`; a text with no colon is logged and left out.
unfoldable pub parse_asset : Text → Option AssetSpecifier
unfolding split_once
parse_asset asset = elim (split_once b':' (trim asset)) [
  | none ↦ none
  | some (blockchain, symbol) ↦ some (record { blockchain = blockchain; symbol = symbol })
]

-- `collect()` into a `HashSet`: an element that is there already is not put in again. The set
-- is the list of its elements, in one of the orders that its iteration may have.
unfoldable pub collect_set : List AssetSpecifier → List AssetSpecifier → List AssetSpecifier
unfolding asset_specifier_eq
collect_set set [] = set
collect_set set (a ∷ rest) = collect_set (if contains set a then set else set ++ (a ∷ [])) rest

-- `Some(vec).filter(|x| x.len() > 0).map(...)`
unfoldable pub supported_currencies : SupportedCurrencies → Option (List AssetSpecifier)
unfolding parse_asset collect_set filter_map
supported_currencies args =
    if ltb 0 (length args.currencies)
    then some (collect_set [] (filter_map parse_asset args.currencies))
    else none

-- What `main` starts: the task of the updater, with its durations in milliseconds, and the web
-- server at its address.
pub data Started : Type 0 where
  update_loop : Option (List AssetSpecifier) → ℕ → ℕ → Started
  http_server : Text → Started

-- `HttpServer::bind` and `run`.
pub record HttpServer : Type 1 where
  pub Bound : Type 0
  pub bind : Text → Result BoxError Bound
  pub run : Bound → Result BoxError (Unit {0})

-- `Duration::from_secs`, in milliseconds.
abbrev pub from_secs : ℕ → ℕ
from_secs seconds = seconds * 1000

-- The updater is spawned before the address is bound.
unfoldable pub main : HttpServer → DiaApiArgs → Exec (List Started) BoxError (Unit {0})
unfolding supported_currencies
main H args = do
  modify (λ log.
      log
      ++ (update_loop (supported_currencies args.supported_currencies)
            args.request_timeout_in_milliseconds (from_secs args.iteration_timeout_in_seconds)
          ∷ []))
  bound ← lift (H.bind (codes "0.0.0.0:8070"))
  modify (λ log. log ++ (http_server (codes "0.0.0.0:8070") ∷ []))
  lift (H.run bound)
