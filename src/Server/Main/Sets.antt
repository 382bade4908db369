-- ===== src/Server/Main/Sets.antt =====
-- The currencies of the command line as an abstract set: lists without order and repetition.
use mathlib.Core.Quot
use mathlib.Core.Quot.{Quot}
use native.Mathlib.Nat.{ℕ_set}
use oracle_pallet.Prelude.{ℕ, ◌≡◌, ap, ◌∙◌, some, List, [], ◌∷◌, map, All}
use oracle_pallet.Text.{join}
use oracle_pallet.Server.Types.{Crates, CoinInfo, Currency}
use oracle_pallet.Server.Storage.{CoinInfoStorage}
use oracle_pallet.Server.Handlers.{currencies_post}
use oracle_pallet.Server.Updater.{DiaApi, update_prices}
use oracle_pallet.Server.Updater.Rounds.{IsSteady}
use oracle_pallet.Server.Updater.Unordered.{round_unordered}
use oracle_pallet.Server.Updater.Unordered.Special.{SameElements, NamesItself}
use oracle_pallet.Server.Args.{parse_currency_vec}
use oracle_pallet.Server.Main.{collect_set, supported_currencies}
use oracle_pallet.Server.Main.Entries.{Entry, written, IsEntry, assets, parsed-written}
use oracle_pallet.Server.Main.Supported.{contains-collect_set, supported_set}

abbrev pub CurrencySet : Type 0
CurrencySet = Quot SameElements

coin_infos_set : IsSet (List CoinInfo)
coin_infos_set = hlevel ℕ_set

-- The set of the assets of some entries.
pub listed_set : List Entry → CurrencySet
listed_set es = Quot.mk (assets es)

module _ {X : Crates} (A : DiaApi X) (T : IsSteady A) (names : NamesItself T.answer)
    (coins : CoinInfoStorage) (rate : ℕ) (st : A.State) (request : List Currency) where
  -- What the handler answers after a round with a set of currencies.
  pub answers : CurrencySet → List CoinInfo
  answers =
      Quot.lift coin_infos_set
        (λ xs. currencies_post request (update_prices A coins (some xs) rate st).coins)
        (λ xs ys h. round_unordered A T coins rate st request xs ys names h)

  -- Against an API whose answers stay the same, and that names a FIAT or Amplitude currency as it
  -- was asked for: let the command line list one or more entries, joined by commas, each an asset
  -- as `<blockchain>:<symbol>` between white space, or a text with no colon. If the names hold no
  -- comma, no colon before the symbol and no white space at the ends, then what the handler
  -- answers after a round is a function of the set of the assets, in which their order and
  -- repetition, the white space, and the entries without a colon are forgotten.
  pub main_answers :
      (e : Entry) (es : List Entry)
      → All IsEntry (e ∷ es)
      → let src = join b',' (map written (e ∷ es)) in
        currencies_post request
          (update_prices A coins (supported_currencies (parse_currency_vec src)) rate st).coins
        ≡ answers (listed_set (e ∷ es))
  unfolding answers listed_set
  main_answers e es h =
      let src = join b',' (map written (e ∷ es)) in
      ap (λ m. currencies_post request (update_prices A coins m rate st).coins)
        (supported_set src ∙ ap (λ xs. some (collect_set [] xs)) (parsed-written e es h))
      ∙ ap answers (Quot.sound (λ a. contains-collect_set [] (assets (e ∷ es)) a))
