-- ===== src/Server/Updater/Unordered.antt =====
-- The supported currencies are a hash set, whose iteration has any order: what a round stores does
-- not depend on it.
pub mod Special
mod Tests
use oracle_pallet.Prelude.{
  ℕ, ◌≡◌, refl, ap, sym, ◌∙◌, fun_ext, Bool, true, false, not, ◌&&◌, ◌||◌, Option, none, some, List,
  [], ◌∷◌, ◌++◌, arith, if◌then◌else◌, ◌==◌, ==_refl, bytes_eq, Bool-cases, Option-cases, inl, inr,
}
use oracle_pallet.Result.{Result, ok, err}
use oracle_pallet.Server.Types.{
  Text, AssetSpecifier, asset_specifier_eq, Crates, QuotedAsset, Quotation, CoinInfo, BoxError,
  Currency,
}
use oracle_pallet.Server.Convert.{Fallible, convert_to_coin_info}
use oracle_pallet.Server.Storage.{CoinInfoStorage, filter_map, replace_currencies_by_symbols}
use oracle_pallet.Server.Storage.Answers.{last_info, get_currencies-replace}
use oracle_pallet.Server.Handlers.{currencies_post}
use oracle_pallet.Server.Updater.{
  DiaApi, contains, is_wanted, is_special, specifier, dummy, update_prices,
}
use oracle_pallet.Server.Updater.Rounds.{
  wanted, special, listed, requests, converted, panics, successes, IsSteady, update_prices_exact,
}
use oracle_pallet.Server.Updater.Unordered.Special.{
  SameElements, NamesItself, or_before, collected_for, last_info-append, wanted-SameElements,
  successes-append, panics-append, last_info-special, panics-SameElements,
  collected_for-SameElements,
}

module _ {X : Crates} (answer : QuotedAsset X → Result BoxError (Quotation X)) where
  last_info-successes :
      (ps qs : List (QuotedAsset X)) (b y : Text)
      → last_info (successes answer (ps ++ qs)) b y
        ≡ or_before (last_info (successes answer qs) b y) (last_info (successes answer ps) b y)
  last_info-successes ps qs b y =
      ap (λ cs. last_info cs b y) (successes-append answer ps qs)
      ∙ last_info-append (successes answer ps) (successes answer qs) b y

  module _ (l : Result BoxError (List (QuotedAsset X))) (xs ys : List AssetSpecifier)
      (h : SameElements xs ys) where
    -- What a round collects for a key.
    last_info-requests :
        (b y : Text)
        → NamesItself answer
        → last_info (successes answer (requests l (some xs))) b y
          ≡ last_info (successes answer (requests l (some ys))) b y
    last_info-requests b y names =
        last_info-successes (wanted (some xs) (listed l)) (special xs) b y
        ∙ ap
            (λ qs.
              or_before (last_info (successes answer (special xs)) b y)
                (last_info (successes answer qs) b y))
            (wanted-SameElements answer xs ys (listed l) h)
        ∙ ap (λ o. or_before o (last_info (successes answer (wanted (some ys) (listed l))) b y))
            (last_info-special answer xs b y names
              ∙ collected_for-SameElements answer xs ys b y h
              ∙ sym (last_info-special answer ys b y names))
        ∙ sym (last_info-successes (wanted (some ys) (listed l)) (special ys) b y)

    panics-requests : panics answer (requests l (some xs)) ≡ panics answer (requests l (some ys))
    panics-requests =
        panics-append answer (wanted (some xs) (listed l)) (special xs)
        ∙ ap (λ qs. panics answer qs || panics answer (special xs))
            (wanted-SameElements answer xs ys (listed l) h)
        ∙ ap (λ p. panics answer (wanted (some ys) (listed l)) || p)
            (panics-SameElements answer xs ys h)
        ∙ sym (panics-append answer (wanted (some ys) (listed l)) (special ys))

-- What the handler answers after a round that panics, or has collected these infos.
abbrev after_round : CoinInfoStorage → List Currency → Bool → List CoinInfo → List CoinInfo
after_round coins request panicked cs =
    currencies_post request (if panicked then coins else replace_currencies_by_symbols coins cs)

after_round-last_info :
    (coins : CoinInfoStorage) (request : List Currency) (panicked : Bool) (cs ds : List CoinInfo)
    → ((b y : Text) → last_info cs b y ≡ last_info ds b y)
    → after_round coins request panicked cs ≡ after_round coins request panicked ds
unfolding currencies_post
after_round-last_info coins request true cs ds h = refl
after_round-last_info coins request false cs ds h =
    get_currencies-replace coins cs request
    ∙ ap (λ f. filter_map f request) (fun_ext (λ (r : Currency). h r.blockchain r.symbol))
    ∙ sym (get_currencies-replace coins ds request)

module _ {X : Crates} (A : DiaApi X) (T : IsSteady A) where
  -- Against an API whose answers stay the same, and that names a FIAT or Amplitude currency as it
  -- was asked for, the supported currencies count as a set only: after a round with the same
  -- currencies in another order, or some of them twice, the handler gives the same answer to every
  -- request.
  pub round_unordered :
      (coins : CoinInfoStorage) (rate : ℕ) (st : A.State) (request : List Currency)
      (xs ys : List AssetSpecifier)
      → NamesItself T.answer
      → SameElements xs ys
      → currencies_post request (update_prices A coins (some xs) rate st).coins
        ≡ currencies_post request (update_prices A coins (some ys) rate st).coins
  round_unordered coins rate st request xs ys names h =
      ap (currencies_post request) (update_prices_exact A T coins (some xs) rate st).1
      ∙ after_round-last_info coins request (panics T.answer (requests T.listing (some xs)))
          (successes T.answer (requests T.listing (some xs)))
          (successes T.answer (requests T.listing (some ys)))
          (λ b y. last_info-requests T.answer T.listing xs ys h b y names)
      ∙ ap (λ p. after_round coins request p (successes T.answer (requests T.listing (some ys))))
          (panics-requests T.answer T.listing xs ys h)
      ∙ ap (currencies_post request) (sym (update_prices_exact A T coins (some ys) rate st).1)
