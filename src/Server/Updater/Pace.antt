-- ===== src/Server/Updater/Pace.antt =====
-- The calls that a round of the updater makes, and the time that it takes between them.
use oracle_pallet.Prelude.{
  ℕ, ◌≡◌, refl, Option, none, some, List, [], ◌∷◌, ◌++◌, map, arith, Bool-cases, Option-cases, inl,
  inr,
}
use oracle_pallet.Result.{Result, ok, err}
use oracle_pallet.Server.Types.{AssetSpecifier, Crates, QuotedAsset, Quotation, CoinInfo, BoxError}
use oracle_pallet.Server.Convert.{Fallible}
use oracle_pallet.Server.Storage.{CoinInfoStorage}
use oracle_pallet.Server.Updater.{
  DiaApi, is_wanted, is_special, specifier, dummy, push, quote, quote_wanted, quote_special,
  quote_listed, quote_supported, update_prices,
}
use oracle_pallet.Server.Updater.Rounds.{wanted, special, specials, listed, converted, IsSteady}

-- A request for a quotation, or a delay of so many milliseconds.
pub data ApiCall (X : Crates) : Type 0 where
  ask : QuotedAsset X → ApiCall X
  pause : ℕ → ApiCall X

module _ {X : Crates} where
  -- Each request of the first loop is followed by a delay.
  abbrev pub paced : ℕ → List (QuotedAsset X) → List (ApiCall X)
  paced rate [] = []
  paced rate (q ∷ qs) = ask q ∷ pause rate ∷ paced rate qs

  -- The calls up to the first request whose answer panics, this one included.
  abbrev pub until_panic :
      (QuotedAsset X → Result BoxError (Quotation X)) → List (ApiCall X) → List (ApiCall X)
  until_panic answer [] = []
  until_panic answer (pause ms ∷ rest) = pause ms ∷ until_panic answer rest
  until_panic answer (ask q ∷ rest) =
      let after = until_panic answer rest in
      ask q ∷ elim (converted answer q) [ none ↦ [] | some r ↦ after ]

  abbrev pub play : (A : DiaApi X) → List (ApiCall X) → A.State → A.State
  play A [] st = st
  play A (ask q ∷ rest) st = play A rest (A.get_quotation q st).1
  play A (pause ms ∷ rest) st = play A rest (A.delay_for ms st)

module _ {X : Crates} (A : DiaApi X) (T : IsSteady A) where
  -- What a loop that ends with this result leaves of the calls that are still to be made.
  abbrev go_on : Option (List CoinInfo) → List (ApiCall X) → A.State → A.State
  go_on none rest st = st
  go_on (some cs) rest st = play A (until_panic T.answer rest) st

  go_on-push :
      (q : QuotedAsset X) (cs : List CoinInfo) (rest : List (ApiCall X)) (st : A.State)
      (r : Fallible BoxError CoinInfo)
      → converted T.answer q ≡ r
      → play A (until_panic T.answer (ask q ∷ rest)) st
        ≡ go_on (push cs r) rest (A.get_quotation q st).1
  unfolding push
  go_on-push q cs rest st none e = ground arith
  go_on-push q cs rest st (some (ok c)) e = ground arith
  go_on-push q cs rest st (some (err x)) e = ground arith

  go_on-quote :
      (q : QuotedAsset X) (cs : List CoinInfo) (rest : List (ApiCall X)) (st : A.State)
      → play A (until_panic T.answer (ask q ∷ rest)) st
        ≡ go_on (quote A q cs st).0 rest (quote A q cs st).1
  unfolding quote
  go_on-quote q cs rest st = rw T.answers (go_on-push q cs rest st _ refl)

  quote_wanted-plays :
      (m : Option (List AssetSpecifier)) (rate : ℕ) (qs : List (QuotedAsset X)) (cs : List CoinInfo)
      (more : List (ApiCall X)) (st : A.State)
      → let r = quote_wanted A m rate qs cs st in
        play A (until_panic T.answer (paced rate (wanted m qs) ++ more)) st ≡ go_on r.0 more r.1
  unfolding quote_wanted
  quote_wanted-plays m rate [] cs more st = refl
  quote_wanted-plays m rate (q ∷ qs) cs more st = elim (Bool-cases (is_wanted m (specifier q))) [
    | inl asked ↦
        let rest = pause rate ∷ (paced rate (wanted m qs) ++ more) in
        elim (Option-cases (quote A q cs st).0) [
          | inl panicked ↦ ground (arith, go_on-quote q cs rest st)
          | inr (cs', pushed) ↦ ground (
            arith,
            go_on-quote q cs rest st,
            quote_wanted-plays m rate qs cs' more (A.delay_for rate (quote A q cs st).1),
          )
        ]
    | inr unasked ↦ ground (arith, quote_wanted-plays m rate qs cs more st)
  ]

  quote_special-plays :
      (supported : List AssetSpecifier) (cs : List CoinInfo) (st : A.State)
      → (quote_special A supported cs st).1
        ≡ play A (until_panic T.answer (map ask (special supported))) st
  unfolding quote_special
  quote_special-plays [] cs st = refl
  quote_special-plays (a ∷ rest) cs st = elim (Bool-cases (is_special a)) [
    | inl asked ↦
        let more = map ask (special rest) in
        elim (Option-cases (quote A (dummy a) cs st).0) [
          | inl panicked ↦ ground (arith, go_on-quote (dummy a) cs more st)
          | inr (cs', pushed) ↦ ground (
            arith,
            go_on-quote (dummy a) cs more st,
            quote_special-plays rest cs' (quote A (dummy a) cs st).1,
          )
        ]
    | inr unasked ↦ ground (arith, quote_special-plays rest cs st)
  ]

  -- The calls of a round after that of the listing.
  abbrev pub round_calls : Option (List AssetSpecifier) → ℕ → List (ApiCall X)
  round_calls m rate = paced rate (wanted m (listed T.listing)) ++ map ask (specials m)

  quote_listed-plays :
      (m : Option (List AssetSpecifier)) (rate : ℕ) (st : A.State)
      (l : Result BoxError (List (QuotedAsset X))) (more : List (ApiCall X))
      → (A.get_quotable_assets st).0 ≡ l
      → let r = quote_listed A m rate st in
        play A
          (until_panic T.answer (paced rate (wanted m (listed l)) ++ more))
          (A.get_quotable_assets st).1
        ≡ go_on r.0 more r.1
  unfolding quote_listed
  quote_listed-plays m rate st (ok qs) more e =
      ground (arith, quote_wanted-plays m rate qs [] more (A.get_quotable_assets st).1)
  quote_listed-plays m rate st (err x) more e = ground arith

  quote_supported-plays :
      (m : Option (List AssetSpecifier)) (cs : List CoinInfo) (st : A.State)
      → (quote_supported A m cs st).1 ≡ play A (until_panic T.answer (map ask (specials m))) st
  unfolding quote_supported
  quote_supported-plays none cs st = refl
  quote_supported-plays (some supported) cs st = quote_special-plays supported cs st

  -- Against an API whose answers stay the same, a round asks for the listing once, then for each
  -- wanted asset of the listing with the delay after every request, then for each supported
  -- asset that is FIAT or Amplitude without any delay; a request whose answer panics is the last.
  pub update_prices-plays :
      (coins : CoinInfoStorage) (m : Option (List AssetSpecifier)) (rate : ℕ) (st : A.State)
      → (update_prices A coins m rate st).state
        ≡ play A (until_panic T.answer (round_calls m rate)) (A.get_quotable_assets st).1
  unfolding update_prices
  update_prices-plays coins m rate st =
      let first = quote_listed-plays m rate st T.listing (map ask (specials m)) (T.lists st) in
      elim (Option-cases (quote_listed A m rate st).0) [
        | inl panicked ↦ ground (arith, first)
        | inr (cs, done) ↦
            let second = quote_supported-plays m cs (quote_listed A m rate st).1 in
            elim (Option-cases (quote_supported A m cs (quote_listed A m rate st).1).0) [
              | inl panicked ↦ ground (arith, first, second)
              | inr (all, finished) ↦ ground (arith, first, second)
            ]
      ]
