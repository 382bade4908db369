-- ===== src/Server/Updater/Rounds.antt =====
-- One round of the updater against an API whose answers do not change during the round.
use oracle_pallet.Prelude.{
  ℕ, ◌≡◌, refl, ap, sym, is_some, ◌∙◌, Bool, true, false, not, Option, none, some, List, [], ◌∷◌,
  ◌++◌, arith, if◌then◌else◌, Bool-cases, Option-cases, inl, inr,
}
use mathlib.Core.List.{append-nil, append_assoc}
use oracle_pallet.Result.{Result, ok, err}
use oracle_pallet.Server.Types.{AssetSpecifier, Crates, QuotedAsset, Quotation, CoinInfo, BoxError}
use oracle_pallet.Server.Convert.{Fallible, ◌>>=◌, convert_to_coin_info}
use oracle_pallet.Server.Storage.{CoinInfoStorage, replace_currencies_by_symbols}
use oracle_pallet.Server.Updater.{
  DiaApi, is_wanted, is_special, specifier, dummy, push, quote, quote_wanted, quote_special,
  quote_listed, quote_supported, update_prices,
}

module _ {X : Crates} where
  abbrev pub wanted : Option (List AssetSpecifier) → List (QuotedAsset X) → List (QuotedAsset X)
  wanted m [] = []
  wanted m (q ∷ qs) = let rest = wanted m qs in if is_wanted m (specifier q) then q ∷ rest else rest

  abbrev pub special : List AssetSpecifier → List (QuotedAsset X)
  special [] = []
  special (a ∷ rest) = let more = special rest in if is_special a then dummy a ∷ more else more

  abbrev pub specials : Option (List AssetSpecifier) → List (QuotedAsset X)
  specials none = []
  specials (some supported) = special supported

  abbrev pub listed : Result BoxError (List (QuotedAsset X)) → List (QuotedAsset X)
  listed (ok qs) = qs
  listed (err e) = []

  -- All assets that a round asks a quotation for, in order.
  abbrev pub requests :
      Result BoxError (List (QuotedAsset X)) → Option (List AssetSpecifier) → List (QuotedAsset X)
  requests listing m = wanted m (listed listing) ++ specials m

  module _ (answer : QuotedAsset X → Result BoxError (Quotation X)) where
    abbrev pub converted : QuotedAsset X → Fallible BoxError CoinInfo
    converted q = some (answer q) >>= convert_to_coin_info X

    abbrev pub panics : List (QuotedAsset X) → Bool
    panics [] = false
    panics (q ∷ qs) = let rest = panics qs in elim (converted q) [ none ↦ true | some r ↦ rest ]

    -- The coin infos of the quotations that came and were converted.
    abbrev pub successes : List (QuotedAsset X) → List CoinInfo
    successes [] = []
    successes (q ∷ qs) =
        let rest = successes qs in
        elim (converted q) [ none ↦ rest | some (ok c) ↦ c ∷ rest | some (err e) ↦ rest ]

-- The answers of the API stay the same.
pub record IsSteady {X : Crates} (A : DiaApi X) : Type 0 where
  pub listing : Result BoxError (List (QuotedAsset X))
  pub answer : QuotedAsset X → Result BoxError (Quotation X)
  pub lists : (st : A.State) → (A.get_quotable_assets st).0 ≡ listing
  pub answers : (q : QuotedAsset X) (st : A.State) → (A.get_quotation q st).0 ≡ answer q

module _ {X : Crates} (A : DiaApi X) (T : IsSteady A) where
  -- What a list of requests adds to the coin infos, or none if one of them panics.
  abbrev collected : List CoinInfo → List (QuotedAsset X) → Option (List CoinInfo)
  collected cs qs = if panics T.answer qs then none else some (cs ++ successes T.answer qs)

  quote-pushes :
      (q : QuotedAsset X) (cs : List CoinInfo) (st : A.State)
      → (quote A q cs st).0 ≡ push cs (converted T.answer q)
  unfolding quote
  quote-pushes q cs st = rw T.answers

  -- Going on with the rest, unless the push has panicked.
  abbrev next : Option (List CoinInfo) → List (QuotedAsset X) → Option (List CoinInfo)
  next none qs = none
  next (some cs) qs = collected cs qs

  collected-cons :
      (q : QuotedAsset X) (qs : List (QuotedAsset X)) (cs : List CoinInfo)
      (r : Fallible BoxError CoinInfo)
      → converted T.answer q ≡ r
      → collected cs (q ∷ qs) ≡ next (push cs r) qs
  unfolding push
  collected-cons q qs cs none e = ground arith
  collected-cons q qs cs (some (ok c)) e =
      ground (arith, append_assoc cs (c ∷ []) (successes T.answer qs))
  collected-cons q qs cs (some (err x)) e = ground arith

  collected-quote :
      (q : QuotedAsset X) (qs : List (QuotedAsset X)) (cs : List CoinInfo) (st : A.State)
      → collected cs (q ∷ qs) ≡ next (quote A q cs st).0 qs
  collected-quote q qs cs st = rw quote-pushes (collected-cons q qs cs _ refl)

  quote_wanted-collected :
      (m : Option (List AssetSpecifier)) (rate : ℕ) (qs : List (QuotedAsset X)) (cs : List CoinInfo)
      (st : A.State)
      → (quote_wanted A m rate qs cs st).0 ≡ collected cs (wanted m qs)
  unfolding quote_wanted
  quote_wanted-collected m rate [] cs st = rw append-nil
  quote_wanted-collected m rate (q ∷ qs) cs st = elim (Bool-cases (is_wanted m (specifier q))) [
    | inl asked ↦ elim (Option-cases (quote A q cs st).0) [
      | inl panicked ↦ ground (arith, collected-quote q (wanted m qs) cs st)
      | inr (cs', pushed) ↦ ground (
        arith,
        collected-quote q (wanted m qs) cs st,
        quote_wanted-collected m rate qs cs' (A.delay_for rate (quote A q cs st).1),
      )
    ]
    | inr unasked ↦ ground (arith, quote_wanted-collected m rate qs cs st)
  ]

  quote_special-collected :
      (supported : List AssetSpecifier) (cs : List CoinInfo) (st : A.State)
      → (quote_special A supported cs st).0 ≡ collected cs (special supported)
  unfolding quote_special
  quote_special-collected [] cs st = rw append-nil
  quote_special-collected (a ∷ rest) cs st = elim (Bool-cases (is_special a)) [
    | inl asked ↦ elim (Option-cases (quote A (dummy a) cs st).0) [
      | inl panicked ↦ ground (arith, collected-quote (dummy a) (special rest) cs st)
      | inr (cs', pushed) ↦ ground (
        arith,
        collected-quote (dummy a) (special rest) cs st,
        quote_special-collected rest cs' (quote A (dummy a) cs st).1,
      )
    ]
    | inr unasked ↦ ground (arith, quote_special-collected rest cs st)
  ]

  next-append :
      (qs rs : List (QuotedAsset X))
      → ((cs : List CoinInfo) → collected cs (qs ++ rs) ≡ next (collected cs qs) rs)
      → (o : Option (List CoinInfo)) → next o (qs ++ rs) ≡ next (next o qs) rs
  next-append qs rs h none = refl
  next-append qs rs h (some cs) = h cs

  collected-append :
      (qs rs : List (QuotedAsset X)) (cs : List CoinInfo)
      → collected cs (qs ++ rs) ≡ next (collected cs qs) rs
  collected-append [] rs cs = rw append-nil
  collected-append (q ∷ qs) rs cs =
      collected-cons q (qs ++ rs) cs (converted T.answer q) refl
      ∙ next-append qs rs (collected-append qs rs) (push cs (converted T.answer q))
      ∙ sym (ap (λ o. next o rs) (collected-cons q qs cs (converted T.answer q) refl))

  quote_listed-collected :
      (m : Option (List AssetSpecifier)) (rate : ℕ) (st : A.State)
      (l : Result BoxError (List (QuotedAsset X)))
      → (A.get_quotable_assets st).0 ≡ l
      → (quote_listed A m rate st).0 ≡ collected [] (wanted m (listed l))
  unfolding quote_listed
  quote_listed-collected m rate st (ok qs) e =
      ground (arith, quote_wanted-collected m rate qs [] (A.get_quotable_assets st).1)
  quote_listed-collected m rate st (err x) e = ground arith

  quote_supported-collected :
      (m : Option (List AssetSpecifier)) (cs : List CoinInfo) (st : A.State)
      → (quote_supported A m cs st).0 ≡ collected cs (specials m)
  unfolding quote_supported
  quote_supported-collected none cs st = rw append-nil
  quote_supported-collected (some supported) cs st = quote_special-collected supported cs st

  -- All that a round collects, or none if it panics.
  update_prices-collected :
      (coins : CoinInfoStorage) (m : Option (List AssetSpecifier)) (rate : ℕ) (st : A.State)
      (o : Option (List CoinInfo))
      → collected [] (requests T.listing m) ≡ o
      → let r = update_prices A coins m rate st in
        (r.finished ≡ is_some o)
        × (r.coins ≡ elim o [ none ↦ coins | some cs ↦ replace_currencies_by_symbols coins cs ])
  unfolding update_prices
  update_prices-collected coins m rate st o e = elim (Option-cases (quote_listed A m rate st).0) [
    | inl panicked ↦ ground (
      arith,
      quote_listed-collected m rate st T.listing (T.lists st),
      collected-append (wanted m (listed T.listing)) (specials m) [],
    )
    | inr (cs, done) ↦ ground (
      arith,
      quote_listed-collected m rate st T.listing (T.lists st),
      collected-append (wanted m (listed T.listing)) (specials m) [],
      quote_supported-collected m cs (quote_listed A m rate st).1,
    )
  ]

  -- Against an API whose answers stay the same, a round asks for the wanted assets of the
  -- listing, none if the listing fails, and for the supported assets that are FIAT or Amplitude.
  -- If one of these requests panics, the round does not finish and the storage stays as it was.
  -- Otherwise the storage is replaced by the coin infos of the requests that succeeded, in
  -- order: one that fails is left out and stops no other.
  pub update_prices_exact :
      (coins : CoinInfoStorage) (m : Option (List AssetSpecifier)) (rate : ℕ) (st : A.State)
      → let asked = requests T.listing m in
        let r = update_prices A coins m rate st in
        (r.finished ≡ not (panics T.answer asked))
        × (r.coins ≡ (
            if panics T.answer asked
            then coins
            else replace_currencies_by_symbols coins (successes T.answer asked)))
  update_prices_exact coins m rate st =
      ground (arith, update_prices-collected coins m rate st _ refl)
