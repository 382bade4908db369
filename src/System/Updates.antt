-- ===== src/System/Updates.antt =====
-- Where the infos of a round of the updater come from.
use mathlib.Core.Path.{subst}
use oracle_pallet.Prelude.{
  ℕ, ◌≡◌, refl, Option, none, some, List, [], ◌∷◌, ◌++◌, arith, All, All-append, Bool-cases,
  Option-cases, inl, inr,
}
use oracle_pallet.Result.{Result, ok, err, Result-cases}
use oracle_pallet.Server.Types.{AssetSpecifier, Crates, QuotedAsset, Quotation, CoinInfo, BoxError}
use oracle_pallet.Server.Convert.{Fallible, ◌>>=◌, convert_to_coin_info}
use oracle_pallet.Server.Storage.{CoinInfoStorage, replace_currencies_by_symbols}
use oracle_pallet.Server.Updater.{
  DiaApi, is_wanted, is_special, specifier, dummy, push, quote, quote_wanted, quote_special,
  quote_listed, quote_supported, update_prices,
}

push-All :
    {P : CoinInfo → Type 0} (r : Fallible BoxError CoinInfo) (cs all : List CoinInfo)
    → push cs r ≡ some all
    → All P cs
    → ((c : CoinInfo) → r ≡ some (ok c) → P c)
    → All P all
unfolding push
push-All none cs all h old new = cc
push-All {P} (some (ok c)) cs all h old new =
    let e : cs ++ (c ∷ []) ≡ all = ground arith in
    subst (All P) e (All-append P cs (c ∷ []) old (new c refl, tt))
push-All {P} (some (err b)) cs all h old new =
    let e : cs ≡ all = ground arith in subst (All P) e old

-- Only a quotation that is given is converted.
converted-ok :
    (X : Crates) (r : Result BoxError (Quotation X)) (c : CoinInfo)
    → (some r >>= convert_to_coin_info X) ≡ some (ok c)
    → (q : Quotation X) × (r ≡ ok q) × (convert_to_coin_info X q ≡ some (ok c))
converted-ok X (ok q) c h = (q, refl, h)
converted-ok X (err e) c h = cc

module _ {X : Crates} (A : DiaApi X) where
  -- The states of DIA and the clock that the server's calls can bring about.
  pub data Later (first : A.State) : A.State → Type 0 where
    start : Later first first
    listed : {st : A.State} → Later first st → Later first (A.get_quotable_assets st).1
    quoted :
        (q : QuotedAsset X) {st : A.State} → Later first st → Later first (A.get_quotation q st).1
    delayed : (ms : ℕ) {st : A.State} → Later first st → Later first (A.delay_for ms st)

  -- The info is the conversion of a quotation that DIA has given in one of these states.
  pub record IsQuotation (first : A.State) (c : CoinInfo) : Type 0 where
    pub asset : QuotedAsset X
    pub state : A.State
    pub quotation : Quotation X
    pub later : Later first state
    pub given : (A.get_quotation asset state).0 ≡ ok quotation
    pub converted : convert_to_coin_info X quotation ≡ some (ok c)

  module _ (first : A.State) where
    -- What a loop gives, unless a panic ends it, and the state in which it stops.
    abbrev pub Kept : Option (List CoinInfo) × A.State → Type 0
    Kept r = ((cs : List CoinInfo) → r.0 ≡ some cs → All (IsQuotation first) cs) × Later first r.1

    some-Kept :
        (cs : List CoinInfo) (st : A.State)
        → All (IsQuotation first) cs
        → Later first st
        → Kept (some cs, st)
    some-Kept cs st old l =
        (λ all h. let e : cs ≡ all = ground arith in subst (All (IsQuotation first)) e old, l)

    quote-Kept :
        (q : QuotedAsset X) (cs : List CoinInfo) (st : A.State)
        → All (IsQuotation first) cs
        → Later first st
        → Kept (quote A q cs st)
    unfolding quote
    quote-Kept q cs st old l = (
      λ all h.
          push-All (some (A.get_quotation q st).0 >>= convert_to_coin_info X) cs all h old λ c e.
            let (given, got, converted) = converted-ok X (A.get_quotation q st).0 c e in
            record {
              asset = q;
              state = st;
              quotation = given;
              later = l;
              given = got;
              converted = converted;
            },
      quoted q l,
    )

    quote_wanted-Kept :
        (m : Option (List AssetSpecifier)) (rate : ℕ) (qs : List (QuotedAsset X))
        (cs : List CoinInfo) (st : A.State)
        → All (IsQuotation first) cs
        → Later first st
        → Kept (quote_wanted A m rate qs cs st)
    unfolding quote_wanted
    quote_wanted-Kept m rate [] cs st old l = some-Kept cs st old l
    quote_wanted-Kept m rate (q ∷ qs) cs st old l = elim (Bool-cases (is_wanted m (specifier q))) [
      | inr no_ ↦ rw (no_, quote_wanted) (quote_wanted-Kept m rate qs cs st old l)
      | inl yes_ ↦
          let kept = quote-Kept q cs st old l in
          elim (Option-cases (quote A q cs st).0) [
            | inl panic ↦ rw (yes_, quote_wanted) (rw (panic, quote_wanted) (λ all h. cc, kept.1))
            | inr (cs', done) ↦
                rw (yes_, quote_wanted)
                  (rw (done, quote_wanted)
                    (quote_wanted-Kept m rate qs cs' (A.delay_for rate (quote A q cs st).1)
                      (kept.0 cs' done) (delayed rate kept.1)))
          ]
    ]

    quote_special-Kept :
        (supported : List AssetSpecifier) (cs : List CoinInfo) (st : A.State)
        → All (IsQuotation first) cs
        → Later first st
        → Kept (quote_special A supported cs st)
    unfolding quote_special
    quote_special-Kept [] cs st old l = some-Kept cs st old l
    quote_special-Kept (a ∷ rest) cs st old l = elim (Bool-cases (is_special a)) [
      | inr no_ ↦ rw (no_, quote_special) (quote_special-Kept rest cs st old l)
      | inl yes_ ↦
          let kept = quote-Kept (dummy a) cs st old l in
          elim (Option-cases (quote A (dummy a) cs st).0) [
            | inl panic ↦ rw (yes_, quote_special) (rw (panic, quote_special) (λ all h. cc, kept.1))
            | inr (cs', done) ↦
                rw (yes_, quote_special)
                  (rw (done, quote_special)
                    (quote_special-Kept rest cs' (quote A (dummy a) cs st).1 (kept.0 cs' done)
                      kept.1))
          ]
    ]

    quote_listed-Kept :
        (m : Option (List AssetSpecifier)) (rate : ℕ) (st : A.State)
        → Later first st
        → Kept (quote_listed A m rate st)
    unfolding quote_listed
    quote_listed-Kept m rate st l = elim (Result-cases (A.get_quotable_assets st).0) [
      | inl (assets, ok_) ↦
          rw (ok_, quote_listed)
            (quote_wanted-Kept m rate assets [] (A.get_quotable_assets st).1 tt (listed l))
      | inr (e, failed) ↦
          rw (failed, quote_listed) (some-Kept [] (A.get_quotable_assets st).1 tt (listed l))
    ]

    quote_supported-Kept :
        (m : Option (List AssetSpecifier)) (cs : List CoinInfo) (st : A.State)
        → All (IsQuotation first) cs
        → Later first st
        → Kept (quote_supported A m cs st)
    unfolding quote_supported
    quote_supported-Kept none cs st old l = some-Kept cs st old l
    quote_supported-Kept (some supported) cs st old l = quote_special-Kept supported cs st old l

    -- The storage after a round: as before, or replaced by quotations.
    pub data Replaced (coins : CoinInfoStorage) : CoinInfoStorage → Type 0 where
      unchanged : Replaced coins coins
      replaced :
          (cs : List CoinInfo)
          → All (IsQuotation first) cs
          → Replaced coins (replace_currencies_by_symbols coins cs)

    pub update_prices-Replaced :
        (coins : CoinInfoStorage) (m : Option (List AssetSpecifier)) (rate : ℕ) (st : A.State)
        → Later first st
        → Replaced coins (update_prices A coins m rate st).coins
          × Later first (update_prices A coins m rate st).state
    unfolding update_prices
    update_prices-Replaced coins m rate st l =
        let first_loop = quote_listed-Kept m rate st l in
        let st₁ = (quote_listed A m rate st).1 in
        elim (Option-cases (quote_listed A m rate st).0) [
          | inl panic ↦ rw (panic, update_prices) (unchanged, first_loop.1)
          | inr (cs, done) ↦
              let second_loop = quote_supported-Kept m cs st₁ (first_loop.0 cs done) first_loop.1 in
              rw (done, update_prices)
                (elim (Option-cases (quote_supported A m cs st₁).0) [
                  | inl panic ↦ rw (panic, update_prices) (unchanged, second_loop.1)
                  | inr (all, finished) ↦
                      rw (finished, update_prices)
                        (replaced all (second_loop.0 all finished), second_loop.1)
                ])
        ]
