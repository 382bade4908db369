-- ===== src/Server/Updater/Clock.antt =====
-- The time that the updater takes for its rounds.
mod Tests
use oracle_pallet.Prelude.{
  ℕ, zero, suc, ◌+◌, ◌*◌, ◌-◌, ◌≤◌, ◌≡◌, refl, Bool, true, false, Option, none, some, List, [], ◌∷◌,
  ◌++◌, map, arith, length, Bool-cases, Option-cases, inl, inr,
}
use oracle_pallet.Result.{Result}
use oracle_pallet.Server.Types.{AssetSpecifier, Crates, QuotedAsset, Quotation, BoxError}
use oracle_pallet.Server.Storage.{CoinInfoStorage}
use oracle_pallet.Server.Updater.{DiaApi, update_prices, run_update_prices_loop}
use oracle_pallet.Server.Updater.Rounds.{
  wanted, specials, listed, requests, converted, panics, IsSteady, update_prices_exact,
}
use oracle_pallet.Server.Updater.Pace.{
  ApiCall, ask, pause, paced, until_panic, play, round_calls, update_prices-plays,
}

-- The clock never runs back, and a delay takes at least its duration.
pub record IsClocked {X : Crates} (A : DiaApi X) : Type 0 where
  pub listing_takes : (st : A.State) → A.now st ≤ A.now (A.get_quotable_assets st).1
  pub quotation_takes :
      (q : QuotedAsset X) (st : A.State) → A.now st ≤ A.now (A.get_quotation q st).1
  pub delay_takes : (ms : ℕ) (st : A.State) → A.now st + ms ≤ A.now (A.delay_for ms st)

module _ {X : Crates} where
  abbrev pauses : List (ApiCall X) → ℕ
  pauses [] = 0
  pauses (ask q ∷ rest) = pauses rest
  pauses (pause ms ∷ rest) = ms + pauses rest

  pauses-paced :
      (rate : ℕ) (qs rs : List (QuotedAsset X))
      → pauses (paced rate qs ++ map ask rs) ≡ length qs * rate
  pauses-paced rate [] [] = omega arith
  pauses-paced rate [] (r ∷ rs) = pauses-paced rate [] rs
  pauses-paced rate (q ∷ qs) rs = ground (arith, pauses-paced rate qs rs)

  until_panic-calm :
      (answer : QuotedAsset X → Result BoxError (Quotation X)) (rate : ℕ)
      (qs rs : List (QuotedAsset X))
      → panics answer (qs ++ rs) ≡ false
      → until_panic answer (paced rate qs ++ map ask rs) ≡ paced rate qs ++ map ask rs
  until_panic-calm answer rate [] [] calm = refl
  until_panic-calm answer rate [] (r ∷ rs) calm = elim (Option-cases (converted answer r)) [
    | inl panic ↦ absurd (ground arith)
    | inr (c, given) ↦ ground (arith, until_panic-calm answer rate [] rs)
  ]
  until_panic-calm answer rate (q ∷ qs) rs calm = elim (Option-cases (converted answer q)) [
    | inl panic ↦ absurd (ground arith)
    | inr (c, given) ↦ ground (arith, until_panic-calm answer rate qs rs)
  ]

module _ {X : Crates} (A : DiaApi X) (K : IsClocked A) where
  play_takes :
      (calls : List (ApiCall X)) (st : A.State) → A.now st + pauses calls ≤ A.now (play A calls st)
  play_takes [] st = omega arith
  play_takes (ask q ∷ rest) st =
      omega (arith, K.quotation_takes q st, play_takes rest (A.get_quotation q st).1)
  play_takes (pause ms ∷ rest) st =
      omega (arith, K.delay_takes ms st, play_takes rest (A.delay_for ms st))

  module _ (T : IsSteady A) (m : Option (List AssetSpecifier)) (rate : ℕ) where
    -- How many assets the first loop asks for.
    abbrev pub listed_requests : ℕ
    listed_requests = length (wanted m (listed T.listing))

    round_takes :
        (coins : CoinInfoStorage) (st : A.State)
        → let r = update_prices A coins m rate st in
          r.finished ≡ true → A.now st + listed_requests * rate ≤ A.now r.state
    round_takes coins st done =
        let calm : panics T.answer (requests T.listing m) ≡ false =
          ground (arith, (update_prices_exact A T coins m rate st).0) in
        let st₁ = (A.get_quotable_assets st).1 in
        let calls = round_calls A T m rate in
        let whole =
          until_panic-calm T.answer rate (wanted m (listed T.listing)) (specials m) calm in
        rw (update_prices-plays A T coins m rate st) (
          rw whole (
            omega (
              arith,
              K.listing_takes st,
              play_takes calls st₁,
              pauses-paced rate (wanted m (listed T.listing)) (specials m),
            )))

    -- Against an API whose answers stay the same, and with a clock that never runs back and delays
    -- that take at least their duration: a number of rounds that no panic ends takes at least
    -- this number times the duration of an iteration, and at least the delay of a request for
    -- every asset of the listing that is asked for in these rounds.
    pub loop_takes :
        (rounds : ℕ) (coins : CoinInfoStorage) (duration : ℕ) (st : A.State)
        → let r = run_update_prices_loop A rounds coins m rate duration st in
          r.finished ≡ true
          → (A.now st + rounds * duration ≤ A.now r.state)
            × (A.now st + rounds * (listed_requests * rate) ≤ A.now r.state)
    unfolding run_update_prices_loop
    loop_takes zero coins duration st done = (omega arith, omega arith)
    loop_takes (suc rounds) coins duration st done =
        let r = update_prices A coins m rate st in
        let elapsed = A.now r.state - A.now st in
        let st' = A.delay_for (duration - elapsed) r.state in
        elim (Bool-cases r.finished) [
          | inr panicked ↦ absurd (ground arith)
          | inl finished ↦
              let (later, spread) = loop_takes rounds r.coins duration st' (ground arith) in
              let delay = K.delay_takes (duration - elapsed) r.state in
              let takes = round_takes coins st finished in
              rw finished (omega (arith, later, delay, takes), omega (arith, spread, delay, takes))
        ]
