-- ===== src/Server/Updater.antt =====
-- `update_prices` and `run_update_prices_loop` of dia-batching-server/src/price_updater.rs.
-- The API of DIA and the clock are a state that each call changes. A panic ends the task.
pub mod Clock
pub mod Pace
pub mod Rounds
pub mod Served
pub mod Stopped
pub mod Unordered
use oracle_pallet.Prelude.{
  ℕ, zero, suc, ◌-◌, Bool, true, false, ◌||◌, Option, none, some, List, [], ◌∷◌, ◌++◌,
  if◌then◌else◌, ◌==◌, bytes_eq,
}
use oracle_pallet.Result.{Result, ok, err}
use oracle_pallet.Text.{codes}
use oracle_pallet.Server.Types.{
  AssetSpecifier, asset_specifier_eq, Asset, Crates, QuotedAsset, Quotation, CoinInfo, BoxError,
}
use oracle_pallet.Server.Convert.{Fallible, ◌>>=◌, convert_to_coin_info}
use oracle_pallet.Server.Storage.{CoinInfoStorage, replace_currencies_by_symbols}

-- The trait `DiaApi` of dia-batching-server/src/dia.rs, and the clock: `Instant::now` in
-- milliseconds and `tokio::time::delay_for`.
pub record DiaApi (X : Crates) : Type 1 where
  pub State : Type 0
  pub get_quotable_assets : State → Result BoxError (List (QuotedAsset X)) × State
  pub get_quotation : QuotedAsset X → State → Result BoxError (Quotation X) × State
  pub now : State → ℕ
  pub delay_for : ℕ → State → State

-- The state after an update, or where a panic has ended it.
pub record Round {X : Crates} (A : DiaApi X) : Type 0 where
  pub finished : Bool
  pub coins : CoinInfoStorage
  pub state : A.State

-- `HashSet::contains`, on the set's elements in the order of its iteration.
abbrev pub contains : List AssetSpecifier → AssetSpecifier → Bool
contains [] a = false
contains (b ∷ bs) a = b == a || contains bs a

-- `maybe_supported_currencies.as_ref().map_or(true, |supported| supported.contains(&asset))`
unfoldable pub is_wanted : Option (List AssetSpecifier) → AssetSpecifier → Bool
is_wanted none asset = true
is_wanted (some supported) asset = contains supported asset

unfoldable pub is_special : AssetSpecifier → Bool
is_special asset = asset.blockchain == codes "FIAT" || asset.blockchain == codes "Amplitude"

-- `currencies.push(coin_info)` on success; an error is logged; a panic goes on.
unfoldable pub push : List CoinInfo → Fallible BoxError CoinInfo → Option (List CoinInfo)
push currencies none = none
push currencies (some (ok coin_info)) = some (currencies ++ (coin_info ∷ []))
push currencies (some (err e)) = some currencies

module _ {X : Crates} where
  abbrev pub specifier : QuotedAsset X → AssetSpecifier
  specifier q = record { blockchain = q.asset.blockchain; symbol = q.asset.symbol }

  -- The dummy asset that is asked for in the second loop.
  unfoldable pub dummy : AssetSpecifier → QuotedAsset X
  dummy asset = record {
    asset = record {
      symbol = asset.symbol;
      name = [];
      address = [];
      decimals = 0;
      blockchain = asset.blockchain;
    };
    volume = X.default_float;
  }

module _ {X : Crates} (A : DiaApi X) where
  -- `api.get_quotation(&asset).await.and_then(convert_to_coin_info)`, pushed.
  unfoldable pub quote : QuotedAsset X → List CoinInfo → A.State → Option (List CoinInfo) × A.State
  unfolding push
  quote asset currencies st =
      let (r, st') = A.get_quotation asset st in
      (push currencies (some r >>= convert_to_coin_info X), st')

  -- The loop over the quotable assets.
  unfoldable pub quote_wanted :
      Option (List AssetSpecifier)
      → ℕ
      → List (QuotedAsset X)
      → List CoinInfo
      → A.State
      → Option (List CoinInfo) × A.State
  quote_wanted maybe_supported rate [] currencies st = (some currencies, st)
  quote_wanted maybe_supported rate (q ∷ qs) currencies st =
      elim (is_wanted maybe_supported (specifier q)) [
        | false ↦ quote_wanted maybe_supported rate qs currencies st
        | true ↦
            let (r, st') = quote q currencies st in
            elim r [
              | none ↦ (none, st')
              | some currencies' ↦
                  quote_wanted maybe_supported rate qs currencies' (A.delay_for rate st')
            ]
      ]

  -- The loop over the supported currencies, for those that DIA does not list.
  unfoldable pub quote_special :
      List AssetSpecifier → List CoinInfo → A.State → Option (List CoinInfo) × A.State
  quote_special [] currencies st = (some currencies, st)
  quote_special (a ∷ rest) currencies st = elim (is_special a) [
    | false ↦ quote_special rest currencies st
    | true ↦
        let (r, st') = quote (dummy a) currencies st in
        elim r [ none ↦ (none, st') | some currencies' ↦ quote_special rest currencies' st' ]
  ]

  unfoldable pub quote_listed :
      Option (List AssetSpecifier) → ℕ → A.State → Option (List CoinInfo) × A.State
  unfolding quote_wanted
  quote_listed maybe_supported rate st =
      let (listed, st₁) = A.get_quotable_assets st in
      elim listed [
        | ok quotable_assets ↦ quote_wanted maybe_supported rate quotable_assets [] st₁
        | err e ↦ (some [], st₁)
      ]

  unfoldable pub quote_supported :
      Option (List AssetSpecifier) → List CoinInfo → A.State → Option (List CoinInfo) × A.State
  unfolding quote_special
  quote_supported none currencies st = (some currencies, st)
  quote_supported (some supported) currencies st = quote_special supported currencies st

  unfoldable pub update_prices :
      CoinInfoStorage → Option (List AssetSpecifier) → ℕ → A.State → Round A
  unfolding quote_listed quote_supported
  update_prices coins maybe_supported rate st =
      let (listed, st₁) = quote_listed maybe_supported rate st in
      elim listed [
        | none ↦ record { finished = false; coins = coins; state = st₁ }
        | some currencies ↦
            let (all, st₂) = quote_supported maybe_supported currencies st₁ in
            elim all [
              | none ↦ record { finished = false; coins = coins; state = st₂ }
              | some currencies' ↦ record {
                finished = true;
                coins = replace_currencies_by_symbols coins currencies';
                state = st₂;
              }
            ]
      ]

  -- The spawned task, for a number of rounds. Each round waits for the rest of its `duration`; a
  -- panic ends the task, and the storage stays as it is.
  unfoldable pub run_update_prices_loop :
      ℕ → CoinInfoStorage → Option (List AssetSpecifier) → ℕ → ℕ → A.State → Round A
  run_update_prices_loop zero coins maybe_supported rate duration st = record {
    finished = true;
    coins = coins;
    state = st;
  }
  run_update_prices_loop (suc rounds) coins maybe_supported rate duration st =
      let r = update_prices coins maybe_supported rate st in
      let elapsed = A.now r.state - A.now st in
      let next =
        run_update_prices_loop rounds r.coins maybe_supported rate duration
          (A.delay_for (duration - elapsed) r.state) in
      if r.finished then next else r
