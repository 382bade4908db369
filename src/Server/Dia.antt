-- ===== src/Server/Dia.antt =====
-- The client of DIA's API: `impl DiaApi for Dia` of dia-batching-server/src/dia.rs.
pub mod Special
mod Tests
use oracle_pallet.Prelude.{
  [], ℕ, true, false, Option, none, some, List, ◌++◌, ◌==◌, bytes_eq, ◌∷◌, ◌&&◌,
}
use oracle_pallet.Result.{Result, ok, ok_or, map_ok, and_then}
use oracle_pallet.Text.{codes}
use oracle_pallet.Server.Types.{Text, Crates, QuotedAsset, Quotation, BoxError, outside}
use oracle_pallet.Server.Updater.{DiaApi}

-- The crates `reqwest`, `serde_json` and `graphql_client`, the clocks, and `str::to_uppercase`.
pub record Web (X : Crates) : Type 1 where
  pub State : Type 0
  pub Response : Type 0
  -- `reqwest::get(url).await`
  pub get : Text → State → Result BoxError Response × State
  -- `client.post(url).json(&body).send().await`, with the body of the query
  pub post : Text → State → Result BoxError Response × State
  pub quotation : Response → Result BoxError (Quotation X)
  pub quoted_assets : Response → Result BoxError (List (QuotedAsset X))
  -- `Response<ampe_price_view::ResponseData>`: its `data`, as the `eth_price` that it holds
  pub eth_price : Response → Result BoxError (Option (X.decimal.Decimal))
  pub utc_now : State → X.DateTime
  pub now : State → ℕ
  pub delay_for : ℕ → State → State
  pub to_uppercase : Text → Text

abbrev pub quotable_assets_endpoint : Text
quotable_assets_endpoint = codes "https://api.diadata.org/v1/quotedAssets"

abbrev pub foreign_quotation_endpoint : Text
foreign_quotation_endpoint = codes "https://api.diadata.org/v1/foreignQuotation/YahooFinance"

abbrev pub quotation_endpoint : Text
quotation_endpoint = codes "https://api.diadata.org/v1/assetQuotation"

-- `AmpePriceView::SYMBOL`, `AmpePriceView::BLOCKCHAIN` and `AmpePriceView::URL`
abbrev pub ampe_symbol : Text
ampe_symbol = codes "AMPE"

abbrev pub ampe_blockchain : Text
ampe_blockchain = codes "Amplitude"

abbrev pub ampe_url : Text
ampe_url = codes "https://squid.subsquid.io/amplitude-squid/graphql"

module _ (X : Crates) where
  -- `Quotation::default`, at the time that the clock gives.
  unfoldable pub default_quotation : X.DateTime → Quotation X
  default_quotation time = record {
    symbol = [];
    name = [];
    address = none;
    blockchain = none;
    price = X.decimal.new 0 0;
    price_yesterday = X.decimal.new 0 0;
    volume_yesterday = X.decimal.new 0 0;
    time = time;
    source = [];
  }

  unfoldable pub get_default_fiat_usd_quotation : X.DateTime → Quotation X
  get_default_fiat_usd_quotation time = record {
    symbol = codes "USD-USD";
    name = codes "USD-X";
    address = none;
    blockchain = none;
    price = X.decimal.new 1 0;
    price_yesterday = X.decimal.new 1 0;
    volume_yesterday = X.decimal.new 0 0;
    time = time;
    source = codes "YahooFinance";
  }

  -- `Decimal::default()` is zero.
  unfoldable pub ampe_quotation : X.DateTime → X.decimal.Decimal → Quotation X
  ampe_quotation time price = record {
    symbol = ampe_symbol;
    name = ampe_blockchain;
    address = none;
    blockchain = some ampe_blockchain;
    price = price;
    price_yesterday = X.decimal.new 0 0;
    volume_yesterday = X.decimal.new 0 0;
    time = time;
    source = ampe_url;
  }

module _ {X : Crates} (W : Web X) where
  -- `AmpePriceView::get_price`
  unfoldable pub get_price : W.State → Result BoxError (Quotation X) × W.State
  unfolding ampe_quotation
  get_price st =
      let (response, st') = W.post ampe_url st in
      (
        map_ok (ampe_quotation X (W.utc_now st')) (
            and_then (and_then response W.eth_price)
              (λ data_. ok_or data_ (outside (codes "No price found for AMPE")))),
        st',
      )

  -- `reqwest::get(&url).await?` and `r.json().await?`
  unfoldable pub fetch : Text → W.State → Result BoxError (Quotation X) × W.State
  fetch url st = let (response, st') = W.get url st in (and_then response W.quotation, st')

  unfoldable pub get_quotation : QuotedAsset X → W.State → Result BoxError (Quotation X) × W.State
  unfolding get_default_fiat_usd_quotation get_price fetch
  get_quotation q st =
      let asset = q.asset in
      let symbol = W.to_uppercase asset.symbol in
      elim (W.to_uppercase asset.blockchain == codes "FIAT") [
        | true ↦ elim (symbol == codes "USD-USD") [
          | true ↦ (ok (get_default_fiat_usd_quotation X (W.utc_now st)), st)
          | false ↦ fetch (foreign_quotation_endpoint ++ b'/' ∷ symbol) st
        ]
        | false ↦
            elim (W.to_uppercase asset.blockchain == codes "AMPLITUDE" && symbol == ampe_symbol) [
              | true ↦ get_price st
              | false ↦
                  fetch (quotation_endpoint ++ b'/' ∷ asset.blockchain ++ b'/' ∷ asset.address) st
            ]
      ]

  unfoldable pub get_quotable_assets : W.State → Result BoxError (List (QuotedAsset X)) × W.State
  get_quotable_assets st =
      let (r, st') = W.get quotable_assets_endpoint st in (and_then r W.quoted_assets, st')

  abbrev pub dia : DiaApi X
  dia = record {
    State = W.State;
    get_quotable_assets = get_quotable_assets;
    get_quotation = get_quotation;
    now = W.now;
    delay_for = W.delay_for;
  }
