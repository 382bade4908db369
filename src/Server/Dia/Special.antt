-- ===== src/Server/Dia/Special.antt =====
-- The two special quotations of the client: the dollar in dollars, and AMPE.
use oracle_pallet.Prelude.{
  ℕ, ◌*◌, ◌/◌, ◌^◌, ◌<◌, ◌≡◌, ap, ◌∙◌, false, some, List, [], ◌∷◌, ◌++◌, arith, bytes_eq,
}
use oracle_pallet.Prelude.Int.{unsigned_abs}
use oracle_pallet.Result.{ok}
use oracle_pallet.Text.{codes}
use oracle_pallet.Server.Decimal.{DecimalApi, one, IsLawfulDecimal}
use oracle_pallet.Server.Types.{Crates, QuotedAsset, CoinInfo}
use oracle_pallet.Server.Convert.{convert_decimal_to_u128, convert_to_coin_info, price_scale}
use oracle_pallet.Server.Convert.Exact.{convert_exact}
use oracle_pallet.Server.Updater.{push, quote}
use oracle_pallet.Server.Dia.{
  Web, ampe_symbol, ampe_blockchain, ampe_url, get_default_fiat_usd_quotation, ampe_quotation,
  get_price, get_quotation, dia,
}

module _ (D : DecimalApi) (L : IsLawfulDecimal D) where
  convert_new :
      (n : ℕ)
      → n < 2 ^ 63
      → n * price_scale < 2 ^ 96
      → convert_decimal_to_u128 D (D.new n 0) ≡ some (ok (n * price_scale))
  convert_new n small fits =
      let u : D.units (D.new n 0) ≡ n * one = L.units-new n 0 small (omega arith) in
      convert_exact D L (D.new n 0) (L.new-nonneg n 0) (omega (arith, u))
      ∙ ap (λ (m : ℕ). some (ok m)) (omega (arith, u))

module _ (X : Crates) where
  abbrev pub usd_info : X.DateTime → CoinInfo
  usd_info t = record {
    symbol = codes "USD-USD";
    name = codes "USD-X";
    blockchain = codes "FIAT";
    supply = 0;
    last_update_timestamp = unsigned_abs (X.timestamp t);
    price = 10 ^ 12;
  }

  abbrev pub ampe_info : X.DateTime → ℕ → CoinInfo
  ampe_info t price = record {
    symbol = ampe_symbol;
    name = ampe_blockchain;
    blockchain = ampe_blockchain;
    supply = 0;
    last_update_timestamp = unsigned_abs (X.timestamp t);
    price = price;
  }

module _ (X : Crates) (L : IsLawfulDecimal X.decimal) where
  convert-usd :
      (t : X.DateTime)
      → convert_to_coin_info X (get_default_fiat_usd_quotation X t) ≡ some (ok (usd_info X t))
  unfolding convert_to_coin_info get_default_fiat_usd_quotation
  convert-usd t = rw (
    convert_new X.decimal L 1 (omega arith) (omega arith),
    convert_new X.decimal L 0 (omega arith) (omega arith),
  )

  convert-ampe :
      (t : X.DateTime) (price : X.decimal.Decimal)
      → X.decimal.is_negative price ≡ false
      → X.decimal.units price / one * price_scale < 2 ^ 96
      → convert_to_coin_info X (ampe_quotation X t price)
        ≡ some (ok (ampe_info X t (X.decimal.units price / 10 ^ 16)))
  unfolding convert_to_coin_info ampe_quotation
  convert-ampe t price nonneg fits = rw (
    convert_exact X.decimal L price nonneg fits,
    convert_new X.decimal L 0 (omega arith) (omega arith),
  )

module _ {X : Crates} (W : Web X) where
  get_quotation-usd :
      (q : QuotedAsset X) (st : W.State)
      → W.to_uppercase q.asset.blockchain ≡ codes "FIAT"
      → W.to_uppercase q.asset.symbol ≡ codes "USD-USD"
      → get_quotation W q st ≡ (ok (get_default_fiat_usd_quotation X (W.utc_now st)), st)
  unfolding get_quotation
  get_quotation-usd q st fiat usd = ground arith

  get_quotation-ampe :
      (q : QuotedAsset X) (st : W.State) (r : W.Response) (price : X.decimal.Decimal)
      → W.to_uppercase q.asset.blockchain ≡ codes "AMPLITUDE"
      → W.to_uppercase q.asset.symbol ≡ ampe_symbol
      → (W.post ampe_url st).0 ≡ ok r
      → W.eth_price r ≡ ok (some price)
      → let st' = (W.post ampe_url st).1 in
        get_quotation W q st ≡ (ok (ampe_quotation X (W.utc_now st') price), st')
  unfolding get_quotation get_price
  get_quotation-ampe q st r price chain symbol posted held = ground arith

module _ {X : Crates} (L : IsLawfulDecimal X.decimal) (W : Web X) where
  -- Over decimals with the documented laws, if an asset's names read FIAT and USD-USD in upper
  -- case, its quotation makes no request: one coin info with the price 1 and no supply is added.
  pub quote_usd :
      (q : QuotedAsset X) (currencies : List CoinInfo) (st : W.State)
      → W.to_uppercase q.asset.blockchain ≡ codes "FIAT"
      → W.to_uppercase q.asset.symbol ≡ codes "USD-USD"
      → quote (dia W) q currencies st ≡ (some (currencies ++ (usd_info X (W.utc_now st) ∷ [])), st)
  unfolding quote push
  quote_usd q currencies st fiat usd =
      rw (quote, get_quotation-usd W q st fiat usd, convert-usd X L (W.utc_now st))

  -- Over decimals with the documented laws, if an asset's names read AMPLITUDE and AMPE in upper
  -- case, and the answer to the one request holds a price that is not below zero and whose whole
  -- part times 10^12 is below 2^96, then a coin info with this price in units of 10^-12, rounded
  -- down, and no supply is added, under the names Amplitude and AMPE.
  pub quote_ampe :
      (q : QuotedAsset X) (currencies : List CoinInfo) (st : W.State) (r : W.Response)
      (price : X.decimal.Decimal)
      → W.to_uppercase q.asset.blockchain ≡ codes "AMPLITUDE"
      → W.to_uppercase q.asset.symbol ≡ ampe_symbol
      → (W.post ampe_url st).0 ≡ ok r
      → W.eth_price r ≡ ok (some price)
      → X.decimal.is_negative price ≡ false
      → X.decimal.units price / one * price_scale < 2 ^ 96
      → let st' = (W.post ampe_url st).1 in
        let info = ampe_info X (W.utc_now st') (X.decimal.units price / 10 ^ 16) in
        quote (dia W) q currencies st ≡ (some (currencies ++ (info ∷ [])), st')
  unfolding quote push
  quote_ampe q currencies st r price chain symbol posted held nonneg fits = rw (
    quote,
    get_quotation-ampe W q st r price chain symbol posted held,
    convert-ampe X L (W.utc_now (W.post ampe_url st).1) price nonneg fits,
  )
