-- ===== src/Pallet/Weights.antt =====
-- pallets/dia-oracle/src/weights.rs, and the weights that the calls of src/lib.rs declare. The
-- weights of FRAME, of its database accesses and their sum are parameters.
mod Tests
use oracle_pallet.Prelude.{ℕ, ◌≡◌, refl, ap, true, false, arith}
use oracle_pallet.Result.{ok}
use oracle_pallet.Pallet.Types.{Bytes, new_asset_id, asset_id_eq, Call}
use oracle_pallet.Pallet.Config.{Config, same_account, Storage, IsLawfulConfig}
use oracle_pallet.Pallet.Calls.{is_authorized, is_supported, dispatch}
use oracle_pallet.Pallet.Calls.Spec.{View}
use oracle_pallet.Pallet.Calls.Refinement.{view-dispatch}

pub record WeightApi : Type 1 where
  pub Weight : Type 0
  pub from_ref_time : ℕ → Weight
  pub saturating_add : Weight → Weight → Weight

-- `RuntimeDbWeight`
pub record DbWeight (W : WeightApi) : Type 0 where
  pub reads : ℕ → W.Weight
  pub writes : ℕ → W.Weight

-- The trait `WeightInfo`.
pub record WeightInfo (W : WeightApi) : Type 0 where
  pub add_currency : W.Weight
  pub remove_currency : W.Weight
  pub authorize_account : W.Weight
  pub authorize_account_signed : W.Weight
  pub deauthorize_account : W.Weight
  pub deauthorize_account_signed : W.Weight
  pub set_updated_coin_infos : W.Weight
  pub set_batching_api : W.Weight

module _ (W : WeightApi) where
  abbrev pub with_reads : DbWeight W → ℕ → ℕ → W.Weight
  with_reads db time reads = W.saturating_add (W.from_ref_time time) (db.reads reads)

  abbrev pub with_accesses : DbWeight W → ℕ → ℕ → ℕ → W.Weight
  with_accesses db time reads writes =
      W.saturating_add (with_reads db time reads) (db.writes writes)

  -- `DiaWeightInfo<T>`, where `db` is `T::DbWeight`.
  abbrev pub dia_weight_info : DbWeight W → WeightInfo W
  dia_weight_info db = record {
    add_currency = with_accesses db 1_494_649_000 2 1;
    remove_currency = with_reads db 542_550_000 2;
    authorize_account = with_accesses db 1_241_248_000 1 1;
    authorize_account_signed = with_accesses db 1_525_600_000 2 1;
    deauthorize_account = with_reads db 276_664_000 1;
    deauthorize_account_signed = with_accesses db 1_513_398_000 2 1;
    set_updated_coin_infos = with_accesses db 1_241_248_000 1 1;
    set_batching_api = with_accesses db 1_241_248_000 1 1;
  }

  -- `impl WeightInfo for ()`, where `rocks` is `RocksDbWeight`.
  abbrev pub unit_weight_info : DbWeight W → WeightInfo W
  unit_weight_info rocks = record {
    add_currency = with_accesses rocks 1_494_649_000 2 1;
    remove_currency = with_reads rocks 542_550_000 2;
    authorize_account = with_accesses rocks 1_241_248_000 1 1;
    authorize_account_signed = with_accesses rocks 1_525_600_000 2 1;
    deauthorize_account = with_reads rocks 276_664_000 1;
    deauthorize_account_signed = with_accesses rocks 1_513_398_000 2 1;
    set_updated_coin_infos = with_accesses rocks 1_241_248_000 1 1;
    set_batching_api = with_accesses rocks 1_241_248_000 1 1;
  }

-- The weight of a call: its attribute `pallet::weight`.
unfoldable pub declared_weight : {A : Type 0} {W : WeightApi} → WeightInfo W → Call A → W.Weight
declared_weight info (Call.add_currency b y) = info.add_currency
declared_weight info (Call.remove_currency b y) = info.remove_currency
declared_weight info (Call.authorize_account a) = info.authorize_account
declared_weight info (Call.deauthorize_account a) = info.deauthorize_account
declared_weight info (Call.set_updated_coin_infos cs) = info.set_updated_coin_infos
declared_weight info (Call.set_batching_api api) = info.set_batching_api

module _ (C : Config) (L : IsLawfulConfig C) {W : WeightApi} (db : DbWeight W) where
  -- The two implementations give the same weights over the same database. In both, the two calls
  -- that remove an entry declare no write, although, over storage maps with the laws of FRAME,
  -- an authorized account that removes a supported currency, or another authorized account, does
  -- change the storage.
  pub removals_declare_no_write :
      (b y : Bytes) (a who : C.AccountId) (o : C.Origin) (s : Storage C)
      → C.ensure_signed o ≡ ok who
      → is_authorized C s who ≡ true
      → is_supported C s (new_asset_id b y) ≡ true
      → is_authorized C s a ≡ true
      → same_account C a who ≡ false
      → (dia_weight_info W db ≡ unit_weight_info W db)
        × (is_supported C (dispatch C (Call.remove_currency b y) o s).1 (new_asset_id b y) ≡ false)
        × (is_authorized C (dispatch C (Call.deauthorize_account a) o s).1 a ≡ false)
        × (declared_weight {A = C.AccountId} (unit_weight_info W db) (Call.remove_currency b y)
            ≡ W.saturating_add (W.from_ref_time 542_550_000) (db.reads 2))
        × (declared_weight (unit_weight_info W db) (Call.deauthorize_account a)
            ≡ W.saturating_add (W.from_ref_time 276_664_000) (db.reads 1))
  unfolding declared_weight
  removals_declare_no_write b y a who o s signed known listed other distinct = (
    refl,
    ground (
      arith,
      ap (λ (v : View C.AccountId). v.supported (new_asset_id b y))
          (view-dispatch C L (Call.remove_currency b y) o s),
    ),
    ground (
      arith,
      ap (λ (v : View C.AccountId). v.authorized a)
          (view-dispatch C L (Call.deauthorize_account a) o s),
    ),
    refl,
    refl,
  )
