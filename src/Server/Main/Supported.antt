-- ===== src/Server/Main/Supported.antt =====
-- The supported currencies that the updater gets from a command line.
use oracle_pallet.Prelude.{
  ℕ, ◌≤◌, ◌≡◌, ◌≢◌, refl, ap, false, ◌||◌, some, List, [], ◌∷◌, ◌++◌, map, arith, if◌then◌else◌,
  ◌==◌, nat_eq, length, All, inl, inr, Bool-cases,
}
use oracle_pallet.Text.{join}
use oracle_pallet.Server.Types.{Text, AssetSpecifier, asset_specifier_eq}
use oracle_pallet.Server.Args.{
  extend, split, split_once, is_whitespace, trim_start, trim_end, trim, parse_currency_vec,
}
use oracle_pallet.Server.Storage.{filter_map}
use oracle_pallet.Server.Updater.{contains}
use oracle_pallet.Server.Main.{parse_asset, collect_set, supported_currencies}

-- `<blockchain>:<symbol>`
abbrev pub render : AssetSpecifier → Text
render a = a.blockchain ++ b':' ∷ a.symbol

-- No comma, no colon before the symbol, no white space at the two ends.
pub record IsClean (a : AssetSpecifier) : Type 0 where
  pub blockchain_commas : All (λ c. c ≢ b',') a.blockchain
  pub blockchain_colons : All (λ c. c ≢ b':') a.blockchain
  pub symbol_commas : All (λ c. c ≢ b',') a.symbol
  pub start : trim_start a.blockchain ≡ a.blockchain
  pub finish : trim_end a.symbol ≡ a.symbol

length-extend : (c : ℕ) (pieces : List Text) → 1 ≤ length (extend c pieces)
length-extend c [] = omega arith
length-extend c (piece ∷ pieces) = omega arith

module _ (s : ℕ) where
  split-one : (p : Text) → All (λ c. c ≢ s) p → split s p ≡ p ∷ []
  unfolding split
  split-one [] h = refl
  split-one (c ∷ p) h = ground (arith, split-one p h.1)

  split-append : (p r : Text) → All (λ c. c ≢ s) p → split s (p ++ s ∷ r) ≡ p ∷ split s r
  unfolding split
  split-append [] r h = ground arith
  split-append (c ∷ p) r h = ground (arith, split-append p r h.1)

  pub split-join :
      (p : Text) (ps : List Text)
      → All (All (λ c. c ≢ s)) (p ∷ ps)
      → split s (join s (p ∷ ps)) ≡ p ∷ ps
  unfolding join
  split-join p [] h = split-one p h.0
  split-join p (q ∷ qs) h = rw (split-append p (join s (q ∷ qs)) h.0, split-join q qs h.1)

  pub split_once-append :
      (p r : Text) → All (λ c. c ≢ s) p → split_once s (p ++ s ∷ r) ≡ some (p, r)
  unfolding split_once
  split_once-append [] r h = ground arith
  split_once-append (c ∷ p) r h = ground (arith, split_once-append p r h.1)

  split-ne-nil : (text : Text) → 1 ≤ length (split s text)
  unfolding split
  split-ne-nil [] = omega arith
  split-ne-nil (c ∷ text) = elim (Bool-cases (c == s)) [
    | inl cut ↦ rw cut (omega arith)
    | inr kept ↦ rw kept (length-extend c (split s text))
  ]

length-trim_start : (t : Text) → length (trim_start t) ≤ length t
unfolding trim_start
length-trim_start [] = omega arith
length-trim_start (c ∷ t) = ground (arith, length-trim_start t)

solid_start : (c : ℕ) (b : Text) → trim_start (c ∷ b) ≡ c ∷ b → is_whitespace c ≡ false
unfolding trim_start
solid_start c b h = elim (Bool-cases (is_whitespace c)) [
  | inl space ↦ absurd (omega (arith, length-trim_start b, ap length (rw space at h)))
  | inr solid ↦ solid
]

pub trim_start-append : (b y : Text) → trim_start b ≡ b → trim_start (b ++ b':' ∷ y) ≡ b ++ b':' ∷ y
unfolding trim_start
trim_start-append [] y h = refl
trim_start-append (c ∷ b) y h = ground (arith, solid_start c b h)

ne_nil : (b y : Text) (c : ℕ) → (b ++ c ∷ y) ≢ []
ne_nil [] y c = λ h. cc
ne_nil (d ∷ b) y c = λ h. cc

pub trim_end-append : (b y : Text) → trim_end y ≡ y → trim_end (b ++ b':' ∷ y) ≡ b ++ b':' ∷ y
unfolding trim_end
trim_end-append [] [] h = refl
trim_end-append [] (c ∷ y) h = ground arith
trim_end-append (c ∷ b) y h = ground (arith, trim_end-append b y h, ne_nil b y b':')

All-append_comma :
    (b y : Text)
    → All (λ c. c ≢ b',') b
    → All (λ c. c ≢ b',') y
    → All (λ c. c ≢ b',') (b ++ b':' ∷ y)
All-append_comma [] y hb hy = (omega arith, hy)
All-append_comma (c ∷ b) y hb hy = (hb.0, All-append_comma b y hb.1 hy)

trim-render : (a : AssetSpecifier) → IsClean a → trim (render a) ≡ render a
unfolding trim
trim-render a h =
    rw (trim_start-append a.blockchain a.symbol h.start)
      (trim_end-append a.blockchain a.symbol h.finish)

parse_asset-render : (a : AssetSpecifier) → IsClean a → parse_asset (render a) ≡ some a
unfolding parse_asset
parse_asset-render a h =
    rw (
      parse_asset,
      trim-render a h,
      split_once-append b':' a.blockchain a.symbol h.blockchain_colons,
    )

filter_map-render :
    (assets : List AssetSpecifier)
    → All IsClean assets
    → filter_map parse_asset (map render assets) ≡ assets
unfolding filter_map
filter_map-render [] h = refl
filter_map-render (a ∷ rest) h =
    ground (arith, parse_asset-render a h.0, filter_map-render rest h.1)

contains-append :
    (as_ bs : List AssetSpecifier) (a : AssetSpecifier)
    → contains (as_ ++ bs) a ≡ (contains as_ a || contains bs a)
contains-append [] bs a = refl
contains-append (b ∷ rest) bs a = ground (arith, contains-append rest bs a)

pub contains-collect_set :
    (set assets : List AssetSpecifier) (a : AssetSpecifier)
    → contains (collect_set set assets) a ≡ (contains set a || contains assets a)
unfolding collect_set
contains-collect_set set [] a = ground arith
contains-collect_set set (b ∷ rest) a = ground (
  arith,
  contains-collect_set (if contains set b then set else set ++ (b ∷ [])) rest a,
  contains-append set (b ∷ []) a,
  Bool-cases (contains set b),
)

pub render_commas : (a : AssetSpecifier) → IsClean a → All (λ c. c ≢ b',') (render a)
render_commas a h = All-append_comma a.blockchain a.symbol h.blockchain_commas h.symbol_commas

map-render_commas :
    (assets : List AssetSpecifier)
    → All IsClean assets
    → All (All (λ c. c ≢ b',')) (map render assets)
map-render_commas [] h = tt
map-render_commas (a ∷ rest) h = (render_commas a h.0, map-render_commas rest h.1)

-- The set of the assets of an argument.
pub supported_set :
    (src : Text)
    → supported_currencies (parse_currency_vec src)
      ≡ some (collect_set [] (filter_map parse_asset (split b',' src)))
unfolding supported_currencies parse_currency_vec
supported_set src = ground (arith, split-ne-nil b',' src)

-- Whatever the argument is, also an empty one, the updater gets a set: from the command line it is
-- never asked to update all the assets that DIA lists.
pub supported_never_all :
    (src : Text)
    → (set : List AssetSpecifier) × (supported_currencies (parse_currency_vec src) ≡ some set)
supported_never_all src =
    (collect_set [] (filter_map parse_asset (split b',' src)), supported_set src)

-- One or more assets that are written as `<blockchain>:<symbol>` and joined by commas give a set
-- of exactly these assets, if their names hold no comma, no colon before the symbol and no white
-- space at the ends.
pub supported_round_trip :
    (first : AssetSpecifier) (rest : List AssetSpecifier) (a : AssetSpecifier)
    → All IsClean (first ∷ rest)
    → (set : List AssetSpecifier) × (supported_currencies
          (parse_currency_vec (join b',' (map render (first ∷ rest))))
        ≡ some set)
      × (contains set a ≡ contains (first ∷ rest) a)
unfolding supported_currencies parse_currency_vec
supported_round_trip first rest a clean = (
  collect_set [] (first ∷ rest),
  rw (split-join b',' (render first) (map render rest) (map-render_commas (first ∷ rest) clean))
      (rw (filter_map-render (first ∷ rest) clean) (ground arith)),
  contains-collect_set [] (first ∷ rest) a,
)
