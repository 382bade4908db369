-- ===== src/Server/Updater/Unordered/Special.antt =====
-- What the second loop collects, by the supported currencies as a set.
use oracle_pallet.Prelude.{
  ◌≡◌, refl, ap, sym, ◌∙◌, Bool, true, false, ◌&&◌, ◌||◌, Option, none, some, List, [], ◌∷◌, ◌++◌,
  arith, if◌then◌else◌, ◌==◌, ==_refl, bytes_eq, Bool-cases, Option-cases, inl, inr,
}
use oracle_pallet.Result.{Result, ok, err}
use oracle_pallet.Server.Types.{
  Text, AssetSpecifier, asset_specifier_eq, Crates, QuotedAsset, Quotation, CoinInfo, BoxError,
}
use oracle_pallet.Server.Convert.{Fallible}
use oracle_pallet.Server.Storage.Answers.{last_info}
use oracle_pallet.Server.Updater.{contains, is_wanted, is_special, specifier, dummy}
use oracle_pallet.Server.Updater.Rounds.{wanted, special, converted, panics, successes}

-- Two orders, or two lists, of the same set.
abbrev pub SameElements : List AssetSpecifier → List AssetSpecifier → Type 0
SameElements xs ys = (a : AssetSpecifier) → contains xs a ≡ contains ys a

abbrev pub named : Text → Text → AssetSpecifier
named b y = record { blockchain = b; symbol = y }

abbrev pub or_before : Option CoinInfo → Option CoinInfo → Option CoinInfo
or_before (some c) old = some c
or_before none old = old

pub last_info-append :
    (cs ds : List CoinInfo) (b y : Text)
    → last_info (cs ++ ds) b y ≡ or_before (last_info ds b y) (last_info cs b y)
last_info-append [] ds b y = ground arith
last_info-append (c ∷ cs) ds b y = ground (arith, last_info-append cs ds b y)

module _ {X : Crates} (answer : QuotedAsset X → Result BoxError (Quotation X)) where
  pub wanted-SameElements :
      (xs ys : List AssetSpecifier) (qs : List (QuotedAsset X))
      → SameElements xs ys
      → wanted (some xs) qs ≡ wanted (some ys) qs
  unfolding is_wanted
  wanted-SameElements xs ys [] h = refl
  wanted-SameElements xs ys (q ∷ qs) h =
      ground (arith, h (specifier q), wanted-SameElements xs ys qs h)

  pub successes-append :
      (ps qs : List (QuotedAsset X))
      → successes answer (ps ++ qs) ≡ successes answer ps ++ successes answer qs
  successes-append [] qs = refl
  successes-append (p ∷ ps) qs = ground (arith, successes-append ps qs)

  pub panics-append :
      (ps qs : List (QuotedAsset X))
      → panics answer (ps ++ qs) ≡ panics answer ps || panics answer qs
  panics-append [] qs = refl
  panics-append (p ∷ ps) qs = ground (arith, panics-append ps qs)

  -- The coin info of a quotation that came and was converted.
  abbrev pub success : Fallible BoxError CoinInfo → Option CoinInfo
  success none = none
  success (some (ok c)) = some c
  success (some (err e)) = none

  abbrev fails : AssetSpecifier → Bool
  fails a = is_special a && elim (converted answer (dummy a)) [ none ↦ true | some r ↦ false ]

  -- The quotation of a special asset names this asset.
  abbrev pub NamesItself : Type 0
  NamesItself =
      (a : AssetSpecifier) (c : CoinInfo)
      → is_special a ≡ true
      → converted answer (dummy a) ≡ some (ok c)
      → (c.blockchain ≡ a.blockchain) × (c.symbol ≡ a.symbol)

  -- What the second loop collects for a blockchain and symbol, without an order.
  abbrev pub collected_for : List AssetSpecifier → Text → Text → Option CoinInfo
  collected_for xs b y =
      if contains xs (named b y) && is_special (named b y)
      then success (converted answer (dummy (named b y)))
      else none

  named_self : (x a : AssetSpecifier) → (x == a) ≡ true → x ≡ a
  named_self x a h = ground arith

  -- An info stands for a key exactly if the asset that it names is this key.
  names_key :
      (x : AssetSpecifier) (c : CoinInfo) (b y : Text)
      → (c.blockchain ≡ x.blockchain) × (c.symbol ≡ x.symbol)
      → (c.blockchain == b && c.symbol == y) ≡ (x == named b y)
  names_key x c b y n = ground arith

  pub last_info-special :
      (xs : List AssetSpecifier) (b y : Text)
      → NamesItself
      → last_info (successes answer (special xs)) b y ≡ collected_for xs b y
  last_info-special [] b y h = refl
  last_info-special (x ∷ xs) b y h =
      let rest = last_info-special xs b y h in
      elim (Bool-cases (is_special x)) [
        | inr plain ↦ elim (Bool-cases (x == named b y)) [
          | inl same ↦
              let e : is_special (named b y) ≡ false =
                ap is_special (sym (named_self x (named b y) same)) ∙ plain in
              ground (arith, rest, e)
          | inr other ↦ ground (arith, rest)
        ]
        | inl special_ ↦ elim (Bool-cases (x == named b y)) [
          | inl same ↦
              let e = named_self x (named b y) same in
              let e' : is_special (named b y) ≡ true = ap is_special (sym e) ∙ special_ in
              let e'' : converted answer (dummy x) ≡ converted answer (dummy (named b y)) =
                ap (λ a. converted answer (dummy a)) e in
              elim (Option-cases (converted answer (dummy x))) [
                | inl panicked ↦ ground (arith, rest, e', e'')
                | inr (ok c, made) ↦
                    ground (arith, rest, e', e'', names_key x c b y (h x c special_ made))
                | inr (err f, made) ↦ ground (arith, rest, e', e'')
              ]
          | inr other ↦ elim (Option-cases (converted answer (dummy x))) [
            | inl panicked ↦ ground (arith, rest)
            | inr (ok c, made) ↦ ground (arith, rest, names_key x c b y (h x c special_ made))
            | inr (err e, made) ↦ ground (arith, rest)
          ]
        ]
      ]

  panics-special-contains :
      (xs : List AssetSpecifier) (a : AssetSpecifier)
      → contains xs a ≡ true
      → fails a ≡ true
      → panics answer (special xs) ≡ true
  panics-special-contains [] a h f = absurd (ground arith)
  panics-special-contains (x ∷ xs) a h f =
      let rest = panics-special-contains xs a in
      elim (Bool-cases (x == a)) [
        | inl same ↦
            let e : fails x ≡ true = ap fails (named_self x a same) ∙ f in ground (arith, e)
        | inr other ↦
            let e : panics answer (special xs) ≡ true = rest (ground arith) f in ground (arith, e)
      ]

  contains-panics-special :
      (xs : List AssetSpecifier)
      → panics answer (special xs) ≡ true
      → (a : AssetSpecifier) × (contains xs a ≡ true) × (fails a ≡ true)
  contains-panics-special [] h = absurd (ground arith)
  contains-panics-special (x ∷ xs) h = elim (Bool-cases (panics answer (special xs))) [
    | inl later ↦
        let (a, known, failed) = contains-panics-special xs later in (a, ground arith, failed)
    | inr calm ↦ (x, rw (==_refl x) refl, ground arith)
  ]

  one_panics :
      (xs ys : List AssetSpecifier)
      → SameElements xs ys
      → panics answer (special xs) ≡ true
      → panics answer (special ys) ≡ true
  one_panics xs ys h p =
      let (a, known, failed) = contains-panics-special xs p in
      panics-special-contains ys a (sym (h a) ∙ known) failed

  pub panics-SameElements :
      (xs ys : List AssetSpecifier)
      → SameElements xs ys
      → panics answer (special xs) ≡ panics answer (special ys)
  panics-SameElements xs ys h = elim (Bool-cases (panics answer (special xs))) [
    | inl p ↦ p ∙ sym (one_panics xs ys h p)
    | inr p ↦ elim (Bool-cases (panics answer (special ys))) [
      | inl q ↦ absurd (ground (arith, one_panics ys xs (λ a. sym (h a)) q))
      | inr q ↦ p ∙ sym q
    ]
  ]

  pub collected_for-SameElements :
      (xs ys : List AssetSpecifier) (b y : Text)
      → SameElements xs ys
      → collected_for xs b y ≡ collected_for ys b y
  collected_for-SameElements xs ys b y h = rw (h (named b y)) refl
