-- ===== src/Server/Main/Entries.antt =====
-- The assets that an argument lists, by the entries that it is written with.
use oracle_pallet.Prelude.{
  ℕ, ◌≡◌, ◌≢◌, refl, ap, sym, if◌then◌else◌, Bool-cases, inl, inr, ◌∙◌, true, none, some, List, [],
  ◌∷◌, ◌++◌, map, arith, nat_eq, All,
}
use mathlib.Core.List.{append_assoc}
use oracle_pallet.Text.{join}
use oracle_pallet.Server.Types.{Text, AssetSpecifier}
use oracle_pallet.Server.Args.{split, split_once, is_whitespace, trim_start, trim_end, trim}
use oracle_pallet.Server.Storage.{filter_map}
use oracle_pallet.Server.Main.{parse_asset}
use oracle_pallet.Server.Main.Supported.{
  render, IsClean, split-join, split_once-append, trim_start-append, trim_end-append, render_commas,
}

-- One entry of the argument: an asset between white space, or a text that is none.
pub data Entry : Type 0 where
  asset : Text → AssetSpecifier → Text → Entry
  other : Text → Entry

abbrev pub written : Entry → Text
written (asset before a after) = before ++ (render a ++ after)
written (other t) = t

abbrev pub IsSpace : Text → Type 0
IsSpace = All (λ c. is_whitespace c ≡ true)

-- An asset is written cleanly, and what is no asset has no colon and no comma.
abbrev pub IsEntry : Entry → Type 0
IsEntry (asset before a after) = IsSpace before × IsClean a × IsSpace after
IsEntry (other t) = All (λ c. c ≢ b',') t × All (λ c. c ≢ b':') t

-- The assets alone, in their order.
abbrev pub assets : List Entry → List AssetSpecifier
assets [] = []
assets (asset before a after ∷ rest) = a ∷ assets rest
assets (other t ∷ rest) = assets rest

All-append-≢ :
    (s : ℕ) (p r : Text) → All (λ c. c ≢ s) p → All (λ c. c ≢ s) r → All (λ c. c ≢ s) (p ++ r)
All-append-≢ s [] r hp hr = hr
All-append-≢ s (c ∷ p) r hp hr = (hp.0, All-append-≢ s p r hp.1 hr)

space_commas : (w : Text) → IsSpace w → All (λ c. c ≢ b',') w
unfolding is_whitespace
space_commas [] h = tt
space_commas (c ∷ w) h = (ground (arith, h.0), space_commas w h.1)

written_commas : (e : Entry) → IsEntry e → All (λ c. c ≢ b',') (written e)
written_commas (asset v a w) h =
    All-append-≢ b',' v (render a ++ w) (space_commas v h.0)
      (All-append-≢ b',' (render a) w (render_commas a h.1) (space_commas w h.2))
written_commas (other t) h = h.0

map-written_commas : (es : List Entry) → All IsEntry es → All (All (λ c. c ≢ b',')) (map written es)
map-written_commas [] h = tt
map-written_commas (e ∷ es) h = (written_commas e h.0, map-written_commas es h.1)

trim_start-space : (w t : Text) → IsSpace w → trim_start (w ++ t) ≡ trim_start t
unfolding trim_start
trim_start-space [] t h = refl
trim_start-space (c ∷ w) t h = ground (arith, trim_start-space w t h.1, h.0)

trim_end-nil : (w : Text) → IsSpace w → trim_end w ≡ []
unfolding trim_end
trim_end-nil [] h = refl
trim_end-nil (c ∷ w) h = ground (arith, trim_end-nil w h.1, h.0)

trim_end-space : (t w : Text) → IsSpace w → trim_end (t ++ w) ≡ trim_end t
unfolding trim_end
trim_end-space [] w h = trim_end-nil w h
trim_end-space (c ∷ t) w h = ground (arith, trim_end-space t w h)

trim_start-written :
    (v w : Text) (a : AssetSpecifier)
    → IsSpace v
    → IsClean a
    → trim_start (v ++ (render a ++ w)) ≡ render a ++ w
trim_start-written v w a hv clean =
    trim_start-space v (render a ++ w) hv
    ∙ ap trim_start (append_assoc a.blockchain (b':' ∷ a.symbol) w)
    ∙ trim_start-append a.blockchain (a.symbol ++ w) clean.start
    ∙ sym (append_assoc a.blockchain (b':' ∷ a.symbol) w)

module _ (P : ℕ → Type 0) where
  trim_start-All : (t : Text) → All P t → All P (trim_start t)
  unfolding trim_start
  trim_start-All [] h = tt
  trim_start-All (c ∷ t) h = elim (Bool-cases (is_whitespace c)) [
    | inl space ↦ rw (space, trim_start) (trim_start-All t h.1)
    | inr solid ↦ rw (solid, trim_start) h
  ]

  -- The first character, if what is left or the character itself is solid.
  kept-All :
      (c : ℕ) (r : Text)
      → P c
      → All P r
      → All P (elim r [ [] ↦ if is_whitespace c then [] else c ∷ [] | d ∷ rest ↦ c ∷ d ∷ rest ])
  kept-All c [] h k = elim (Bool-cases (is_whitespace c)) [
    | inl space ↦ rw space tt
    | inr solid ↦ rw solid (h, tt)
  ]
  kept-All c (d ∷ rest) h k = (h, k)

  trim_end-All : (t : Text) → All P t → All P (trim_end t)
  unfolding trim_end
  trim_end-All [] h = tt
  trim_end-All (c ∷ t) h = kept-All c (trim_end t) h.0 (trim_end-All t h.1)

  trim-All : (t : Text) → All P t → All P (trim t)
  unfolding trim
  trim-All t h = trim_end-All (trim_start t) (trim_start-All t h)

split_once-none : (t : Text) → All (λ c. c ≢ b':') t → split_once b':' t ≡ none
unfolding split_once
split_once-none [] h = refl
split_once-none (c ∷ t) h = ground (arith, h.0, split_once-none t h.1)

trim-written :
    (v w : Text) (a : AssetSpecifier)
    → IsSpace v
    → IsClean a
    → IsSpace w
    → trim (v ++ (render a ++ w)) ≡ render a
unfolding trim
trim-written v w a hv clean hw =
    ap trim_end (trim_start-written v w a hv clean)
    ∙ trim_end-space (render a) w hw
    ∙ trim_end-append a.blockchain a.symbol clean.finish

-- An entry is parsed to its asset, or left out.
parse_asset-asset :
    (v w : Text) (a : AssetSpecifier)
    → IsSpace v
    → IsClean a
    → IsSpace w
    → parse_asset (v ++ (render a ++ w)) ≡ some a
unfolding parse_asset
parse_asset-asset v w a hv clean hw = rw (
  parse_asset,
  trim-written v w a hv clean hw,
  split_once-append b':' a.blockchain a.symbol clean.blockchain_colons,
)

parse_asset-other : (t : Text) → All (λ c. c ≢ b':') t → parse_asset t ≡ none
unfolding parse_asset
parse_asset-other t h = rw (parse_asset, split_once-none (trim t) (trim-All (λ c. c ≢ b':') t h))

filter_map-written :
    (es : List Entry) → All IsEntry es → filter_map parse_asset (map written es) ≡ assets es
unfolding filter_map
filter_map-written [] h = refl
filter_map-written (asset v a w ∷ es) h =
    ground (arith, parse_asset-asset v w a h.0.0 h.0.1 h.0.2, filter_map-written es h.1)
filter_map-written (other t ∷ es) h =
    ground (arith, parse_asset-other t h.0.1, filter_map-written es h.1)

-- The assets of an argument that is written with these entries.
pub parsed-written :
    (e : Entry) (es : List Entry)
    → All IsEntry (e ∷ es)
    → filter_map parse_asset (split b',' (join b',' (map written (e ∷ es)))) ≡ assets (e ∷ es)
parsed-written e es h =
    ap (λ pieces. filter_map parse_asset pieces)
      (split-join b',' (written e) (map written es) (map-written_commas (e ∷ es) h))
    ∙ filter_map-written (e ∷ es) h
