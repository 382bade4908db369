-- ===== src/Prelude/Equality.antt =====
-- `==` of Rust for every type whose equality can be decided, as an instance argument.
use Prim.Native.Nat.{ℕ}
use mathlib.Core.Path.{◌≡◌, refl}
use mathlib.Core.Logic.{ite}
use mathlib.Core.Bool.{Bool, true, false}
use mathlib.Core.List.{List, [], ◌∷◌}
use native.Mathlib.Decide.{ℕ_discrete}
use native.Mathlib.Omega.{arith}

pub record Eq {ℓ} (A : Type ℓ) : Type ℓ where
  pub dec : Discrete A

infix 50 ◌==◌
abbrev pub ◌==◌ {ℓ} : {A : Type ℓ} ⦃e : Eq A⦄ → A → A → Bool
◌==◌ ⦃e⦄ a b = ite (e.dec a b) true false

module _ {ℓ} {A : Type ℓ} ⦃e : Eq A⦄ where
  pub ==_refl : (a : A) → (a == a) ≡ true
  ==_refl a = ground arith

instance unfoldable pub nat_eq : Eq ℕ
unfolding ℕ_discrete
nat_eq = record { dec = ℕ_discrete }

list_dec {ℓ} : {A : Type ℓ} → Discrete A → Discrete (List A)
list_dec d = hlevel d

-- A sequence of bytes or of characters.
instance unfoldable pub bytes_eq : Eq (List ℕ)
unfolding list_dec ℕ_discrete
bytes_eq = record { dec = list_dec ℕ_discrete }

equal_bytes : (◌==◌ {A = List ℕ} (1 ∷ 2 ∷ []) (1 ∷ 2 ∷ [])) ≡ true
unfolding bytes_eq
equal_bytes = refl

unequal_bytes : (◌==◌ {A = List ℕ} (1 ∷ 2 ∷ []) (1 ∷ 3 ∷ [])) ≡ false
unfolding bytes_eq
unequal_bytes = refl
