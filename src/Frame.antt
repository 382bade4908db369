-- ===== src/Frame.antt =====
-- What the pallet takes of the FRAME libraries: storage maps, origins and the result of a call.
-- They are parameters of the pallet's model. A storage map is used through four operations, and
-- `IsLawful` states what their documentation says of them.
use oracle_pallet.Prelude.{
  ℕ, ◌+◌, ◌≡◌, Bool, Option, none, some, List, [], ◌∷◌, is_some, if◌then◌else◌, Eq, ◌==◌,
}

-- `StorageMap<_, _, K, V>`: `get` is `try_get`, and `none` is a key that is not stored.
pub record StorageMap (K V : Type 0) : Type 1 where
  pub Map : Type 0
  pub empty : Map
  pub contains_key : Map → K → Bool
  pub get : Map → K → Option V
  pub insert : Map → K → V → Map
  pub remove : Map → K → Map
  pub iter_keys : Map → List K

-- How often a key occurs in a list.
abbrev pub count : {K : Type 0} ⦃e : Eq K⦄ → K → List K → ℕ
count k [] = 0
count k (j ∷ js) = (if j == k then 1 else 0) + count k js

pub record IsLawful {K V : Type 0} ⦃e : Eq K⦄ (S : StorageMap K V) : Type 0 where
  pub get-empty : (k : K) → S.get S.empty k ≡ none
  pub contains_key-get : (m : S.Map) (k : K) → S.contains_key m k ≡ is_some (S.get m k)
  pub get-insert :
      (m : S.Map) (k j : K) (v : V)
      → S.get (S.insert m k v) j ≡ (if k == j then some v else S.get m j)
  pub get-remove :
      (m : S.Map) (k j : K) → S.get (S.remove m k) j ≡ (if k == j then none else S.get m j)
  -- every stored key is visited once, and no other
  pub count-iter_keys :
      (m : S.Map) (k : K) → count k (S.iter_keys m) ≡ (if S.contains_key m k then 1 else 0)
