-- ===== src/Dict/Lawful.antt =====
-- Association lists meet what the pallet assumes of a storage map.
use oracle_pallet.Prelude.{◌≡◌, refl, none, List, [], ◌∷◌, arith, is_some, if◌then◌else◌, Eq, ◌==◌}
use oracle_pallet.Frame.{StorageMap, count, IsLawful}
use oracle_pallet.Dict.{Dict, get, insert, remove, get-insert, get-remove}

module _ {K : Type 0} ⦃e : Eq K⦄ where
  unfoldable pub without : K → List K → List K
  without k [] = []
  without k (j ∷ js) = let rest = without k js in if j == k then rest else j ∷ rest

  count-without :
      (k j : K) (js : List K) → count k (without j js) ≡ (if j == k then 0 else count k js)
  unfolding without
  count-without k j [] = ground arith
  count-without k j (i ∷ js) = ground (arith, count-without k j js)

module _ {K V : Type 0} ⦃e : Eq K⦄ where
  unfoldable pub iter_keys : Dict K V → List K
  unfolding without
  iter_keys [] = []
  iter_keys ((k, v) ∷ d) = k ∷ without k (iter_keys d)

  abbrev pub dict_map : StorageMap K V
  dict_map = record {
    Map = Dict K V;
    empty = [];
    contains_key = λ d k. is_some (get d k);
    get = get;
    insert = insert;
    remove = remove;
    iter_keys = iter_keys;
  }

  count-iter_keys :
      (d : Dict K V) (k : K) → count k (iter_keys d) ≡ (if is_some (get d k) then 1 else 0)
  unfolding iter_keys get
  count-iter_keys [] k = refl
  count-iter_keys ((j, v) ∷ d) k =
      ground (arith, count-iter_keys d k, count-without k j (iter_keys d))

  get-empty : (k : K) → get {V = V} [] k ≡ none
  unfolding get
  get-empty k = refl

  pub dict_map-IsLawful : IsLawful dict_map
  dict_map-IsLawful = record {
    get-empty = get-empty;
    contains_key-get = λ d k. refl;
    get-insert = get-insert;
    get-remove = get-remove;
    count-iter_keys = count-iter_keys;
  }
