-- ===== src/Wire/Mock.antt =====
-- A small pair of JSON libraries that meets what the development assumes of them: a list is written
-- behind its length, and the extractor is the reader of the worker's own format.
use mathlib.Core.List.{append_assoc, append-nil}
use oracle_pallet.Prelude.{
  ℕ, zero, suc, ◌≡◌, refl, Option, none, some, List, [], ◌∷◌, ◌++◌, map, length, sym,
}
use oracle_pallet.Pallet.Types.{Bytes, AssetId}
use oracle_pallet.Pallet.Worker.Json.{decode}
use oracle_pallet.Wire.{Scalar, Token, Object, JsonApi, IsLawfulJson, tokens, asset_tokens}

infixl 5 ◌>>=◌
abbrev ◌>>=◌ : {A B : Type 0} → Option A → (A → Option B) → Option B
none >>= f = none
some a >>= f = f a

-- Reading what is in front of a text, and what is left.
abbrev Reads : {A : Type 0} → (A → Bytes) → (Bytes → Option (A × Bytes)) → Type 0
Reads write read = (x : _) (r : Bytes) → read (write x ++ r) ≡ some (x, r)

module _ {A : Type 0} (write : A → Bytes) where
  write_all : List A → Bytes
  write_all [] = []
  write_all (x ∷ xs) = write x ++ write_all xs

  write_list : List A → Bytes
  unfolding write_all
  write_list xs = length xs ∷ write_all xs

module _ {A : Type 0} (read : Bytes → Option (A × Bytes)) where
  read_all : ℕ → Bytes → Option (List A × Bytes)
  read_all zero r = some ([], r)
  read_all (suc n) r = do (x, r₁) ← read r; (xs, r₂) ← read_all n r₁; some (x ∷ xs, r₂)

  read_list : Bytes → Option (List A × Bytes)
  unfolding read_all
  read_list [] = none
  read_list (n ∷ r) = read_all n r

module _ {A : Type 0} (write : A → Bytes) (read : Bytes → Option (A × Bytes))
    (h : Reads write read) where
  read_all-write_all :
      (xs : List A) (r : Bytes) → read_all read (length xs) (write_all write xs ++ r) ≡ some (xs, r)
  unfolding read_all write_all
  read_all-write_all [] r = refl
  read_all-write_all (x ∷ xs) r =
      rw append_assoc (rw (h x, read_all) (rw (read_all-write_all xs r)))

  read_list-write_list : Reads (write_list write) (read_list read)
  unfolding read_list write_list
  read_list-write_list xs r = read_all-write_all xs r

write_number : ℕ → Bytes
write_number n = n ∷ []

read_number : Bytes → Option (ℕ × Bytes)
read_number [] = none
read_number (n ∷ r) = some (n, r)

read_number-write_number : Reads write_number read_number
unfolding read_number write_number
read_number-write_number n r = refl

abbrev write_text : Bytes → Bytes
write_text = write_list write_number

abbrev read_text : Bytes → Option (Bytes × Bytes)
read_text = read_list read_number

read_text-write_text : Reads write_text read_text
read_text-write_text = read_list-write_list write_number read_number read_number-write_number

write_scalar : Scalar → Bytes
write_scalar (Scalar.number n) = 0 ∷ n ∷ []
write_scalar (Scalar.text t) = 1 ∷ write_text t

read_scalar : Bytes → Option (Scalar × Bytes)
unfolding read_number
read_scalar [] = none
read_scalar (zero ∷ r) = do (n, r₁) ← read_number r; some (Scalar.number n, r₁)
read_scalar (suc i ∷ r) = do (t, r₁) ← read_text r; some (Scalar.text t, r₁)

read_scalar-write_scalar : Reads write_scalar read_scalar
unfolding read_scalar write_scalar
read_scalar-write_scalar (Scalar.number n) r = refl
read_scalar-write_scalar (Scalar.text t) r = rw (read_text-write_text t r)

write_entry : Bytes × Scalar → Bytes
write_entry (n, v) = write_text n ++ write_scalar v

read_entry : Bytes → Option ((Bytes × Scalar) × Bytes)
read_entry r = do (n, r₁) ← read_text r; (v, r₂) ← read_scalar r₁; some ((n, v), r₂)

read_entry-write_entry : Reads write_entry read_entry
unfolding write_entry read_entry
read_entry-write_entry (n, v) r =
    rw append_assoc (rw (read_text-write_text n _, read_entry) (rw (read_scalar-write_scalar v r)))

unfoldable pub write_objects : List (Object Scalar) → Bytes
unfolding write_list write_entry write_scalar write_number
write_objects = write_list (write_list write_entry)

read_objects : Bytes → Option (List (Object Scalar) × Bytes)
unfolding read_list read_entry read_scalar read_number
read_objects = read_list (read_list read_entry)

read_objects-write_objects : Reads write_objects read_objects
unfolding read_objects write_objects
read_objects-write_objects =
    read_list-write_list (write_list write_entry) (read_list read_entry)
      (read_list-write_list write_entry read_entry read_entry-write_entry)

unfoldable pub from_objects : Bytes → Option (List (Object Token))
unfolding read_objects
from_objects body = do (objects, r) ← read_objects body; some (map tokens objects)

unfoldable pub extract : Bytes → Option (List (Object Token))
unfolding decode
extract body = do ks ← decode body; some (map asset_tokens ks)

abbrev pub small_json : JsonApi
small_json = record {
  from_slice = from_objects;
  extract = extract;
  respond = write_objects;
  bad_request = [];
  limit = 4096;
}

from_objects-write_objects :
    (objects : List (Object Scalar))
    → from_objects (write_objects objects) ≡ some (map tokens objects)
unfolding from_objects
from_objects-write_objects objects =
    rw (sym (append-nil (write_objects objects)))
      (rw (read_objects-write_objects objects [], from_objects))

extract-decode :
    (body : Bytes) (ks : List AssetId)
    → decode body ≡ some ks
    → extract body ≡ some (map asset_tokens ks)
unfolding extract
extract-decode body ks h = rw h

pub small_json-IsLawful : IsLawfulJson small_json
small_json-IsLawful = record {
  from_slice-respond = from_objects-write_objects;
  extract-decode = λ body ks small h ascii. extract-decode body ks h;
}
