-- ===== src/Map.antt =====
-- `std::collections::HashMap` and `BTreeMap` as association lists. A hash map iterates in an order
-- that nothing fixes; theorems about iteration range over lists in every order. `insert_sorted`
-- keeps the key order of a `BTreeMap`.
pub mod Laws
pub mod Distinct
use Prim.Native.String.{compare}
use text.Mathlib.Text.{is_lt}
use dtn7_rs.Prelude.{
  Bool, String, Option, none, some, List, [], ◌∷◌, Eq, ◌==◌, string_eq, map, is_some, filter,
  if◌then◌else◌,
}

abbrev pub Map {ℓ κ} : Type ℓ → Type κ → Type (ℓ ⊔ κ)
Map K V = List (K × V)

module _ {ℓ κ} {K : Type ℓ} {V : Type κ} where
  -- `values()`, `keys()`
  abbrev pub values : Map K V → List V
  values m = map (λ e. e.1) m

  abbrev pub keys : Map K V → List K
  keys m = map (λ e. e.0) m

  -- `retain(|_, v| p(v))`
  unfoldable pub retain : (V → Bool) → Map K V → Map K V
  retain p [] = []
  retain p ((j, v) ∷ m) = let rest = retain p m in if p v then (j, v) ∷ rest else rest

module _ {ℓ κ} {K : Type ℓ} {V : Type κ} ⦃e : Eq K⦄ where
  -- `get(k)`
  unfoldable pub lookup : K → Map K V → Option V
  lookup k [] = none
  lookup k ((j, v) ∷ m) = if j == k then some v else lookup k m

  -- `contains_key(k)`
  abbrev pub contains_key : K → Map K V → Bool
  contains_key k m = is_some (lookup k m)

  -- `insert(k, v)`
  unfoldable pub insert : K → V → Map K V → Map K V
  insert key value [] = (key, value) ∷ []
  insert key value ((old, kept) ∷ rest) =
      let others = (old, kept) ∷ insert key value rest in
      if old == key then (key, value) ∷ rest else others

  -- `remove(k)`
  unfoldable pub remove : K → Map K V → Map K V
  remove k [] = []
  remove k ((j, v) ∷ m) = let rest = remove k m in if j == k then rest else (j, v) ∷ rest

  -- `if let Some(v) = get_mut(k) { *v = f(v) }`
  unfoldable pub modify : K → (V → V) → Map K V → Map K V
  modify k f [] = []
  modify k f ((j, v) ∷ m) = (j, if j == k then f v else v) ∷ modify k f m

module _ {κ} {V : Type κ} where
  -- puts an entry in front of the first one with a greater key
  unfoldable pub place : String → V → Map String V → Map String V
  place k v [] = (k, v) ∷ []
  place k v ((j, w) ∷ m) =
      let rest = place k v m in if is_lt (compare k j) then (k, v) ∷ (j, w) ∷ m else (j, w) ∷ rest

  -- `insert(k, v)` of a `BTreeMap` with string keys, which compare by their bytes
  unfoldable pub insert_sorted : String → V → Map String V → Map String V
  insert_sorted k v m = place k v (remove k m)
