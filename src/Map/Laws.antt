-- ===== src/Map/Laws.antt =====
-- What a lookup finds after each map operation, one equation per operation.
use mathlib.Core.Option
use dtn7_rs.Prelude.{
  String, ◌≡◌, refl, none, some, Bool, false, [], ◌∷◌, arith, Eq, ◌==◌, ==_refl, string_eq, eq_iff,
  if◌then◌else◌,
}
use dtn7_rs.Map.{Map, contains_key, lookup, insert, remove, modify, retain, place, insert_sorted}

module _ {ℓ κ} {K : Type ℓ} {V : Type κ} ⦃e : Eq K⦄ where
  pub lookup-insert :
      (new other : K) (value : V) (entries : Map K V)
      → lookup other (insert new value entries)
        ≡ (if new == other then some value else lookup other entries)
  unfolding insert lookup
  lookup-insert new other value [] = ground arith
  lookup-insert new other value ((first, held) ∷ entries) = ground (
    arith,
    lookup-insert new other value entries,
    e.same_iff first new,
    e.same_iff first other,
    e.same_iff new other,
  )

  pub lookup-remove :
      (k j : K) (m : Map K V) → lookup j (remove k m) ≡ (if k == j then none else lookup j m)
  unfolding lookup remove
  lookup-remove k j [] = ground arith
  lookup-remove k j ((i, v) ∷ m) =
      ground (arith, lookup-remove k j m, e.same_iff i k, e.same_iff i j, e.same_iff k j)

  pub lookup-modify :
      (k j : K) (f : V → V) (m : Map K V)
      → lookup j (modify k f m) ≡ (if k == j then Option.map f (lookup j m) else lookup j m)
  unfolding lookup modify
  lookup-modify k j f [] = ground arith
  lookup-modify k j f ((i, v) ∷ m) =
      ground (arith, lookup-modify k j f m, e.same_iff i k, e.same_iff i j, e.same_iff k j)

  pub lookup-retain_absent :
      (p : V → Bool) (k : K) (m : Map K V)
      → contains_key k m ≡ false
      → contains_key k (retain p m) ≡ false
  unfolding retain lookup
  lookup-retain_absent p k [] h = refl
  lookup-retain_absent p k ((j, w) ∷ m) h = ground (arith, lookup-retain_absent p k m)

module _ {κ} {V : Type κ} where
  pub lookup-place :
      (k j : String) (v : V) (m : Map String V)
      → contains_key k m ≡ false
      → lookup j (place k v m) ≡ (if k == j then some v else lookup j m)
  unfolding lookup place
  lookup-place k j v [] h = refl
  lookup-place k j v ((i, w) ∷ m) h =
      ground (arith, eq_iff k j, eq_iff i k, eq_iff i j, lookup-place k j v m)

  pub lookup-insert_sorted :
      (k j : String) (v : V) (m : Map String V)
      → lookup j (insert_sorted k v m) ≡ (if k == j then some v else lookup j m)
  unfolding insert_sorted
  lookup-insert_sorted k j v m =
      ground (
        arith,
        lookup-place k j v (remove k m),
        lookup-remove k j m,
        lookup-remove k k m,
        ==_refl k,
      )

pub ruleset map_laws = (lookup-insert, lookup-remove, lookup-modify, lookup-insert_sorted)
