-- ===== src/Map/Distinct.antt =====
-- The keys of a map's entries through its operations, and its iterators against its lookups.
use dtn7_rs.Prelude.{
  String, ◌≡◌, refl, inl, inr, Bool, false, none, some, [], ◌∷◌, arith, Eq, ==_refl, string_eq,
  eq_iff, Option, In, if◌then◌else◌,
}
use dtn7_rs.Map.{
  Map, values, contains_key, lookup, insert, remove, modify, retain, place, insert_sorted,
}
use dtn7_rs.Map.Laws.{
  lookup-insert, lookup-remove, lookup-modify, lookup-retain_absent, lookup-place,
}

-- What `retain` leaves under a key is what was there, if it passes the test.
abbrev pub kept_if {κ} : {V : Type κ} → (V → Bool) → Option V → Option V
kept_if p none = none
kept_if p (some v) = if p v then some v else none

module _ {ℓ κ} {K : Type ℓ} {V : Type κ} ⦃e : Eq K⦄ where
  abbrev pub Distinct : Map K V → Type 0
  Distinct [] = Unit
  Distinct ((k, v) ∷ m) = (contains_key k m ≡ false) × Distinct m

  pub insert-Distinct : (k : K) (v : V) (m : Map K V) → Distinct m → Distinct (insert k v m)
  unfolding insert lookup
  insert-Distinct k v [] d = (refl, tt)
  insert-Distinct k v ((j, w) ∷ m) d =
      ground
        (arith, insert-Distinct k v m d.1, lookup-insert k j v m, e.same_iff j k, e.same_iff k j)

  pub remove-Distinct : (k : K) (m : Map K V) → Distinct m → Distinct (remove k m)
  unfolding remove
  remove-Distinct k [] d = tt
  remove-Distinct k ((j, w) ∷ m) d = ground (arith, remove-Distinct k m d.1, lookup-remove k j m)

  pub modify-Distinct : (k : K) (f : V → V) (m : Map K V) → Distinct m → Distinct (modify k f m)
  unfolding modify
  modify-Distinct k f [] d = tt
  modify-Distinct k f ((j, w) ∷ m) d =
      ground (arith, modify-Distinct k f m d.1, lookup-modify k j f m)

module _ {ℓ} {K : Type ℓ} {V : Type 0} ⦃e : Eq K⦄ where
  pub retain-Distinct : (p : V → Bool) (m : Map K V) → Distinct m → Distinct (retain p m)
  unfolding retain
  retain-Distinct p [] d = tt
  retain-Distinct p ((j, w) ∷ m) d =
      ground (arith, retain-Distinct p m d.1, lookup-retain_absent p j m d.0)

  pub lookup-retain :
      (p : V → Bool) (k : K) (m : Map K V)
      → Distinct m
      → lookup k (retain p m) ≡ kept_if p (lookup k m)
  unfolding retain lookup
  lookup-retain p k [] d = refl
  lookup-retain p k ((j, w) ∷ m) d =
      ground (arith, lookup-retain p k m d.1, lookup-retain_absent p j m d.0, e.same_iff j k)

  pub In-values_of_lookup : (k : K) (v : V) (m : Map K V) → lookup k m ≡ some v → In v (values m)
  unfolding lookup
  In-values_of_lookup k v [] h = cc
  In-values_of_lookup k v ((j, w) ∷ m) h = ground (arith, In-values_of_lookup k v m)

  pub lookup_of_In-values :
      (v : V) (m : Map K V) → Distinct m → In v (values m) → (k : K) × (lookup k m ≡ some v)
  unfolding lookup
  lookup_of_In-values v [] d h = absurd h
  lookup_of_In-values v ((j, w) ∷ m) d (inl h) = (j, ground (arith, ==_refl j))
  lookup_of_In-values v ((j, w) ∷ m) d (inr h) =
      let (k, found) = lookup_of_In-values v m d.1 h in (k, ground (arith, e.same_iff j k))

module _ {κ} {V : Type κ} where
  place-Distinct :
      (k : String) (v : V) (m : Map String V)
      → contains_key k m ≡ false
      → Distinct m
      → Distinct (place k v m)
  unfolding place lookup
  place-Distinct k v [] h d = (refl, tt)
  place-Distinct k v ((j, w) ∷ m) h d =
      ground (arith, place-Distinct k v m, lookup-place k j v m, eq_iff j k, eq_iff k j)

  pub insert_sorted-Distinct :
      (k : String) (v : V) (m : Map String V) → Distinct m → Distinct (insert_sorted k v m)
  unfolding insert_sorted
  insert_sorted-Distinct k v m d =
      place-Distinct k v (remove k m) (ground (arith, lookup-remove k k m, ==_refl k))
        (remove-Distinct k m d)
