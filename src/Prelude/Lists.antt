-- ===== src/Prelude/Lists.antt =====
-- Lists measured by native numbers, with the Boolean searches that the program's iterators do.
use Prim.Native.Nat.{ℕ, suc, ◌+◌, ◌≤◌}
use mathlib.Core.Path.{◌≡◌, refl, ap}
use mathlib.Core.Logic.{◌⊎◌, inl, inr, ◌↔◌}
use mathlib.Core.Bool.{Bool, true, false, ◌||◌, ◌&&◌}
use mathlib.Core.Option.{Option, none, some}
use mathlib.Core.List.{List, [], ◌∷◌, ◌++◌, map}
use native.Mathlib.Omega.{arith}
use package.dtn7_rs.Prelude.Tests.{if◌then◌else◌, Option-cases}

module _ {ℓ} {A : Type ℓ} where
  abbrev pub length : List A → ℕ
  length [] = 0
  length (x ∷ xs) = suc (length xs)

  -- `iter().any(p)`
  abbrev pub any : (A → Bool) → List A → Bool
  any p [] = false
  any p (x ∷ xs) = p x || any p xs

  -- `iter().all(p)`
  abbrev pub all : (A → Bool) → List A → Bool
  all p [] = true
  all p (x ∷ xs) = p x && all p xs

  -- `iter().find(p)`
  abbrev pub find : (A → Bool) → List A → Option A
  find p [] = none
  find p (x ∷ xs) = if p x then some x else find p xs

  -- `iter().filter(p)` and `retain(p)`
  abbrev pub filter : (A → Bool) → List A → List A
  filter p [] = []
  filter p (x ∷ xs) = let rest = filter p xs in if p x then x ∷ rest else rest

  -- `is_empty()`
  abbrev pub is_empty : List A → Bool
  is_empty [] = true
  is_empty (x ∷ xs) = false

  pub length-append : (xs ys : List A) → length (xs ++ ys) ≡ length xs + length ys
  length-append [] ys = omega arith
  length-append (x ∷ xs) ys = omega (arith, length-append xs ys)

  pub length-filter-le : (p : A → Bool) (xs : List A) → length (filter p xs) ≤ length xs
  length-filter-le p [] = omega arith
  length-filter-le p (x ∷ xs) = ground (arith, length-filter-le p xs)

  -- A predicate on every element, by recursion.
  abbrev pub All {κ} : (A → Type κ) → List A → Type κ
  All P [] = Unit
  All P (x ∷ xs) = P x × All P xs

-- `iter().filter_map(f)`
abbrev pub filter_map {ℓ κ} : {A : Type ℓ} {B : Type κ} → (A → Option B) → List A → List B
filter_map f [] = []
filter_map f (x ∷ xs) = elim (f x) [ none ↦ filter_map f xs | some b ↦ b ∷ filter_map f xs ]

module _ {A : Type 0} where
  -- Membership, by recursion.
  abbrev pub In : A → List A → Type 0
  In a [] = ⊥
  In a (x ∷ xs) = (x ≡ a) ⊎ In a xs

  pub In-filter-to :
      (p : A → Bool) (a : A) (xs : List A) → In a (filter p xs) → In a xs × (p a ≡ true)
  In-filter-to p a [] h = absurd h
  In-filter-to p a (x ∷ xs) h = ground (arith, In-filter-to p a xs)

  pub In-filter-from :
      (p : A → Bool) (a : A) (xs : List A) → In a xs → p a ≡ true → In a (filter p xs)
  In-filter-from p a [] h k = absurd h
  In-filter-from p a (x ∷ xs) h k = ground (arith, In-filter-from p a xs)

  -- Filtering keeps exactly the elements that pass the test.
  pub In-filter :
      (p : A → Bool) (a : A) (xs : List A) → In a (filter p xs) ↔ (In a xs × (p a ≡ true))
  In-filter p a xs = (In-filter-to p a xs, λ h. In-filter-from p a xs h.0 h.1)

module _ {A B : Type 0} (f : A → B) where
  pub In-map-from : (a : A) (xs : List A) → In a xs → In (f a) (map f xs)
  In-map-from a [] h = absurd h
  In-map-from a (x ∷ xs) (inl e) = inl (ap f e)
  In-map-from a (x ∷ xs) (inr h) = inr (In-map-from a xs h)

  pub In-map-to : (b : B) (xs : List A) → In b (map f xs) → (a : A) × In a xs × (f a ≡ b)
  In-map-to b [] h = absurd h
  In-map-to b (x ∷ xs) (inl e) = (x, inl refl, e)
  In-map-to b (x ∷ xs) (inr h) = let (a, i, e) = In-map-to b xs h in (a, inr i, e)

module _ {A B : Type 0} where
  pub In-filter_map-to :
      (g : A → Option B) (b : B) (xs : List A)
      → In b (filter_map g xs)
      → (a : A) × In a xs × (g a ≡ some b)
  In-filter_map-to g b [] h = absurd h
  In-filter_map-to g b (x ∷ xs) h = elim (Option-cases (g x)) [
    | inl e ↦ let (a, i, q) = In-filter_map-to g b xs (ground arith) in (a, inr i, q)
    | inr (c, e) ↦
        let j : (c ≡ b) ⊎ In b (filter_map g xs) = ground arith in
        elim j [
          | inl q ↦ (x, inl refl, rw e (ap some q))
          | inr r ↦ let (a, i, q) = In-filter_map-to g b xs r in (a, inr i, q)
        ]
  ]

  pub In-filter_map-from :
      (g : A → Option B) (a : A) (b : B) (xs : List A)
      → In a xs
      → g a ≡ some b
      → In b (filter_map g xs)
  In-filter_map-from g a b [] i e = absurd i
  In-filter_map-from g a b (x ∷ xs) (inl q) e = let h : g x ≡ some b = rw q e in ground arith
  In-filter_map-from g a b (x ∷ xs) (inr i) e = elim (Option-cases (g x)) [
    | inl miss ↦ ground (arith, In-filter_map-from g a b xs i e)
    | inr (c, hit) ↦ ground (arith, In-filter_map-from g a b xs i e)
  ]
