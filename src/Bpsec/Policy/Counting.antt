-- ===== src/Bpsec/Policy/Counting.antt =====
-- Counting, for the actions of core/dtn7/src/core/bpsec/policy.rs.
use dtn7_rs.Prelude.{
  ℕ, ◌+◌, ◌≤◌, ◌≡◌, refl, Bool, true, false, not, ◌&&◌, List, [], ◌∷◌, ◌++◌, filter, All, arith,
  ◌==◌, nat_eq, inl, inr, Bool-cases,
}
use dtn7_rs.HashSet.{contains}
use dtn7_rs.Bpsec.Config.{SecurityRule, SecurityOperation, operation_eq}
use dtn7_rs.Bpsec.Policy.{target_numbers}

abbrev pub bit : Bool → ℕ
bit true = 1
bit false = 0

-- A rule of an operation has the target.
abbrev pub demands : SecurityOperation → ℕ → SecurityRule → Bool
demands operation target rule = rule.operation == operation && contains target (target_numbers rule)

module _ {A : Type 0} where
  abbrev pub count : (A → Bool) → List A → ℕ
  count p [] = 0
  count p (x ∷ xs) = bit (p x) + count p xs

  pub count-append : (p : A → Bool) (xs ys : List A) → count p (xs ++ ys) ≡ count p xs + count p ys
  count-append p [] ys = omega arith
  count-append p (x ∷ xs) ys = omega (arith, count-append p xs ys)

  pub count-split :
      (p k : A → Bool) (xs : List A)
      → count p (filter (λ a. not (k a)) xs ++ filter k xs) ≡ count p xs
  count-split p k [] = refl
  count-split p k (x ∷ xs) = ground (
    arith,
    count-split p k xs,
    count-append p (filter (λ a. not (k a)) xs) (filter k xs),
    count-append p (filter (λ a. not (k a)) xs) (x ∷ filter k xs),
  )

  -- Nothing stands before something of a lower rank.
  abbrev pub IsRanked : (A → ℕ) → List A → Type 0
  IsRanked rank [] = Unit
  IsRanked rank (x ∷ xs) = All (λ y. rank x ≤ rank y) xs × IsRanked rank xs

  pub All-append : (P : A → Type 0) (xs ys : List A) → All P xs → All P ys → All P (xs ++ ys)
  All-append P [] ys h k = k
  All-append P (x ∷ xs) ys h k = (h.0, All-append P xs ys h.1 k)

  pub All-filter :
      (P : A → Type 0) (p : A → Bool) (xs : List A)
      → All P xs
      → All (λ x. P x × (p x ≡ true)) (filter p xs)
  All-filter P p [] h = tt
  All-filter P p (x ∷ xs) h = elim (Bool-cases (p x)) [
    | inl e ↦ rw e ((h.0, e), All-filter P p xs h.1)
    | inr e ↦ rw e (All-filter P p xs h.1)
  ]

  pub All-to : (P Q : A → Type 0) (xs : List A) → ((x : A) → P x → Q x) → All P xs → All Q xs
  All-to P Q [] f h = tt
  All-to P Q (x ∷ xs) f h = (f x h.0, All-to P Q xs f h.1)

  -- Elements of one rank, in front of elements of no lower rank.
  pub IsRanked-append :
      (rank : A → ℕ) (n : ℕ) (xs ys : List A)
      → All (λ x. rank x ≡ n) xs
      → All (λ y. n ≤ rank y) ys
      → IsRanked rank ys
      → IsRanked rank (xs ++ ys)
  IsRanked-append rank n [] ys h k r = r
  IsRanked-append rank n (x ∷ xs) ys h k r = (
    All-append (λ y. rank x ≤ rank y) xs ys
        (All-to (λ y. rank y ≡ n) (λ y. rank x ≤ rank y) xs (λ y e. omega (arith, e, h.0)) h.1)
        (All-to (λ y. n ≤ rank y) (λ y. rank x ≤ rank y) ys (λ y e. omega (arith, e, h.0)) k),
    IsRanked-append rank n xs ys h.1 k r,
  )

  -- Elements of one rank.
  pub IsRanked-level :
      (rank : A → ℕ) (n : ℕ) (xs : List A) → All (λ x. rank x ≡ n) xs → IsRanked rank xs
  IsRanked-level rank n [] h = tt
  IsRanked-level rank n (x ∷ xs) h = (
    All-to (λ y. rank y ≡ n) (λ y. rank x ≤ rank y) xs (λ y e. omega (arith, e, h.0)) h.1,
    IsRanked-level rank n xs h.1,
  )
