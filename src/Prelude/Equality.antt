-- ===== src/Prelude/Equality.antt =====
-- Equality as an interface, so that one `==` serves every type that the program compares.
use Prim.Native.Nat.{ℕ, compare, Ordering}
use Prim.Native.String.{String}
use mathlib.Core.Path.{◌≡◌, refl}
use mathlib.Core.Logic.{◌↔◌}
use mathlib.Core.Bool.{Bool, true, false}
use native.Mathlib.Omega.{arith}
use text.Mathlib.Text.{◌==◌ as str_eq}
use text.Mathlib.TextEquality.{eq_iff}

-- A Boolean test that decides whether two values are equal.
pub record Eq {ℓ} (A : Type ℓ) : Type ℓ where
  pub same : A → A → Bool
  pub same_iff : (x y : A) → (same x y ≡ true) ↔ (x ≡ y)

abbrev nat_same : ℕ → ℕ → Bool
nat_same m n = elim (compare m n) [ Ordering.eq ↦ true | _ ↦ false ]

pub nat_same_iff : (m n : ℕ) → (nat_same m n ≡ true) ↔ (m ≡ n)
nat_same_iff m n = ground arith

instance abbrev pub nat_eq : Eq ℕ
nat_eq = record { same_iff = nat_same_iff; same = nat_same }

instance abbrev pub string_eq : Eq String
string_eq = record { same_iff = eq_iff; same = str_eq }

module _ {ℓ} {A : Type ℓ} ⦃inst : Eq A⦄ where
  infix 50 ◌==◌
  abbrev pub ◌==◌ : A → A → Bool
  x == y = inst.same x y

  pub ==_refl : (x : A) → (x == x) ≡ true
  ==_refl x = (inst.same_iff x x).1 refl
