-- ===== src/Cla/Tcp/Ends.antt =====
-- How a reader of core/dtn7/src/cla/tcp/net.rs may end, with a rule for each way to read on.
use dtn7_rs.Prelude.{
  ℕ, zero, suc, ◌<◌, ◌≡◌, refl, ap, inl, inr, Bool, true, false, Option, none, some, [], ◌∷◌,
  length, if◌then◌else◌, Option-cases,
}
use dtn7_rs.Cla.Tcp.Proto.{Bytes}
use dtn7_rs.Cla.Tcp.Wire.{
  Wire, Laws, Parsed, Read, ok, fail, proceed, bail_if, known, modulus, Width, read_int, read_exact,
  read_u8, TcpClError, unknown_reason_code, out_of_fuel,
}

-- A value of which `P` holds, or an error of the program.
abbrev pub Ends : {A : Type 0} → (A → Type 0) → Parsed A → Type 0
Ends P (ok a s) = P a
Ends P (fail out_of_fuel) = ⊥
Ends P (fail _) = Unit

pub Ends-proceed :
    {A B : Type 0} (P : A → Type 0) (Q : B → Type 0) (r : Parsed A) (f : A → Read B)
    → Ends P r
    → ((a : A) (s : Bytes) → P a → Ends Q (f a s))
    → Ends Q (proceed r f)
Ends-proceed P Q (ok a s) f h k = k a s h
Ends-proceed P Q (fail out_of_fuel) f h k = h
Ends-proceed P Q (fail _) f h k = tt

read_exact-Ends : (n : ℕ) (s : Bytes) → Ends (λ bs. length bs ≡ n) (read_exact n s)
unfolding read_exact
read_exact-Ends zero s = refl
read_exact-Ends (suc n) [] = tt
read_exact-Ends (suc n) (b ∷ s) =
    Ends-proceed (λ bs. length bs ≡ n) _ (read_exact n s) _ (read_exact-Ends n s) λ bs s e. ap suc e

pub Ends-mono :
    {A : Type 0} (P Q : A → Type 0) (r : Parsed A) → ((a : A) → P a → Q a) → Ends P r → Ends Q r
Ends-mono P Q (ok a s) k h = k a h
Ends-mono P Q (fail out_of_fuel) k h = h
Ends-mono P Q (fail _) k h = tt

module _ {A : Type 0} (Q : A → Type 0) where
  pub branch-Ends :
      (b : Bool) (x y : Read A) (s : Bytes)
      → Ends Q (x s)
      → (b ≡ false → Ends Q (y s))
      → Ends Q ((elim b as (λ _. Read A) [ true ↦ x | false ↦ y ]) s)
  branch-Ends true x y s h k = h
  branch-Ends false x y s h k = k refl

  pub choose-Ends :
      (b : Bool) (x y : Read A) (s : Bytes)
      → Ends Q (x s)
      → Ends Q (y s)
      → Ends Q ((if b then x else y) s)
  choose-Ends true x y s h k = h
  choose-Ends false x y s h k = k

  pub after_u8 :
      (f : ℕ → Read A) (s : Bytes)
      → ((b : ℕ) (s : Bytes) → Ends Q (f b s))
      → Ends Q (proceed (read_u8 s) f)
  after_u8 f [] k = tt
  after_u8 f (b ∷ s) k = k b s

  pub after_exact :
      (n : ℕ) (f : Bytes → Read A) (s : Bytes)
      → ((bs s : Bytes) → length bs ≡ n → Ends Q (f bs s))
      → Ends Q (proceed (read_exact n s) f)
  after_exact n f s = Ends-proceed (λ bs. length bs ≡ n) Q (read_exact n s) f (read_exact-Ends n s)

  -- `e` is the error that is returned, and not the model's own.
  pub after_bail_if :
      (b : Bool) (e : TcpClError) (f : Unit {0} → Read A) (s : Bytes)
      → Ends {A = Unit {0}} (λ _. ⊥) (fail e)
      → ((s : Bytes) → b ≡ false → Ends Q (f tt s))
      → Ends Q (proceed (bail_if b e s) f)
  after_bail_if true e f s h k = Ends-proceed (λ _. ⊥) Q (fail e) f h λ a s bottom. absurd bottom
  after_bail_if false e f s h k = k s refl

  pub after_known :
      {C : Type 0} (o : Option C) (n : ℕ) (f : C → Read A) (s : Bytes)
      → ((c : C) (s : Bytes) → Ends Q (f c s))
      → Ends Q (proceed (known o (unknown_reason_code n) s) f)
  after_known none n f s k = tt
  after_known (some c) n f s k = k c s

  pub after_int :
      (w : Wire)
      → Laws w
      → (m : Width) (f : ℕ → Read A) (s : Bytes)
      → ((v : ℕ) (s : Bytes) → v < modulus m → Ends Q (f v s))
      → Ends Q (proceed (read_int w m s) f)
  after_int w laws m f s k = elim (Option-cases (w.get m s)) [
    | inl e ↦ rw e tt
    | inr ((v, rest), e) ↦ rw e (k v rest (laws.get_fits m s v rest e))
  ]
