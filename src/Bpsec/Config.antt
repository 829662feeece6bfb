-- ===== src/Bpsec/Config.antt =====
-- The security rules of core/dtn7/src/core/bpsec/config.rs.
pub mod Validation
use dtn7_rs.Prelude.{
  ℕ, String, ◌≡◌, ◌↔◌, Bool, true, false, not, ◌&&◌, Option, List, arith, Eq, ◌==◌, nat_eq,
}

pub data SecurityRole : Type 0 where
  source verifier acceptor : SecurityRole

pub data SecurityOperation : Type 0 where
  bib bcb : SecurityOperation

pub data SecurityTarget : Type 0 where
  primary payload : SecurityTarget

abbrev is_bcb : SecurityOperation → Bool
is_bcb bib = false
is_bcb bcb = true

abbrev same_operation : SecurityOperation → SecurityOperation → Bool
same_operation bib o = not (is_bcb o)
same_operation bcb o = is_bcb o

pub same_operation_iff : (a b : SecurityOperation) → (same_operation a b ≡ true) ↔ (a ≡ b)
same_operation_iff a b = ground arith

instance abbrev pub operation_eq : Eq SecurityOperation
operation_eq = record { same = same_operation; same_iff = same_operation_iff }

pub data ShaVariant : Type 0 where
  sha256 sha384 sha512 : ShaVariant

pub data AesVariant : Type 0 where
  aes128 aes256 : AesVariant

pub record SecurityContext : Type 0 where
  pub sha_variant : Option ShaVariant
  pub aes_variant : Option AesVariant
  pub wrapped_key : Bool

pub data FailureAction : Type 0 where
  drop remove_operation log : FailureAction

pub record SecurityRule : Type 0 where
  pub name : String
  pub role : SecurityRole
  pub source : String
  pub destination : String
  pub operation : SecurityOperation
  pub targets : List SecurityTarget
  pub key : String
  pub context : SecurityContext
  pub on_failure : FailureAction

-- An operation and a target.
abbrev same_demand : SecurityOperation × ℕ → SecurityOperation × ℕ → Bool
same_demand (o, t) (p, u) = o == p && t == u

pub same_demand_iff : (a b : SecurityOperation × ℕ) → (same_demand a b ≡ true) ↔ (a ≡ b)
same_demand_iff (o, t) (p, u) = ground (arith, operation_eq.same_iff o p, nat_eq.same_iff t u)

instance abbrev pub demand_eq : Eq (SecurityOperation × ℕ)
demand_eq = record { same = same_demand; same_iff = same_demand_iff }
