-- ===== src/BundlePack.antt =====
-- core/dtn7/src/core/bundlepack.rs: retention constraints and the metadata kept beside a bundle.
-- The clock is an argument. Times are u64: a sum wraps as in a release build.
pub mod Constraints
pub mod Expiry
use Prim.Native.Nat.{compare, Ordering}
use dtn7_rs.Prelude.{
  ℕ, ◌+◌, ◌-◌, ◌%◌, ◌^◌, String, ◌≡◌, ◌↔◌, Bool, true, false, not, List, [], ◌∷◌, arith, Eq, ◌==◌,
  nat_eq, ltb, is_empty, if◌then◌else◌,
}
use dtn7_rs.HashSet
use dtn7_rs.Bp7.{Bp7}

pub data Constraint : Type 0 where
  dispatch_pending forward_pending reassembly_pending contraindicated local_endpoint deleted :
      Constraint

-- The derived `PartialEq` compares discriminants.
abbrev discriminant : Constraint → ℕ
discriminant dispatch_pending = 0
discriminant forward_pending = 1
discriminant reassembly_pending = 2
discriminant contraindicated = 3
discriminant local_endpoint = 4
discriminant deleted = 5

abbrev constraint_beq : Constraint → Constraint → Bool
constraint_beq a b = discriminant a == discriminant b

pub constraint_beq_iff : (a b : Constraint) → (constraint_beq a b ≡ true) ↔ (a ≡ b)
constraint_beq_iff a b = ground arith

instance abbrev pub constraint_eq : Eq Constraint
constraint_eq = record { same = constraint_beq; same_iff = constraint_beq_iff }

pub record BundlePack (E : Type 0) : Type 0 where
  pub source : E
  pub destination : E
  pub received_time : ℕ
  pub creation_time : ℕ
  pub lifetime : ℕ
  pub id : String
  pub administrative : Bool
  pub size : ℕ
  pub constraints : List Constraint

-- What the program reads of the clocks: the Unix time in milliseconds and seconds, and
-- `CreationTimestamp::now().dtntime()`.
pub record Clock : Type 0 where
  pub unix_millis : ℕ
  pub unix_secs : ℕ
  pub dtntime : ℕ

abbrev pub u64_mod : ℕ
u64_mod = 2 ^ 64

module _ {E B : Type 0} (bp7 : Bp7 E B) where
  -- `From<Bundle>` and `From<&Bundle>`
  unfoldable pub from_bundle : Clock → B → BundlePack E
  from_bundle clock b = record {
    source = bp7.source b;
    destination = bp7.destination b;
    received_time = clock.unix_millis % u64_mod;
    creation_time = bp7.creation_dtntime b;
    lifetime = bp7.lifetime_millis b % u64_mod;
    id = bp7.bundle_id b;
    administrative = bp7.is_administrative_record b;
    size = bp7.cbor_len b;
    constraints = [];
  }

module _ {E : Type 0} where
  -- `has_expired`; `now.saturating_sub(received)` is the subtraction of ℕ
  unfoldable pub has_expired : Clock → BundlePack E → Bool
  has_expired clock bp =
      if bp.lifetime == 0
      then false
      else if bp.creation_time == 0
      then ltb bp.lifetime (clock.unix_millis % u64_mod - bp.received_time)
      else ltb ((bp.creation_time + bp.lifetime) % u64_mod) clock.dtntime

  unfoldable pub has_receiver : ⦃eid : Eq E⦄ {B : Type 0} → Bp7 E B → BundlePack E → Bool
  has_receiver bp7 bp = not (bp.destination == bp7.none_eid)

  unfoldable pub has_constraint : Constraint → BundlePack E → Bool
  unfolding HashSet.contains
  has_constraint c bp = HashSet.contains c bp.constraints

  unfoldable pub has_constraints : BundlePack E → Bool
  has_constraints bp = not (is_empty bp.constraints)

  unfoldable pub add_constraint : Constraint → BundlePack E → BundlePack E
  unfolding HashSet.insert
  add_constraint c bp = record bp { constraints = HashSet.insert c bp.constraints }

  unfoldable pub remove_constraint : Constraint → BundlePack E → BundlePack E
  unfolding HashSet.remove
  remove_constraint c bp = record bp { constraints = HashSet.remove c bp.constraints }

  unfoldable pub clear_constraints : BundlePack E → BundlePack E
  unfolding has_constraint add_constraint
  clear_constraints bp =
      let local_set = has_constraint local_endpoint bp in
      let cleared = record bp { constraints = [] } in
      if local_set then add_constraint local_endpoint cleared else cleared

  unfoldable pub set_constraints : List Constraint → BundlePack E → BundlePack E
  set_constraints cs bp = record bp { constraints = cs }
