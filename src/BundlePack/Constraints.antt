-- ===== src/BundlePack/Constraints.antt =====
-- What the constraint operations of core/dtn7/src/core/bundlepack.rs leave to be read.
use dtn7_rs.Prelude.{
  ◌≡◌, refl, true, false, ◌||◌, ◌&&◌, not, is_empty, List, [], ◌∷◌, arith, ◌==◌, if◌then◌else◌,
}
use dtn7_rs.HashSet.{contains, contains-insert, contains-remove}
use dtn7_rs.BundlePack.{
  BundlePack, Constraint, constraint_eq, local_endpoint, has_constraint, has_constraints,
  add_constraint, remove_constraint, clear_constraints,
}

module _ {E : Type 0} (bp : BundlePack E) where
  pub has_constraint-add_constraint :
      (c d : Constraint) → has_constraint d (add_constraint c bp) ≡ (c == d || has_constraint d bp)
  unfolding has_constraint add_constraint
  has_constraint-add_constraint c d = contains-insert c d bp.constraints

  pub has_constraint-remove_constraint :
      (c d : Constraint)
      → has_constraint d (remove_constraint c bp) ≡ (if c == d then false else has_constraint d bp)
  unfolding has_constraint remove_constraint
  has_constraint-remove_constraint c d = contains-remove c d bp.constraints

  -- Clearing keeps the local endpoint's claim on the bundle, and nothing else.
  pub has_constraint-clear_constraints :
      (d : Constraint)
      → has_constraint d (clear_constraints bp)
        ≡ (local_endpoint == d && has_constraint local_endpoint bp)
  unfolding has_constraint clear_constraints
  has_constraint-clear_constraints d = ground arith

  pub has_constraints-add_constraint :
      (c : Constraint) → has_constraints (add_constraint c bp) ≡ true
  unfolding has_constraints add_constraint contains
  has_constraints-add_constraint c = filled bp.constraints
    where
      filled : (cs : List Constraint) → not (is_empty (if contains c cs then cs else c ∷ cs)) ≡ true
      filled [] = refl
      filled (x ∷ xs) = ground arith

  pub id-clear_constraints : (clear_constraints bp).id ≡ bp.id
  unfolding clear_constraints
  id-clear_constraints = ground arith

  -- A cleared bundle has a constraint left exactly if the local endpoint holds it.
  pub has_constraints-clear_constraints :
      has_constraints (clear_constraints bp) ≡ has_constraint local_endpoint bp
  unfolding has_constraints clear_constraints
  has_constraints-clear_constraints = ground arith

  pub has_constraint_of_none :
      (d : Constraint) → has_constraints bp ≡ false → has_constraint d bp ≡ false
  unfolding has_constraints has_constraint
  has_constraint_of_none d h = ground arith

pub ruleset constraint_laws = (
  has_constraint-add_constraint, has_constraint-remove_constraint, has_constraint-clear_constraints,
  has_constraints-add_constraint, has_constraints-clear_constraints, id-clear_constraints,
)
