-- ===== src/Store.antt =====
-- core/dtn7/src/core/store/mod.rs: the trait `BundleStore` as a record of operations, its provided
-- methods, and what its users rely on (`Store.Spec`).
pub mod Spec
pub mod Mem
pub mod Sled
use text.Mathlib.Text.{find?}
use dtn7_rs.Prelude.{ℕ, String, Bool, not, ◌||◌, Option, List, [], ◌∷◌, map, is_some, filter}
use dtn7_rs.Outcome.{Action}
use dtn7_rs.Bp7.{Bp7}
use dtn7_rs.BundlePack.{BundlePack, Constraint, Clock, forward_pending, deleted, has_constraint}

-- A store of type `S`. The operations that change it may fail with the state they have reached.
pub record BundleStore (E B S : Type 0) : Type 0 where
  pub push : Clock → B → Action S (Unit {0})
  pub update_metadata : BundlePack E → Action S (Unit {0})
  pub remove : String → Action S (Unit {0})
  pub count : S → ℕ
  pub all_ids : S → List String
  pub has_item : String → S → Bool
  pub is_known : String → S → Bool
  pub pending : S → List String
  pub filter_constraints : List Constraint → S → List String
  pub bundles : S → List (BundlePack E)
  pub get_bundle : String → S → Option B
  pub get_metadata : String → S → Option (BundlePack E)

module _ {E B S : Type 0} (st : BundleStore E B S) where
  -- `forwarding`
  unfoldable pub forwarding : S → List String
  forwarding s = st.filter_constraints (forward_pending ∷ []) s

  -- `filter_addr`
  unfoldable pub filter_addr : Bp7 E B → String → S → List String
  unfolding has_constraint
  filter_addr bp7 criteria s =
      map (λ bp. bp.id)
        (filter
          (λ bp.
            is_some (find? (bp7.eid_to_string bp.source) criteria)
            || is_some (find? (bp7.eid_to_string bp.destination) criteria))
          (filter (λ bp. not (has_constraint deleted bp)) (st.bundles s)))
