-- ===== src/GlobalStore.antt =====
-- core/dtn7/src/lib.rs: the functions that work on the global bundle store, and
-- `BundlePack::sync` of core/dtn7/src/core/bundlepack.rs. They take the store by its interface.
pub mod Known
pub mod Cleanup
pub mod Survivors
pub mod Sync
use dtn7_rs.Prelude.{String, Bool, true, false, not, List, [], ◌∷◌, filter, if◌then◌else◌}
use dtn7_rs.Outcome.{Action, ok, err, pure, ignoring, ◌>>=◌, ◌>>◌}
use dtn7_rs.Bp7.{Bp7}
use dtn7_rs.BundlePack.{BundlePack, Clock, deleted, has_constraint, has_constraints, has_expired}
use dtn7_rs.Store.{BundleStore}

module _ {E B S : Type 0} (bp7 : Bp7 E B) (st : BundleStore E B S) where
  -- `store_add_bundle_if_unknown`; the lock is held throughout
  unfoldable pub store_add_bundle_if_unknown : Clock → B → Action S Bool
  store_add_bundle_if_unknown clock b s =
      if not (st.is_known (bp7.bundle_id b) s)
      then (st.push clock b >>= λ _. pure true) s
      else (ok false, s)

  -- `store_remove_if_singleton_bundle`; an error is logged and dropped
  unfoldable pub store_remove_if_singleton_bundle : B → S → S
  store_remove_if_singleton_bundle b s =
      if not (bp7.is_non_singleton (bp7.destination b))
      then (st.remove (bp7.bundle_id b) s).1
      else s

module _ {E B S : Type 0} (st : BundleStore E B S) where
  -- the loop body of `store_delete_expired`
  unfoldable pub delete_if_expired : Clock → BundlePack E → S → S
  delete_if_expired clock meta s = if has_expired clock meta then (st.remove meta.id s).1 else s

  unfoldable pub delete_each_expired : Clock → List (BundlePack E) → S → S
  delete_each_expired clock [] s = s
  delete_each_expired clock (meta ∷ metas) s =
      delete_each_expired clock metas (delete_if_expired clock meta s)

  -- `store_delete_expired`: over a snapshot of the metadata
  unfoldable pub store_delete_expired : Clock → S → S
  store_delete_expired clock s =
      delete_each_expired clock (filter (λ bp. not (has_constraint deleted bp)) (st.bundles s)) s

  -- `BundlePack::sync`
  unfoldable pub sync : BundlePack E → Action S (Unit {0})
  sync bp = if not (has_constraints bp) then st.remove bp.id else st.update_metadata bp
