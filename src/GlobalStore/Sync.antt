-- ===== src/GlobalStore/Sync.antt =====
-- `BundlePack::sync` of core/dtn7/src/core/bundlepack.rs on a stored bundle.
use dtn7_rs.Prelude.{String, ◌≡◌, true, arith, ◌==◌, string_eq, eq_iff, if◌then◌else◌}
use dtn7_rs.Outcome.{ok, after}
use dtn7_rs.Bp7.{Bp7}
use dtn7_rs.BundlePack.{BundlePack, has_constraints}
use dtn7_rs.Store.{BundleStore}
use dtn7_rs.Store.Spec.{stored, view, Laws}
use dtn7_rs.GlobalStore.{sync}

module _ {E B S : Type 0} (bp7 : Bp7 E B) (st : BundleStore E B S) {Inv : S → Type 0}
    (laws : Laws bp7 st Inv) where
  -- Syncing a pack with a constraint writes it beside the stored bundle.
  pub sync_stored :
      (bp meta : BundlePack E) (b : B) (s : S)
      → Inv s
      → view st s bp.id ≡ stored b meta
      → has_constraints bp ≡ true
      → sync st bp s ≡ (ok tt, after (st.update_metadata bp) s)
  unfolding sync
  sync_stored bp meta b s v here marked = ground (arith, laws.update_result bp s v)

  pub view-sync_stored :
      (bp meta : BundlePack E) (b : B) (s : S) (k : String)
      → Inv s
      → view st s bp.id ≡ stored b meta
      → view st (after (st.update_metadata bp) s) k
        ≡ (if bp.id == k then stored b bp else view st s k)
  view-sync_stored bp meta b s k v here = ground (arith, laws.update_view bp s k v, eq_iff bp.id k)
