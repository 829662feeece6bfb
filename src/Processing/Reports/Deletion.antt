-- ===== src/Processing/Reports/Deletion.antt =====
-- `delete` of core/dtn7/src/core/processing.rs.
use dtn7_rs.Prelude.{String, ◌≡◌, false, some, Eq, ◌==◌, string_eq, arith, if◌then◌else◌}
use dtn7_rs.Outcome.{after}
use dtn7_rs.BundlePack.{BundlePack, local_endpoint, has_constraint, clear_constraints}
use dtn7_rs.BundlePack.Constraints.{has_constraints-clear_constraints, id-clear_constraints}
use dtn7_rs.Store.Spec.{view, updated, removed, Laws}
use dtn7_rs.GlobalStore.{sync}
use dtn7_rs.Extensions.{StatusReportReason}
use dtn7_rs.Node.{Node, Context}
use dtn7_rs.Processing.Reports.{delete, report_if}

module _ {E B S A : Type 0} ⦃eq : Eq E⦄ (cx : Context E B S A) {Inv : S → Type 0}
    (laws : Laws cx.bp7 cx.st Inv) where
  view-sync_cleared :
      (bp : BundlePack E) (s : S) (k : String)
      → Inv s
      → view cx.st (after (sync cx.st (clear_constraints bp)) s) k ≡ (
          if bp.id == k
          then (if has_constraint local_endpoint bp
              then updated (clear_constraints bp) (view cx.st s k)
              else removed (view cx.st s k))
          else view cx.st s k)
  unfolding sync
  view-sync_cleared bp s k v = ground (
    arith,
    has_constraints-clear_constraints bp,
    id-clear_constraints bp,
    laws.update_view (clear_constraints bp) s k v,
    laws.remove_view bp.id s k v,
  )

  -- Without status reports, `delete` turns the entry of a stored bundle into a tombstone, unless
  -- the local endpoint claims the bundle: then it stays, with no other constraint. Other entries
  -- stay as they are. It holds for every store that keeps the contract, from a well-formed state.
  pub view-delete :
      (bp : BundlePack E) (reason : StatusReportReason) (b : B) (n : Node E B S A) (k : String)
      → Inv n.store
      → cx.st.get_bundle bp.id n.store ≡ some b
      → cx.config.generate_status_reports ≡ false
      → view cx.st (after (delete cx bp reason) n).store k ≡ (
          if bp.id == k
          then (if has_constraint local_endpoint bp
              then updated (clear_constraints bp) (view cx.st n.store k)
              else removed (view cx.st n.store k))
          else view cx.st n.store k)
  unfolding delete report_if
  view-delete bp reason b n k v found quiet =
      ground (arith, view-sync_cleared bp n.store k v, quiet, found)
