-- ===== src/Processing/Reports.antt =====
-- Status reports, administrative records and deletion: the last functions of
-- core/dtn7/src/core/processing.rs.
pub mod Inspection
pub mod Deletion
use dtn7_rs.Prelude.{
  ℕ, ◌+◌, List, [], ◌∷◌, is_empty, length, String, Bool, true, false, not, ◌&&◌, ◌||◌, Option, none,
  some, Eq, ◌==◌, nat_eq, if◌then◌else◌,
}
use dtn7_rs.Outcome.{Action, Result, ok, err, bail, after, bundle_not_found}
use dtn7_rs.BundlePack.{
  BundlePack, forward_pending, contraindicated as contraindicated_mark, from_bundle, add_constraint,
  clear_constraints,
}
use dtn7_rs.GlobalStore.{sync}
use dtn7_rs.ApplicationAgent.{is_in_endpoints}
use dtn7_rs.Extensions.{
  StatusReportReason, StatusInformationPos, deleted_bundle, AdministrativeRecord, BundleStatusItem,
  bundle_status_report, other_record,
}
use dtn7_rs.Node.{Node, Context, bump, with_stats, on_store}

module _ {E B S A : Type 0} ⦃eq : Eq E⦄ (cx : Context E B S A) where
  -- the end of `send_status_report`: stores the report, marked for forwarding
  unfoldable pub enqueue_report : B → Node E B S A → Node E B S A
  enqueue_report report n =
      let (r, s) = cx.st.push cx.clock report n.store in
      elim r [
        | err e ↦ record n { store = s }
        | ok _ ↦
            let bp = add_constraint forward_pending (from_bundle cx.bp7 cx.clock report) in
            record n { store = after (sync cx.st bp) s }
      ]

  unfoldable pub send_status_report :
      BundlePack E → StatusInformationPos → StatusReportReason → Node E B S A → Node E B S A
  send_status_report bp status reason n = elim (cx.st.get_bundle bp.id n.store) [
    | none ↦ n
    | some b ↦
        if cx.bp7.is_administrative_record b || cx.bp7.source b == cx.bp7.none_eid
        then n
        else if is_in_endpoints (cx.bp7.report_to b) n.endpoints
        then n
        else enqueue_report
            (cx.ext.new_status_report_bundle cx.clock b cx.config.host_eid status reason) n
  ]

  -- a report on `bp`, if its bundle `b` asks for one and this node sends them
  unfoldable pub report_if :
      Bool
      → B
      → BundlePack E
      → StatusInformationPos
      → StatusReportReason
      → Node E B S A
      → Node E B S A
  report_if requested b bp status reason n =
      if requested && not (cx.bp7.is_administrative_record b) && cx.config.generate_status_reports
      then send_status_report bp status reason n
      else n

  unfoldable pub contraindicated : BundlePack E → Action (Node E B S A) (Unit {0})
  contraindicated bp = on_store (sync cx.st (add_constraint contraindicated_mark bp))

  unfoldable pub delete : BundlePack E → StatusReportReason → Action (Node E B S A) (Unit {0})
  delete bp reason n = elim (cx.st.get_bundle bp.id n.store) [
    | none ↦ (err (bundle_not_found bp.id), n)
    | some b ↦
        let counted =
          with_stats (λ t. record t { discarded_bundle_count = bump t.discarded_bundle_count }) n in
        on_store (sync cx.st (clear_constraints bp))
          (report_if (cx.bp7.status_request_deletion b) b bp deleted_bundle reason counted)
  ]

  -- the loop over the status items, the first of them at position `i`
  unfoldable pub inspect_positions :
      String → List BundleStatusItem → ℕ → Node E B S A → Node E B S A
  inspect_positions refbundle [] i n = n
  inspect_positions refbundle (sip ∷ sips) i n = inspect_positions refbundle sips (i + 1) (
      if i == cx.ext.delivered_bundle_pos
      then record n { store = after (cx.st.remove refbundle) n.store }
      else n)

  unfoldable pub inspect_status_report : AdministrativeRecord → Node E B S A → Node E B S A
  inspect_status_report other_record n = n
  inspect_status_report (bundle_status_report sips refbundle) n =
      if is_empty sips
      then n
      else if not (cx.st.has_item refbundle n.store)
      then n
      else if not (length sips == cx.ext.max_status_information_pos)
      then n
      else inspect_positions refbundle sips 0 n

  unfoldable pub is_administrative_record_valid : B → Node E B S A → Bool × Node E B S A
  is_administrative_record_valid b n =
      if not (cx.bp7.is_administrative_record b)
      then (false, n)
      else elim (cx.ext.administrative_record b) [
        | none ↦ (false, n)
        | some ar ↦ (true, inspect_status_report ar n)
      ]
