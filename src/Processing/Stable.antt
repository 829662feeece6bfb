-- ===== src/Processing/Stable.antt =====
-- Predicates on the store through the functions of core/dtn7/src/core/processing.rs: here those for
-- reports and deletion.
pub mod Local
pub mod Incoming
pub mod Outgoing
use dtn7_rs.Prelude.{
  ℕ, zero, suc, ◌+◌, String, ◌≡◌, sym, subst, Bool, true, false, not, Option, none, some, List, [],
  ◌∷◌, ◌++◌, Eq, ◌==◌, arith, nat_eq, Bool-cases, Option-cases, inl, inr, if◌then◌else◌,
}
use dtn7_rs.Outcome.{Action, Result, ok, err, after, after-bind, proceed}
use dtn7_rs.BundlePack.{
  BundlePack, Clock, forward_pending, add_constraint, clear_constraints, from_bundle,
}
use dtn7_rs.BundlePack
use dtn7_rs.Store.{BundleStore}
use dtn7_rs.GlobalStore.{sync, store_remove_if_singleton_bundle, store_add_bundle_if_unknown}
use dtn7_rs.ApplicationAgent
use dtn7_rs.ApplicationAgent.{ApplicationAgent, Channel, can_send, get_endpoint}
use dtn7_rs.Extensions.{
  StatusReportReason, StatusInformationPos, AdministrativeRecord, BundleStatusItem,
  bundle_status_report, other_record, deleted_bundle,
}
use dtn7_rs.Node.{Node, Context, on_store, bump, with_stats}
use dtn7_rs.Processing.Reports.{
  enqueue_report, send_status_report, report_if, contraindicated, delete, inspect_positions,
  inspect_status_report, is_administrative_record_valid,
}

-- The predicate `P` holds of the store after an operation if it held before.
pub record IsStable {E B S : Type 0} (st : BundleStore E B S) (P : S → Type 0) : Type 0 where
  pub push : (c : Clock) (b : B) (s : S) → P s → P (after (st.push c b) s)
  pub update_metadata : (bp : BundlePack E) (s : S) → P s → P (after (st.update_metadata bp) s)
  pub remove : (k : String) (s : S) → P s → P (after (st.remove k) s)

module _ {E B S A : Type 0} ⦃eq : Eq E⦄ (cx : Context E B S A) {P : S → Type 0}
    (stable : IsStable cx.st P) where
  -- An action on the node keeps the predicate on its store.
  abbrev pub Keeps : {T : Type 0} → Action (Node E B S A) T → Type 0
  Keeps m = (n : Node E B S A) → P n.store → P (after m n).store

  pub bind-Keeps :
      {T U : Type 0} (r : Result T × Node E B S A) (f : T → Action (Node E B S A) U)
      → P r.1.store
      → ((a : T) → Keeps (f a))
      → P (proceed r f).1.store
  bind-Keeps (ok a, n) f p k = k a n p
  bind-Keeps (err e, n) f p k = p

  pub sync-Keeps : (bp : BundlePack E) (s : S) → P s → P (after (sync cx.st bp) s)
  unfolding sync
  sync-Keeps bp s p = ground (arith, stable.remove bp.id s p, stable.update_metadata bp s p)

  pub enqueue_report-Keeps :
      (report : B) (n : Node E B S A) → P n.store → P (enqueue_report cx report n).store
  unfolding enqueue_report
  enqueue_report-Keeps report n p =
      split (cx.st.push cx.clock report n.store) (stable.push cx.clock report n.store p)
    where
      fresh : BundlePack E
      fresh = add_constraint forward_pending (from_bundle cx.bp7 cx.clock report)

      split :
          (r : Result (Unit {0}) × S)
          → P r.1
          → P (
              let m : Node E B S A = elim r.0 [
                | err e ↦ record n { store = r.1 }
                | ok _ ↦ record n { store = after (sync cx.st fresh) r.1 }
              ] in
              m.store)
      split (err e, s) q = q
      split (ok _, s) q = sync-Keeps fresh s q

  pub send_status_report-Keeps :
      (bp : BundlePack E) (status : StatusInformationPos) (reason : StatusReportReason)
      (n : Node E B S A)
      → P n.store
      → P (send_status_report cx bp status reason n).store
  unfolding send_status_report
  send_status_report-Keeps bp status reason n p =
      elim (Option-cases (cx.st.get_bundle bp.id n.store)) [
        | inl e ↦ ground arith
        | inr (b, e) ↦ ground (
          arith,
          enqueue_report-Keeps
              (cx.ext.new_status_report_bundle cx.clock b cx.config.host_eid status reason) n p,
        )
      ]

  pub report_if-Keeps :
      (requested : Bool) (b : B) (bp : BundlePack E) (status : StatusInformationPos)
      (reason : StatusReportReason) (n : Node E B S A)
      → P n.store
      → P (report_if cx requested b bp status reason n).store
  unfolding report_if
  report_if-Keeps requested b bp status reason n p =
      ground (arith, send_status_report-Keeps bp status reason n p)

  pub contraindicated-Keeps : (bp : BundlePack E) → Keeps (contraindicated cx bp)
  unfolding contraindicated
  contraindicated-Keeps bp n p = sync-Keeps (add_constraint BundlePack.contraindicated bp) n.store p

  pub delete-Keeps : (bp : BundlePack E) (reason : StatusReportReason) → Keeps (delete cx bp reason)
  unfolding delete
  delete-Keeps bp reason n p = elim (Option-cases (cx.st.get_bundle bp.id n.store)) [
    | inl e ↦ ground arith
    | inr (b, e) ↦
        let counted =
          with_stats (λ t. record t { discarded_bundle_count = bump t.discarded_bundle_count }) n in
        let m =
          report_if cx (cx.bp7.status_request_deletion b) b bp deleted_bundle reason counted in
        let kept : P (after (sync cx.st (clear_constraints bp)) m.store) =
          sync-Keeps (clear_constraints bp) m.store (
            report_if-Keeps (cx.bp7.status_request_deletion b) b bp deleted_bundle reason counted
              p) in
        let found : delete cx bp reason n ≡ on_store (sync cx.st (clear_constraints bp)) m =
          rw (e, delete) in
        subst (λ r. P r.1.store) (sym found) kept
  ]

  pub inspect_positions-Keeps :
      (refbundle : String) (sips : List BundleStatusItem) (i : ℕ) (n : Node E B S A)
      → P n.store
      → P (inspect_positions cx refbundle sips i n).store
  unfolding inspect_positions
  inspect_positions-Keeps refbundle [] i n p = p
  inspect_positions-Keeps refbundle (sip ∷ sips) i n p =
      inspect_positions-Keeps refbundle sips (i + 1) _
        (ground (arith, stable.remove refbundle n.store p))

  pub inspect_status_report-Keeps :
      (ar : AdministrativeRecord) (n : Node E B S A)
      → P n.store
      → P (inspect_status_report cx ar n).store
  unfolding inspect_status_report
  inspect_status_report-Keeps other_record n p = p
  inspect_status_report-Keeps (bundle_status_report sips refbundle) n p =
      ground (arith, inspect_positions-Keeps refbundle sips 0 n p)

  pub is_administrative_record_valid-Keeps :
      (b : B) (n : Node E B S A) → P n.store → P (is_administrative_record_valid cx b n).1.store
  unfolding is_administrative_record_valid
  is_administrative_record_valid-Keeps b n p =
      elim (Option-cases (cx.ext.administrative_record b)) [
        | inl e ↦ ground arith
        | inr (ar, e) ↦ ground (arith, inspect_status_report-Keeps ar n p)
      ]
