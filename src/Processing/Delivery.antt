-- ===== src/Processing/Delivery.antt =====
-- `transmit`, `dispatch` and `local_delivery` of core/dtn7/src/core/processing.rs.
pub mod Local
use dtn7_rs.Prelude.{
  String, Bool, true, false, not, ◌&&◌, Option, none, some, [], ◌∷◌, ◌++◌, Eq, ◌==◌, string_eq,
  is_some, if◌then◌else◌,
}
use dtn7_rs.Outcome.{
  Action, Result, ok, err, bail, ◌>>◌, bundle_not_found, empty_administrative_record,
}
use dtn7_rs.BundlePack.{
  BundlePack, dispatch_pending, forward_pending, local_endpoint, add_constraint, clear_constraints,
}
use dtn7_rs.GlobalStore.{sync}
use dtn7_rs.ApplicationAgent
use dtn7_rs.ApplicationAgent.{is_in_endpoints, get_endpoint, set_endpoint}
use dtn7_rs.Extensions.{no_information, delivered_bundle}
use dtn7_rs.Routing.{incoming_bundle}
use dtn7_rs.Node.{Node, Context, bump, with_stats, on_store}
use dtn7_rs.Processing.Reports.{report_if, delete, is_administrative_record_valid}

abbrev same_node : Option String → Option String → Bool
same_node none none = true
same_node (some a) (some b) = a == b
same_node _ _ = false

module _ {E B S A : Type 0} ⦃eq : Eq E⦄ (cx : Context E B S A) where
  -- `is_local_node_id` of core/dtn7/src/lib.rs
  unfoldable pub is_local_node_id : E → Bool
  is_local_node_id eid = same_node (cx.bp7.node_id eid) (cx.bp7.node_id cx.config.host_eid)

  -- the last part of `local_delivery`: the bundle goes to the application agent
  unfoldable pub hand_over : BundlePack E → B → Node E B S A → Node E B S A
  hand_over bp b n = elim (get_endpoint bp.destination n.endpoints) [
    | none ↦ n
    | some aa ↦
        let (aa', s) = ApplicationAgent.push cx.bp7 cx.st b aa n.store in
        with_stats (λ t. record t { delivered = bump t.delivered })
          (record n { store = s; endpoints = set_endpoint bp.destination aa' n.endpoints })
  ]

  -- the report, the new constraints and the hand-over, once the pack is synced
  unfoldable pub settle : BundlePack E → B → Action (Node E B S A) (Unit {0})
  settle claimed b n =
      let local = is_local_node_id claimed.destination in
      let reported =
        if local
        then report_if cx (cx.bp7.status_request_delivery b) b claimed delivered_bundle
            no_information n
        else n in
      (do
        on_store (
            sync cx.st
              (if local then clear_constraints claimed else add_constraint forward_pending claimed))
        λ m. (ok tt, hand_over claimed b m))
        reported

  -- `local_delivery` once the bundle is found and no invalid administrative record
  unfoldable pub deliver : BundlePack E → B → Action (Node E B S A) (Unit {0})
  deliver bp b = do
    let claimed = add_constraint local_endpoint bp
    on_store (sync cx.st claimed)
    settle claimed b

  -- the check of an administrative record, which acts on the node, and what follows it
  unfoldable pub deliver_record :
      BundlePack E → B → Bool × Node E B S A → Result (Unit {0}) × Node E B S A
  deliver_record bp b (valid, inspected) =
      if not valid
      then (do delete cx bp no_information; bail empty_administrative_record) inspected
      else deliver bp b inspected

  unfoldable pub local_delivery : BundlePack E → Action (Node E B S A) (Unit {0})
  local_delivery bp n = elim (cx.st.get_bundle bp.id n.store) [
    | none ↦ (err (bundle_not_found bp.id), n)
    | some b ↦
        if bp.administrative
        then deliver_record bp b (is_administrative_record_valid cx b n)
        else deliver bp b n
  ]

  -- the end of `dispatch`
  unfoldable pub spawn_forward : BundlePack E → Action (Node E B S A) (Unit {0})
  spawn_forward bp n =
      if not (is_local_node_id bp.destination)
      then (ok tt, record n { spawned = n.spawned ++ bp ∷ [] })
      else (ok tt, n)

  -- `dispatch` once the bundle is found
  unfoldable pub dispatch_found : BundlePack E → B → Action (Node E B S A) (Unit {0})
  dispatch_found bp b n =
      let notified = record n { routing = cx.agent.notify (incoming_bundle b) n.routing } in
      if is_in_endpoints bp.destination notified.endpoints
      then (do local_delivery bp; spawn_forward bp) notified
      else spawn_forward bp notified

  unfoldable pub dispatch : BundlePack E → Action (Node E B S A) (Unit {0})
  dispatch bp n = elim (cx.st.get_bundle bp.id n.store) [
    | none ↦ (err (bundle_not_found bp.id), n)
    | some b ↦ dispatch_found bp b n
  ]

  -- `transmit` once the pack is synced
  unfoldable pub transmit_pending : BundlePack E → Action (Node E B S A) (Unit {0})
  transmit_pending pending n =
      if not (pending.source == cx.bp7.none_eid)
        && not (is_some (get_endpoint pending.source n.endpoints))
      then delete cx pending no_information n
      else dispatch pending n

  unfoldable pub transmit : BundlePack E → Action (Node E B S A) (Unit {0})
  transmit bp = do
    let pending = add_constraint dispatch_pending bp
    on_store (sync cx.st pending)
    transmit_pending pending
