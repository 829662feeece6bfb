-- ===== src/Processing/Forward.antt =====
-- `forward` of core/dtn7/src/core/processing.rs with the handlers of the extension blocks. The
-- transfers to the selected nodes run one after the other, in the order of the selection.
pub mod Transfers
pub mod Failures
pub mod Spent
use dtn7_rs.Prelude.{
  ℕ, ◌+◌, ◌-◌, ◌%◌, String, Bool, true, false, not, ◌&&◌, Option, none, some, List, [], ◌∷◌, Eq,
  ◌==◌, nat_eq, string_eq, leb, is_empty, unwrap_or, if◌then◌else◌,
}
use dtn7_rs.Map.{values}
use dtn7_rs.HashSet
use dtn7_rs.Outcome.{
  Action, Result, ok, err, bail, pure, after, ◌>>=◌, ◌>>◌, bundle_not_found, hop_count_exceeded,
  lifetime_exceeded, age_block_lifetime_exceeded, violates_security_policy,
}
use dtn7_rs.BundlePack.{
  BundlePack, forward_pending, dispatch_pending, from_bundle, add_constraint, remove_constraint,
  u64_mod,
}
use dtn7_rs.Peer.{ClaSenderTask}
use dtn7_rs.Peers.{report_failed_transmission}
use dtn7_rs.Routing.{sending_failed, sending_succeeded, dropped_peer, Senders}
use dtn7_rs.GlobalStore.{sync}
use dtn7_rs.Extensions.{forwarded_bundle, no_information, lifetime_expired, hop_limit_exceeded}
use dtn7_rs.Node.{Node, Context, Verdict, accept, drop, forward_step, bump, with_stats, on_store}
use dtn7_rs.Processing.Reports.{report_if, delete, contraindicated, is_administrative_record_valid}

module _ {E B S A : Type 0} ⦃eq : Eq E⦄ (cx : Context E B S A) where
  unfoldable pub handle_primary_lifetime : B → Action (Node E B S A) (Unit {0})
  handle_primary_lifetime b =
      if cx.ext.is_lifetime_exceeded cx.clock b
      then (do delete cx (from_bundle cx.bp7 cx.clock b) lifetime_expired; bail lifetime_exceeded)
      else pure tt

  -- the hop count with whether it was increased
  unfoldable pub check_hop_count : Bool × B → Action (Node E B S A) B
  check_hop_count (increased, b) =
      if increased && cx.ext.hop_count_exceeded b
      then (do
        delete cx (from_bundle cx.bp7 cx.clock b) hop_limit_exceeded
        bail hop_count_exceeded)
      else pure b

  unfoldable pub handle_hop_count_block : B → Action (Node E B S A) B
  handle_hop_count_block b =
      if cx.ext.has_hop_count b then check_hop_count (cx.ext.hop_count_increase b) else pure b

  unfoldable pub handle_previous_node_block : B → B
  handle_previous_node_block b =
      if cx.ext.has_previous_node b
      then cx.ext.previous_node_update cx.config.host_eid b
      else cx.ext.add_previous_node cx.config.host_eid b

  -- the age that `update_bundle_age` computes: zero if the block holds no age
  unfoldable pub new_age : B → BundlePack E → ℕ
  new_age b bp = elim (cx.ext.bundle_age b) [
    | none ↦ 0
    | some age ↦ (age + (cx.clock.unix_millis % u64_mod - bp.received_time)) % u64_mod
  ]

  unfoldable pub update_bundle_age : S → B → B × Option ℕ
  update_bundle_age s b =
      if cx.ext.has_bundle_age b
      then elim (cx.st.get_metadata (cx.bp7.bundle_id b) s) [
        | none ↦ (b, none)
        | some bp ↦
            let age = new_age b bp in
            if not (age == 0) then (cx.ext.set_bundle_age age b, some age) else (b, none)
      ]
      else (b, none)

  -- the age that `update_bundle_age` gives against the lifetime
  unfoldable pub check_bundle_age : B × Option ℕ → Action (Node E B S A) B
  check_bundle_age (b, none) = pure b
  check_bundle_age (b, some age) =
      if leb (cx.bp7.lifetime_millis b) age
      then (do
        delete cx (from_bundle cx.bp7 cx.clock b) lifetime_expired
        bail age_block_lifetime_exceeded)
      else pure b

  unfoldable pub handle_bundle_age_block : B → Action (Node E B S A) B
  handle_bundle_age_block b n = check_bundle_age (update_bundle_age n.store b) n

  -- a transfer that failed: the failure is counted for the peer and told the routing agent
  unfoldable pub transfer_failed : String → String → Node E B S A → Node E B S A
  transfer_failed bid hop n =
      let failed = cx.agent.notify (sending_failed bid hop) n.routing in
      let (peers, dropped) = report_failed_transmission hop n.peers in
      record n {
        stats = record n.stats { failed = bump n.stats.failed };
        peers = peers;
        routing = elim dropped [
          | none ↦ failed
          | some peer ↦ cx.agent.notify (dropped_peer peer.eid) failed
        ];
      }

  unfoldable pub transfer_succeeded : String → String → Node E B S A → Node E B S A
  transfer_succeeded bid hop n = record n {
    stats = record n.stats { outgoing = bump n.stats.outgoing };
    routing = cx.agent.notify (sending_succeeded bid hop) n.routing;
  }

  -- one transfer task of `forward`, with whether a transfer has succeeded so far
  unfoldable pub transfer_to : String → ClaSenderTask E → Node E B S A × Bool → Node E B S A × Bool
  transfer_to bid t (n, sent) =
      let hop = unwrap_or (cx.bp7.node t.next_hop) "" in
      if cx.transfer t
      then (transfer_succeeded bid hop n, true)
      else (transfer_failed bid hop n, sent)

  unfoldable pub transfer_all :
      String → List (ClaSenderTask E) → Node E B S A × Bool → Node E B S A × Bool
  transfer_all bid [] r = r
  transfer_all bid (t ∷ ts) r = transfer_all bid ts (transfer_to bid t r)

  -- what `forward` does once a transfer has succeeded
  unfoldable pub after_sent : BundlePack E → B → Bool → Action (Node E B S A) (Unit {0})
  after_sent bp b delete_afterwards n =
      let reported =
        report_if cx (cx.bp7.status_request_forward b) b bp forwarded_bundle no_information n in
      if delete_afterwards
      then on_store (cx.st.remove bp.id) reported
      else if cx.bp7.is_administrative_record b
      then contraindicated cx bp (is_administrative_record_valid cx b reported).1
      else (ok tt, reported)

  -- the outcome of the transfers
  unfoldable pub finish :
      BundlePack E → B → Bool → Node E B S A × Bool → Result (Unit {0}) × Node E B S A
  finish bp b delete_afterwards (n, true) = after_sent bp b delete_afterwards n
  finish bp b delete_afterwards (n, false) = (ok tt, n)

  -- the transfers, if the policy lets the bundle out
  unfoldable pub send_secured :
      BundlePack E → List (ClaSenderTask E) → Bool → Verdict × B → Action (Node E B S A) (Unit {0})
  send_secured bp nodes delete_afterwards (drop reason, b) n =
      (do delete cx bp reason; bail (violates_security_policy bp.id)) n
  send_secured bp nodes delete_afterwards (accept, b) n =
      finish bp b delete_afterwards (transfer_all bp.id nodes (n, false))

  -- the checks on the bundle, then the policy and the transfers
  unfoldable pub forward_found :
      BundlePack E → List (ClaSenderTask E) → Bool → B → Action (Node E B S A) (Unit {0})
  forward_found bp nodes delete_afterwards b = do
    handle_primary_lifetime b
    counted ← handle_hop_count_block b
    aged ← handle_bundle_age_block (handle_previous_node_block counted)
    send_secured bp nodes delete_afterwards (cx.enforce forward_step aged)

  -- `forward` for a bundle with nodes to send to
  unfoldable pub forward_to :
      BundlePack E → List (ClaSenderTask E) → Bool → Action (Node E B S A) (Unit {0})
  forward_to bp nodes delete_afterwards n = elim (cx.st.get_bundle bp.id n.store) [
    | none ↦ (err (bundle_not_found bp.id), n)
    | some b ↦ forward_found bp nodes delete_afterwards b n
  ]

  -- what the routing agent selected, with its new state
  unfoldable pub forward_selected : BundlePack E → A × Senders E → Action (Node E B S A) (Unit {0})
  forward_selected bp (routing, (nodes, delete_afterwards)) n =
      let asked = record n { routing = routing } in
      if is_empty nodes
      then (if delete_afterwards then on_store (cx.st.remove bp.id) asked else (ok tt, asked))
      else forward_to bp nodes delete_afterwards asked

  -- `forward` once the pack is synced
  unfoldable pub forward_pending_pack : BundlePack E → Action (Node E B S A) (Unit {0})
  forward_pending_pack bp n =
      forward_selected bp (cx.agent.sender_for_bundle cx.clas bp (values n.peers) n.routing) n

  -- `forward` while the bundle is guarded
  unfoldable pub forward_guarded : BundlePack E → Action (Node E B S A) (Unit {0})
  forward_guarded bp = do
    let pending = remove_constraint dispatch_pending (add_constraint forward_pending bp)
    on_store (sync cx.st pending)
    forward_pending_pack pending

  -- the guard is released however `forward` ends
  unfoldable pub release :
      String → Result (Unit {0}) × Node E B S A → Result (Unit {0}) × Node E B S A
  release bid (r, n) = (r, record n { forwarding = HashSet.remove bid n.forwarding })

  unfoldable pub forward : BundlePack E → Action (Node E B S A) (Unit {0})
  forward bp n =
      if HashSet.contains bp.id n.forwarding
      then (ok tt, n)
      else release bp.id
          (forward_guarded bp (record n { forwarding = HashSet.insert bp.id n.forwarding }))
