-- ===== src/Processing/Janitor.antt =====
-- The janitor: `process_peers` and `process_bundles` of core/dtn7/src/core/mod.rs, called by
-- core/dtn7/src/dtnd/janitor.rs. The bundles are forwarded one after the other, also where the source has
-- a task for each; bundles created at the same time keep their order, which the source leaves open.
pub mod Queue
pub mod Turns
use dtn7_rs.Prelude.{
  ℕ, String, Bool, true, false, not, List, [], ◌∷◌, Eq, any, filter, filter_map, leb, if◌then◌else◌,
}
use dtn7_rs.Outcome.{after}
use dtn7_rs.BundlePack.{BundlePack, deleted, has_constraint}
use dtn7_rs.Peers.{process_peers}
use dtn7_rs.Store.{BundleStore, forwarding}
use dtn7_rs.GlobalStore.{store_delete_expired}
use dtn7_rs.Routing.{dropped_peer}
use dtn7_rs.Node.{Node, Context}
use dtn7_rs.Processing.Forward.{forward}

module _ {E : Type 0} where
  -- puts a bundle behind those that were created before it
  unfoldable pub insert_by_creation : BundlePack E → List (BundlePack E) → List (BundlePack E)
  insert_by_creation bp [] = bp ∷ []
  insert_by_creation bp (q ∷ queue) =
      let rest = insert_by_creation bp queue in
      if leb bp.creation_time q.creation_time then bp ∷ q ∷ queue else q ∷ rest

  -- `sort_unstable_by_key(|a| a.creation_time)`
  unfoldable pub sort_by_creation : List (BundlePack E) → List (BundlePack E)
  unfolding insert_by_creation
  sort_by_creation [] = []
  sort_by_creation (bp ∷ bps) = insert_by_creation bp (sort_by_creation bps)

module _ {E B S : Type 0} (st : BundleStore E B S) where
  -- the bundles that `process_bundles` forwards, in their order
  unfoldable pub forwarding_bundles : S → List (BundlePack E)
  unfolding sort_by_creation
  forwarding_bundles s = sort_by_creation (
      filter (λ bp. not (has_constraint deleted bp))
        (filter_map (λ bid. st.get_metadata bid s) (forwarding st s)))

module _ {E B S A : Type 0} ⦃eq : Eq E⦄ (cx : Context E B S A) where
  -- a failure of `forward` is logged and dropped
  unfoldable pub forward_each : List (BundlePack E) → Node E B S A → Node E B S A
  forward_each [] n = n
  forward_each (bp ∷ bps) n = forward_each bps (after (forward cx bp) n)

  unfoldable pub process_bundles : Node E B S A → Node E B S A
  process_bundles n =
      let cleaned = record n { store = store_delete_expired cx.st cx.clock n.store } in
      if any (λ c. c.accepting) cx.clas
      then forward_each (forwarding_bundles cx.st cleaned.store) cleaned
      else cleaned

  -- the notifications for the peers that `process_peers` drops
  unfoldable pub notify_dropped : List E → A → A
  notify_dropped [] a = a
  notify_dropped (eid ∷ eids) a = notify_dropped eids (cx.agent.notify (dropped_peer eid) a)

  -- `process_peers` with its notifications
  unfoldable pub drop_peers : Node E B S A → Node E B S A
  drop_peers n =
      let (peers, dropped) = process_peers cx.config.peer_config cx.clock n.peers in
      record n { peers = peers; routing = notify_dropped dropped n.routing }

  unfoldable pub janitor : Node E B S A → Node E B S A
  janitor n = process_bundles (drop_peers n)
