-- ===== src/Peers.antt =====
-- The global list of peers, a `BTreeMap` by node name: core/dtn7/src/lib.rs (`peers_…`),
-- `process_peers` of core/dtn7/src/core/mod.rs and `report_failed_transmission` of
-- core/dtn7/src/core/processing.rs. Each holds the lock throughout, so it is one step.
pub mod Invariant
pub mod Expulsion
use dtn7_rs.Prelude.{
  ℕ, String, Bool, true, false, not, ◌&&◌, ◌||◌, Option, none, some, List, [], ◌∷◌, map, Eq, ◌==◌,
  string_eq, find, filter, length, unwrap_or, if◌then◌else◌,
}
use dtn7_rs.Map
use dtn7_rs.Map.{Map, lookup, contains_key, values}
use dtn7_rs.Outcome.{Action, ok, err, no_such_peer}
use dtn7_rs.Bp7.{Bp7}
use dtn7_rs.BundlePack.{Clock}
use dtn7_rs.Peer.{
  DtnPeer, PeerAddress, PeerConfig, ClaInstance, ClaSenderTask, dynamic, is_static, touch,
  still_valid, node_name, first_cla, update, report_fail, failed_too_much,
}

abbrev pub Peers : Type 0 → Type 0
Peers E = Map String (DtnPeer E)

module _ {E B : Type 0} (bp7 : Bp7 E B) where
  -- `peers_add`
  unfoldable pub peers_add : DtnPeer E → Peers E → Bool × Peers E
  peers_add peer peers = elim (bp7.node peer.eid) [
    | none ↦ (false, peers)
    | some node ↦ elim (lookup node peers) [
      | some known ↦ (false, Map.modify node (λ p. update p peer) peers)
      | none ↦ (true, Map.insert_sorted node peer peers)
    ]
  ]

  -- `peers_get_for_node`
  unfoldable pub peers_get_for_node : E → Peers E → Option (DtnPeer E)
  peers_get_for_node eid peers =
      find (λ p. node_name bp7 p == unwrap_or (bp7.node eid) "") (values peers)

  -- `peers_cla_for_node`
  unfoldable pub peers_cla_for_node : List ClaInstance → E → Peers E → Option (ClaSenderTask E)
  peers_cla_for_node clas eid peers = elim (peers_get_for_node eid peers) [
    | none ↦ none
    | some peer ↦ first_cla clas peer
  ]

  -- `peer_find_by_remote`
  unfoldable pub peer_find_by_remote : ⦃a : Eq PeerAddress⦄ → PeerAddress → Peers E → Option String
  peer_find_by_remote addr peers = elim (find (λ p. p.addr == addr) (values peers)) [
    | none ↦ none
    | some p ↦ some (node_name bp7 p)
  ]

module _ {E : Type 0} where
  -- `peers_remove`
  unfoldable pub peers_remove : String → Peers E → Peers E
  peers_remove peer_id peers = Map.remove peer_id peers

  -- `peers_count`, `peers_clear`, `peers_known`
  unfoldable pub peers_count : Peers E → ℕ
  peers_count peers = length peers

  unfoldable pub peers_clear : Peers E → Peers E
  peers_clear peers = []

  unfoldable pub peers_known : String → Peers E → Bool
  peers_known peer peers = contains_key peer peers

  -- `peers_touch`
  unfoldable pub peers_touch : Clock → String → Action (Peers E) (Unit {0})
  peers_touch clock peer peers =
      if contains_key peer peers
      then (ok tt, Map.modify peer (touch clock) peers)
      else (err no_such_peer, peers)

  -- `process_peers`: the peers that stay, and those to send a DroppedPeer notification for
  unfoldable pub process_peers : PeerConfig → Clock → Peers E → Peers E × List E
  process_peers config clock peers = (
    Map.retain (λ p. is_static p.con_type || still_valid config clock p) peers,
    map (λ p. p.eid) (filter (λ p. not (still_valid config clock p)) (values peers)),
  )

  -- `report_failed_transmission`: the peers that stay, and the peer that was dropped
  unfoldable pub report_failed_transmission : String → Peers E → Peers E × Option (DtnPeer E)
  report_failed_transmission name peers = elim (lookup name peers) [
    | none ↦ (peers, none)
    | some peer ↦
        let peer' = report_fail peer in
        let peers' = Map.modify name report_fail peers in
        if failed_too_much peer' && not (is_static peer'.con_type)
        then (Map.remove name peers', lookup name peers')
        else (peers', none)
  ]
