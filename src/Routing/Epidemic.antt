-- ===== src/Routing/Epidemic.antt =====
-- core/dtn7/src/routing/epidemic.rs. A request reads the peers and the agents as they are then.
pub mod Selection
pub mod NoResend
use dtn7_rs.Prelude.{
  String, Bool, true, false, not, ◌&&◌, Option, none, some, List, [], ◌∷◌, ◌++◌, map, ◌==◌,
  string_eq, is_empty, unwrap_or, if◌then◌else◌,
}
use dtn7_rs.Map
use dtn7_rs.Map.{Map, lookup}
use dtn7_rs.HashSet
use dtn7_rs.Bp7.{Bp7}
use dtn7_rs.BundlePack.{BundlePack}
use dtn7_rs.Peer.{DtnPeer, ClaInstance, ClaSenderTask, node_name, first_cla}
use dtn7_rs.Routing.{
  RoutingNotification, Senders, sending_failed, sending_succeeded, incoming_bundle,
  incoming_bundle_without_previous_node, encountered_peer, dropped_peer,
}

-- `EpidemicRoutingAgentCore`: for each bundle ID the names of the nodes that have it.
pub record Core : Type 0 where
  pub history : Map String (List String)

unfoldable pub new : Core
new = record { history = [] }

unfoldable pub add : String → String → Core → Core
unfolding HashSet.insert
add bundle_id name core = record {
  history =
      Map.insert bundle_id (HashSet.insert name (unwrap_or (lookup bundle_id core.history) []))
        core.history;
}

unfoldable pub contains : String → String → Core → Bool
unfolding HashSet.contains
contains bundle_id name core = elim (lookup bundle_id core.history) [
  | some entries ↦ HashSet.contains name entries
  | none ↦ false
]

-- `EpidemicRoutingAgentCore::sending_failed`
unfoldable pub remove_sent : String → String → Core → Core
unfolding HashSet.remove
remove_sent bundle_id name core = record {
  history = Map.modify bundle_id (HashSet.remove name) core.history;
}

-- `EpidemicRoutingAgentCore::incoming_bundle`
unfoldable pub add_previous : String → String → Core → Core
add_previous bundle_id name core =
    if not (name == "") && not (contains bundle_id name core) then add bundle_id name core else core

-- the last loop of `senders_for_bundle`, with the tasks that it collects
unfoldable pub add_all : {E : Type 0} → String → List (String × ClaSenderTask E) → Core → Core
add_all bundle_id [] core = core
add_all bundle_id ((name, cla) ∷ selected) core =
    add_all bundle_id selected (add bundle_id name core)

module _ {E B : Type 0} (bp7 : Bp7 E B) where
  -- `bp.destination.node().as_deref() == Some(p.node_name().as_str())`
  unfoldable pub is_destination : BundlePack E → DtnPeer E → Bool
  is_destination bp p = elim (bp7.node bp.destination) [
    | some name ↦ name == node_name bp7 p
    | none ↦ false
  ]

module _ {E B : Type 0} (bp7 : Bp7 E B) (clas : List ClaInstance) where
  -- the first loop of `senders_for_bundle`
  unfoldable pub select :
      Core
      → BundlePack E
      → List (DtnPeer E)
      → List (String × ClaSenderTask E)
      → List (String × ClaSenderTask E) × Bool
  select core bp [] selected = (selected, false)
  select core bp (p ∷ peers) selected = elim (contains bp.id (node_name bp7 p) core) [
    | true ↦ select core bp peers selected
    | false ↦ elim (first_cla clas p) [
      | none ↦ select core bp peers selected
      | some cla ↦ elim (is_destination bp7 bp p) [
        | true ↦ ((node_name bp7 p, cla) ∷ [], true)
        | false ↦ select core bp peers (selected ++ (node_name bp7 p, cla) ∷ [])
      ]
    ]
  ]

  unfoldable pub senders_for_bundle : BundlePack E → List (DtnPeer E) → Core → Core × Senders E
  senders_for_bundle bp peers core =
      let (selected, delete_afterwards) = select core bp peers [] in
      (add_all bp.id selected core, (map (λ s. s.1) selected, delete_afterwards))

module _ {E B : Type 0} (bp7 : Bp7 E B) where
  -- `incoming_bundle(&bndl.id(), &node_name)` if the bundle names its previous node
  unfoldable pub note_incoming : B → Core → Core
  note_incoming b core = elim (bp7.previous_node b) [
    | none ↦ core
    | some eid ↦ elim (bp7.node eid) [
      | none ↦ core
      | some name ↦ add_previous (bp7.bundle_id b) name core
    ]
  ]

  -- the `Notify` arm of `handle_routing_cmd`
  unfoldable pub notify : RoutingNotification E B → Core → Core
  notify (sending_failed bid name) core = remove_sent bid name core
  notify (incoming_bundle b) core = note_incoming b core
  notify (incoming_bundle_without_previous_node bid name) core = add_previous bid name core
  notify (sending_succeeded bid name) core = core
  notify (encountered_peer eid) core = core
  notify (dropped_peer eid) core = core
