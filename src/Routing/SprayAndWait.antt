-- ===== src/Routing/SprayAndWait.antt =====
-- core/dtn7/src/routing/sprayandwait.rs. Copies are counted in a usize, which is a number without a
-- bound here.
pub mod Books
pub mod Copies
pub mod Wait
use text.Mathlib.Text.{starts_with}
use dtn7_rs.Prelude.{
  ℕ, ◌+◌, ◌-◌, String, Bool, true, false, not, ◌||◌, Option, none, some, List, [], ◌∷◌, ◌++◌, ◌==◌,
  string_eq, ltb, length, filter, any, if◌then◌else◌,
}
use dtn7_rs.Map
use dtn7_rs.Map.{Map, lookup, contains_key}
use dtn7_rs.Bp7.{Bp7}
use dtn7_rs.BundlePack.{BundlePack}
use dtn7_rs.Peer.{DtnPeer, ClaInstance, ClaSenderTask, node_name, first_cla}
use dtn7_rs.Routing.{
  RoutingNotification, Senders, sending_failed, sending_succeeded, incoming_bundle,
  incoming_bundle_without_previous_node, encountered_peer, dropped_peer,
}
use dtn7_rs.Routing.Epidemic.{is_destination}

pub record SaWBundleData : Type 0 where
  pub remaining_copies : ℕ
  pub nodes : List String

abbrev pub max_copies : ℕ
max_copies = 7

-- `SprayAndWaitRoutingAgentCore`; `local_node` is the node ID of this host
pub record Core : Type 0 where
  pub l : ℕ
  pub history : Map String SaWBundleData
  pub local_node : String

unfoldable pub new : ℕ → String → Core
new starting_copies local_node = record {
  l = starting_copies;
  history = [];
  local_node = local_node;
}

unfoldable pub handle_new_bundle : String → Core → Core
handle_new_bundle bundle_id core =
    if contains_key bundle_id core.history
    then core
    else if starts_with bundle_id core.local_node
    then record core {
      history =
          Map.insert bundle_id (record { remaining_copies = core.l; nodes = [] }) core.history;
    }
    else record core {
      history = Map.insert bundle_id (record { remaining_copies = 1; nodes = [] }) core.history;
    }

-- the `SendingFailed` arm of `handle_notification`
unfoldable pub take_back : String → SaWBundleData → SaWBundleData
take_back name meta =
    let kept = filter (λ n. not (n == name)) meta.nodes in
    record {
      remaining_copies = meta.remaining_copies + (length meta.nodes - length kept);
      nodes = kept;
    }

module _ {E B : Type 0} (bp7 : Bp7 E B) where
  unfoldable pub handle_notification : RoutingNotification E B → Core → Core
  handle_notification (sending_failed bid name) core = record core {
    history = Map.modify bid (take_back name) core.history;
  }
  handle_notification (incoming_bundle b) core = handle_new_bundle (bp7.bundle_id b) core
  handle_notification (incoming_bundle_without_previous_node bid name) core =
      handle_new_bundle bid core
  handle_notification (sending_succeeded bid name) core = core
  handle_notification (encountered_peer eid) core = core
  handle_notification (dropped_peer eid) core = core

-- The variables of the loop over the peers in `handle_sender_for_bundle`.
pub record Round (E : Type 0) : Type 0 where
  pub meta : SaWBundleData
  pub clas : List (ClaSenderTask E)
  pub delete_afterwards : Bool

module _ {E B : Type 0} (bp7 : Bp7 E B) (agents : List ClaInstance) where
  -- a peer that may still be served, and no copies are left to spread
  unfoldable pub wait_phase : BundlePack E → DtnPeer E → Round E → Round E
  wait_phase bp p r =
      if is_destination bp7 bp p
      then elim (first_cla agents p) [
        | none ↦ r
        | some cla ↦ record r { clas = cla ∷ []; delete_afterwards = true }
      ]
      else r

  -- and copies are left
  unfoldable pub spray_phase : DtnPeer E → Round E → Round E
  spray_phase p r = elim (first_cla agents p) [
    | none ↦ r
    | some cla ↦ record r {
      clas = r.clas ++ cla ∷ [];
      meta = record {
        remaining_copies = r.meta.remaining_copies - 1;
        nodes = r.meta.nodes ++ node_name bp7 p ∷ [];
      };
    }
  ]

  -- the body of the loop
  unfoldable pub offer : String → BundlePack E → DtnPeer E → Round E → Round E
  offer local_node bp p r = elim (bp7.node_id p.eid) [
    | none ↦ r
    | some peer_node_id ↦
        if peer_node_id == local_node || any (λ n. n == node_name bp7 p) r.meta.nodes
        then r
        else if ltb r.meta.remaining_copies 2
        then wait_phase bp p r
        else spray_phase p r
  ]

  unfoldable pub offer_all : String → BundlePack E → List (DtnPeer E) → Round E → Round E
  offer_all local_node bp [] r = r
  offer_all local_node bp (p ∷ peers) r = offer_all local_node bp peers (offer local_node bp p r)

  unfoldable pub handle_sender_for_bundle :
      BundlePack E → List (DtnPeer E) → Core → Core × Senders E
  handle_sender_for_bundle bp peers core = elim (lookup bp.id core.history) [
    | none ↦ (core, ([], false))
    | some meta ↦
        let start : Round E = record { meta = meta; clas = []; delete_afterwards = false } in
        let r = offer_all core.local_node bp peers start in
        (
          record core { history = Map.insert bp.id r.meta core.history },
          (r.clas, r.delete_afterwards),
        )
  ]
