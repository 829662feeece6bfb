-- ===== src/Tests/Handling.antt =====
-- Runs of core/dtn7/src/core/processing.rs.
use dtn7_rs.Prelude.{
  All, List, String, [], false, filter, if◌then◌else◌, nat_eq, none, refl, some, string_eq, true,
  ◌++◌, ◌==◌, ◌↔◌, ◌∷◌, ◌≡◌, ◌⊎◌, ◌≢◌, is_empty,
}
use dtn7_rs.Processing.Receive.Validation.{OnlyMissingCrc, validate_bundle_iff}
use dtn7_rs.Map
use dtn7_rs.Map.{lookup}
use dtn7_rs.Outcome.{ok, after}
use dtn7_rs.BundlePack.{local_endpoint, has_constraint, clear_constraints}
use dtn7_rs.Store.Spec.{view, updated, removed}
use dtn7_rs.Store.Mem
use dtn7_rs.Store.Mem.{InMemoryBundleStore, mem_store, push, update_metadata}
use dtn7_rs.Store.Mem.Invariant.{IsWellFormed, new-IsWellFormed, push-IsWellFormed}
use dtn7_rs.Store.Mem.Refinement.{mem_store-Laws}
use dtn7_rs.Routing.Epidemic
use dtn7_rs.Extensions.{no_information}
use dtn7_rs.Node.{Node, bump, with_stats}
use dtn7_rs.Processing.Reports.{delete}
use dtn7_rs.Processing.Reports.Deletion.{view-delete}
use dtn7_rs.Processing.Receive.{
  receive, validate_bundle, scan_blocks, remove_marked, is_known_block_type, report_unintelligible,
}
use dtn7_rs.Processing.Receive.Blocks.{is_kept, scanned_removed}
use dtn7_rs.BundlePack.{BundlePack, add_constraint, from_bundle}
use dtn7_rs.Store.Spec.{unknown, stored}
use dtn7_rs.Routing.{incoming_bundle}
use dtn7_rs.ApplicationAgent.{ApplicationAgent, is_in_endpoints, get_endpoint, set_endpoint}
use dtn7_rs.Processing.Delivery.{is_local_node_id, local_delivery}
use dtn7_rs.Processing.Delivery.Local.{kept_pack, local_delivery_lem}
use dtn7_rs.Processing.Receive.Transit.{received_pack, received_forwarded}
use dtn7_rs.Processing.History.{Event, forwards, runs_janitor, run, received_once}
use dtn7_rs.Tests.Sample.{bp7, context, letter, payload, pack, noon, node_with, Bundle}

abbrev pub TestNode : Type 0
TestNode = Node String Bundle (InMemoryBundleStore String Bundle) Epidemic.Core

abbrev pub node : TestNode
node = node_with Mem.new

abbrev events : List (Event String Bundle)
events =
    record { clock = noon; transfer = λ t. false; cmd = forwards pack }
    ∷ record { clock = noon; transfer = λ t. true; cmd = runs_janitor }
    ∷ []

valid : validate_bundle context letter ≡ ok tt
unfolding validate_bundle
valid = refl

received_once_example :
    let m = run context events (after (receive context letter) node) in
    receive context letter m ≡ (ok tt, with_stats (λ t. record t { dups = bump t.dups }) m)
received_once_example =
    received_once context (mem_store-Laws bp7) letter letter events node (new-IsWellFormed bp7)
      valid valid refl

scanned : (scan_blocks context pack 0 (bp7.canonicals letter) [] node).0 ≡ ok (some (0 ∷ []))
unfolding scan_blocks is_known_block_type report_unintelligible
scanned = refl

scanned_removed_example :
    remove_marked context (0 ∷ []) letter
    ≡ bp7.with_canonicals (filter (is_kept false) (bp7.canonicals letter)) letter
scanned_removed_example = scanned_removed context pack letter (0 ∷ []) node scanned

abbrev pub full : TestNode
full = node_with (after (push bp7 noon letter) Mem.new)

pub full-IsWellFormed : IsWellFormed bp7 full.store
full-IsWellFormed = push-IsWellFormed bp7 noon letter Mem.new (new-IsWellFormed bp7)

held : (mem_store bp7).get_bundle "a-1" full.store ≡ some letter
unfolding push Mem.new lookup Map.insert
held = refl

view-delete_example :
    view (mem_store bp7) (after (delete context pack no_information) full).store "a-1" ≡ (
      if pack.id == "a-1"
      then (if has_constraint local_endpoint pack
          then updated (clear_constraints pack) (view (mem_store bp7) full.store "a-1")
          else removed (view (mem_store bp7) full.store "a-1"))
      else view (mem_store bp7) full.store "a-1")
view-delete_example =
    view-delete context (mem_store-Laws bp7) pack no_information letter full "a-1" full-IsWellFormed
      held refl

abbrev plain_letter : Bundle
plain_letter = record letter { blocks = payload ∷ [] }

nothing_held : view (mem_store bp7) node.store "a-1" ≡ unknown
unfolding Mem.new lookup
nothing_held = refl

plain_valid : validate_bundle context plain_letter ≡ ok tt
unfolding validate_bundle
plain_valid = refl

only_known : All (λ c. is_known_block_type false c.block_type ≡ true) (bp7.canonicals plain_letter)
unfolding is_known_block_type
only_known = (refl, tt)

no_endpoint :
    is_in_endpoints
      (received_pack context (mem_store-Laws bp7) plain_letter).destination
      node.endpoints
    ≡ false
unfolding is_in_endpoints
no_endpoint = refl

elsewhere :
    is_local_node_id context (received_pack context (mem_store-Laws bp7) plain_letter).destination
    ≡ false
unfolding is_local_node_id add_constraint from_bundle
elsewhere = refl

received_forwarded_example :
    let (result, m) = receive context plain_letter node in
    (result ≡ ok tt)
    × (m.spawned ≡ node.spawned ++ received_pack context (mem_store-Laws bp7) plain_letter ∷ [])
    × (m.routing ≡ context.agent.notify (incoming_bundle plain_letter) node.routing)
    × (m.stats.incoming ≡ bump node.stats.incoming)
    × (view (mem_store bp7) m.store "a-1" ≡ (
        if bp7.bundle_id plain_letter == "a-1"
        then stored plain_letter (received_pack context (mem_store-Laws bp7) plain_letter)
        else view (mem_store bp7) node.store "a-1"))
received_forwarded_example =
    received_forwarded context (mem_store-Laws bp7) plain_letter node "a-1" (new-IsWellFormed bp7)
      nothing_held plain_valid only_known refl refl refl no_endpoint elsewhere

-- the letter, addressed to an agent of this node
abbrev pack_here : BundlePack String
pack_here = record pack { destination = "b" }

abbrev agent_here : ApplicationAgent String Bundle
agent_here = record { eid = "b"; bundles = []; delivery = none }

abbrev attended : TestNode
attended = record full { endpoints = agent_here ∷ [] }

stored_here :
    view (mem_store bp7) attended.store "a-1" ≡ stored letter (from_bundle bp7 noon letter)
unfolding push Mem.new lookup Map.insert from_bundle
stored_here = refl

local_here : is_local_node_id context "b" ≡ true
unfolding is_local_node_id
local_here = refl

agent_found : get_endpoint "b" attended.endpoints ≡ some agent_here
unfolding get_endpoint
agent_found = refl

local_delivery_lem_example :
    let (result, m) = local_delivery context pack_here attended in
    (result ≡ ok tt)
    × (m.endpoints
        ≡ set_endpoint "b" (record agent_here { bundles = letter ∷ [] }) attended.endpoints)
    × (m.stats.delivered ≡ bump attended.stats.delivered)
    × (view (mem_store bp7) m.store "a-1" ≡ (
        if pack_here.id == "a-1"
        then stored letter (kept_pack context (mem_store-Laws bp7) pack_here)
        else view (mem_store bp7) attended.store "a-1"))
local_delivery_lem_example =
    local_delivery_lem context (mem_store-Laws bp7) pack_here (from_bundle bp7 noon letter) letter
      agent_here attended "a-1" full-IsWellFormed stored_here refl refl local_here agent_found refl

validate_bundle_iff_example : (validate_bundle context letter ≡ ok tt) ↔ (
    (bp7.node (bp7.destination letter) ≢ none)
    × OnlyMissingCrc (bp7.validate letter)
    × ((is_empty (bp7.validate letter) ≡ true) ⊎ (context.config.strict_validation ≡ false)))
validate_bundle_iff_example = validate_bundle_iff context letter
