-- ===== src/Tests/Forwarding.antt =====
-- Runs of forwarding, of the janitor and of the inspection of status reports: core/dtn7/src/core/processing.rs
-- and core/dtn7/src/core/mod.rs.
use dtn7_rs.Prelude.{
  In, List, String, [], any, arith, false, if◌then◌else◌, nat_eq, none, refl, some, string_eq, true,
  ◌&&◌, ◌==◌, ◌↔◌, ◌∷◌, ◌≡◌, length, ltb, ◌+◌,
}
use dtn7_rs.Map.{lookup}
use dtn7_rs.Outcome.{ok, after, hop_count_exceeded}
use dtn7_rs.Peer.{ClaSenderTask}
use dtn7_rs.Store.Mem.{mem_store, update_metadata, InMemoryBundleStore}
use dtn7_rs.Store.Mem.Invariant.{IsWellFormed, update_metadata-IsWellFormed}
use dtn7_rs.Extensions.{BundleStatusItem, bundle_status_report, no_information, forwarded_bundle}
use dtn7_rs.Node.{on_store, accept, Context}
use dtn7_rs.Processing.Reports.{inspect_status_report, report_if}
use dtn7_rs.Processing.Reports.Inspection.{inspect_status_report_lem}
use dtn7_rs.Processing.Forward.{transfer_all, send_secured}
use dtn7_rs.Processing.Forward.Failures.{Attempt, attempts, failures_to, failures_counted}
use dtn7_rs.Processing.Forward.Transfers.{send_secured_lem}
use dtn7_rs.GlobalStore.{store_delete_expired}
use dtn7_rs.Processing.Janitor.{process_bundles}
use dtn7_rs.Processing.Janitor.Queue.{IsChronological}
use dtn7_rs.Processing.Janitor.Turns.{in_memory, in_turn, IsOnce, IsDue, process_bundles_lem}
use dtn7_rs.BundlePack.{BundlePack}
use dtn7_rs.Tests.Sample.{bp7, context, letter, pack, noon, task_to, peer_b, peer_c, ext, Bundle}
use dtn7_rs.Map
use dtn7_rs.Store.Mem
use dtn7_rs.Routing.Epidemic
use dtn7_rs.Tests.Handling.{TestNode, node, full, full-IsWellFormed}

abbrev tasks : List (ClaSenderTask String)
tasks = task_to "b" ∷ task_to "c" ∷ []

send_secured_lem_example :
    let m = (transfer_all context "a-1" tasks (node, false)).0 in
    let reported = report_if context false letter pack forwarded_bundle no_information m in
    (m.store ≡ node.store)
    × (send_secured context pack tasks true (accept, letter) node ≡ (
        if any context.transfer tasks
        then (if true then on_store (context.st.remove "a-1") reported else (ok tt, reported))
        else (ok tt, m)))
send_secured_lem_example =
    send_secured_lem context pack tasks true letter node (omega arith) (omega arith) refl

-- two failures and a success at `b`, a failure at `c`, and two more failures at `b`
abbrev transfers : List (Attempt String)
transfers =
    record { bundle = "a-1"; task = task_to "b"; succeeds = false }
    ∷ record { bundle = "a-2"; task = task_to "b"; succeeds = false }
    ∷ record { bundle = "a-2"; task = task_to "b"; succeeds = true }
    ∷ record { bundle = "a-1"; task = task_to "c"; succeeds = false }
    ∷ record { bundle = "a-1"; task = task_to "b"; succeeds = false }
    ∷ record { bundle = "a-1"; task = task_to "b"; succeeds = false }
    ∷ []

abbrev two_peers : TestNode
two_peers = record node { peers = ("b", peer_b) ∷ ("c", peer_c) ∷ [] }

b_listed : lookup "b" two_peers.peers ≡ some peer_b
unfolding lookup
b_listed = refl

failures_counted_example :
    let f = failures_to context "b" transfers in
    lookup "b" (attempts context transfers (two_peers, false)).0.peers
    ≡ (if ltb 3 (peer_b.fails + f) then none else some (record peer_b { fails = peer_b.fails + f }))
failures_counted_example =
    failures_counted context transfers "b" two_peers false peer_b b_listed refl (omega arith)

-- a status that is asserted, and one that is not
abbrev asserted : BundleStatusItem
asserted = record { asserted = true; time = 0; status_requested = false }

abbrev not_asserted : BundleStatusItem
not_asserted = record { asserted = false; time = 0; status_requested = false }

-- a report of a reception only
abbrev received_only : List BundleStatusItem
received_only = asserted ∷ not_asserted ∷ not_asserted ∷ not_asserted ∷ []

inspect_status_report_lem_example :
    inspect_status_report context (bundle_status_report received_only "a-1") node ≡ (
      if context.st.has_item "a-1" node.store
        && (length received_only == context.ext.max_status_information_pos)
      then record node { store = after (context.st.remove "a-1") node.store }
      else node)
inspect_status_report_lem_example =
    inspect_status_report_lem context "a-1" received_only node (omega arith)

-- the letter, pending for forwarding
abbrev due : TestNode
due = record full { store = after (update_metadata pack) full.store }

due-IsWellFormed : IsWellFormed bp7 due.store
due-IsWellFormed = update_metadata-IsWellFormed bp7 pack full.store full-IsWellFormed

process_bundles_lem_example :
    let cleaned = record due { store = store_delete_expired (mem_store bp7) noon due.store } in
    (turns : List (BundlePack String)) × (process_bundles (in_memory context) due ≡ (
      if any (λ c. c.accepting) context.clas
      then in_turn (in_memory context) turns cleaned
      else cleaned))
    × IsChronological turns
    × IsOnce turns
    × ((q : BundlePack String) → In q turns ↔ IsDue context due.store q)
process_bundles_lem_example = process_bundles_lem context due due-IsWellFormed

-- every hop is one too many
abbrev last_hop : Context String Bundle (InMemoryBundleStore String Bundle) Epidemic.Core
last_hop = record context {
  ext = record ext {
    has_hop_count = λ b. true;
    hop_count_increase = λ b. (true, b);
    hop_count_exceeded = λ b. true;
  };
}
