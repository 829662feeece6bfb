-- ===== src/Tests/Peering.antt =====
-- Runs of the list of peers: core/dtn7/src/core/peer.rs and core/dtn7/src/lib.rs.
use dtn7_rs.Prelude.{
  In, false, String, ◌≡◌, ◌⊎◌, ◌↔◌, ◌<◌, ◌+◌, refl, true, List, [], ◌∷◌, some, none, arith,
  string_eq,
}
use dtn7_rs.Map.{lookup, insert_sorted, place, remove}
use dtn7_rs.Peer.{DtnPeer, ClaSenderTask, static, still_valid, first_cla, cla_among, cla_for}
use dtn7_rs.Peer.Validity.{still_valid_iff}
use dtn7_rs.Peer.Sender.{task}
use dtn7_rs.Peers.{Peers, peers_add, process_peers}
use dtn7_rs.Peers.Invariant.{
  IsKeyed, PeerOp, adds, reports, touches, run, step, run-IsKeyed, empty-IsKeyed,
}
use dtn7_rs.Peers.Expulsion.{lookup-process_peers, dropped-process_peers}
use dtn7_rs.Tests.Sample.{bp7, noon, peer_b, peer_c, peer_config, tcp}

abbrev no_peers : Peers String
no_peers = []

abbrev both : Peers String
both = ("b", peer_b) ∷ ("c", peer_c) ∷ []

still_valid_iff_example :
    (still_valid peer_config noon peer_b ≡ true)
    ↔ ((peer_b.con_type ≡ static) ⊎ ((0 < 20) × (noon.unix_secs < peer_b.last_contact + 20)))
still_valid_iff_example = still_valid_iff peer_config noon peer_b 20 refl (omega arith)

abbrev sent : ClaSenderTask String
sent = task peer_b (tcp ∷ []) ("tcp", none) tcp

chosen : first_cla (tcp ∷ []) peer_b ≡ some sent
unfolding first_cla cla_among cla_for
chosen = refl

abbrev history : List (PeerOp String)
history = adds peer_b ∷ adds peer_c ∷ touches noon "b" ∷ reports "b" ∷ adds peer_b ∷ []

run-IsKeyed_example : IsKeyed bp7 (run bp7 history no_peers)
run-IsKeyed_example = run-IsKeyed bp7 history no_peers (empty-IsKeyed bp7)

both-IsKeyed : IsKeyed bp7 both
unfolding run step peers_add insert_sorted place remove lookup
both-IsKeyed = run-IsKeyed bp7 (adds peer_b ∷ adds peer_c ∷ []) no_peers (empty-IsKeyed bp7)

lookup-process_peers_example :
    (lookup "b" (process_peers peer_config noon both).0 ≡ some peer_b)
    ↔ ((lookup "b" both ≡ some peer_b) × (still_valid peer_config noon peer_b ≡ true))
lookup-process_peers_example =
    lookup-process_peers bp7 peer_config noon both "b" peer_b both-IsKeyed

known_b : lookup "b" both ≡ some peer_b
unfolding lookup
known_b = refl

known_c : lookup "c" both ≡ some peer_c
unfolding lookup
known_c = refl

dropped-process_peers_example : In "b" (process_peers peer_config noon both).1 ↔ (
    (k : String) × (p : DtnPeer String) × (lookup k both ≡ some p)
    × (still_valid peer_config noon p ≡ false)
    × (p.eid ≡ "b"))
dropped-process_peers_example = dropped-process_peers bp7 peer_config noon both "b" both-IsKeyed
