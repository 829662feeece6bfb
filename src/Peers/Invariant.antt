-- ===== src/Peers/Invariant.antt =====
-- The keys of the list of peers of core/dtn7/src/lib.rs through a history of its operations.
use dtn7_rs.Prelude.{
  String, ◌≡◌, refl, sym, subst, inl, inr, Bool, true, false, Option, none, some, List, [], ◌∷◌,
  ◌||◌, arith, string_eq, eq_iff, Option-cases, Bool-cases, not, ◌&&◌,
}
use dtn7_rs.Map
use dtn7_rs.Map.{Map, lookup, contains_key}
use dtn7_rs.Map.Laws.{lookup-insert_sorted, lookup-remove, lookup-modify}
use dtn7_rs.Map.Distinct.{
  Distinct, remove-Distinct, modify-Distinct, insert_sorted-Distinct, retain-Distinct,
  lookup-retain,
}
use dtn7_rs.Outcome.{Result, ok, err, no_such_peer, after}
use dtn7_rs.Bp7.{Bp7}
use dtn7_rs.BundlePack.{Clock}
use dtn7_rs.Peer.{
  DtnPeer, PeerConfig, is_static, still_valid, update, touch, report_fail, failed_too_much,
}
use dtn7_rs.Peers.{
  Peers, peers_add, peers_remove, peers_clear, peers_touch, process_peers,
  report_failed_transmission,
}

pub record IsKeyed {E B : Type 0} (bp7 : Bp7 E B) (peers : Peers E) : Type 0 where
  pub key : (k : String) (p : DtnPeer E) → lookup k peers ≡ some p → bp7.node p.eid ≡ some k
  pub distinct : Distinct peers

module _ {E B : Type 0} (bp7 : Bp7 E B) where
  pub empty-IsKeyed : IsKeyed bp7 []
  unfolding lookup
  empty-IsKeyed = record { key = λ k p h. ground arith; distinct = tt }

  modify-IsKeyed :
      (k : String) (f : DtnPeer E → DtnPeer E) (peers : Peers E)
      → ((p : DtnPeer E) → (f p).eid ≡ p.eid)
      → IsKeyed bp7 peers
      → IsKeyed bp7 (Map.modify k f peers)
  modify-IsKeyed k f peers same v = record {
    key = λ j p h. elim (Option-cases (lookup j peers)) [
      | inl e ↦ absurd (ground (arith, lookup-modify k j f peers))
      | inr (q, e) ↦ ground (arith, lookup-modify k j f peers, same q, v.key j q)
    ];
    distinct = modify-Distinct k f peers v.distinct;
  }

  remove-IsKeyed :
      (k : String) (peers : Peers E) → IsKeyed bp7 peers → IsKeyed bp7 (Map.remove k peers)
  remove-IsKeyed k peers v = record {
    key = λ j p h. ground (arith, lookup-remove k j peers, v.key j p);
    distinct = remove-Distinct k peers v.distinct;
  }

  insert-IsKeyed :
      (k : String) (p : DtnPeer E) (peers : Peers E)
      → bp7.node p.eid ≡ some k
      → IsKeyed bp7 peers
      → IsKeyed bp7 (Map.insert_sorted k p peers)
  insert-IsKeyed k p peers named v = record {
    key = λ j q h. ground (arith, lookup-insert_sorted k j p peers, v.key j q, eq_iff k j);
    distinct = insert_sorted-Distinct k p peers v.distinct;
  }

  peers_add-IsKeyed :
      (p : DtnPeer E) (peers : Peers E) → IsKeyed bp7 peers → IsKeyed bp7 (peers_add bp7 p peers).1
  unfolding peers_add
  peers_add-IsKeyed p peers v = elim (Option-cases (bp7.node p.eid)) [
    | inl e ↦ keep (false, peers) (ground arith) v
    | inr (node, e) ↦ elim (Option-cases (lookup node peers)) [
      | inl new ↦
          keep (true, Map.insert_sorted node p peers) (ground arith)
            (insert-IsKeyed node p peers e v)
      | inr (known, old) ↦
          keep (false, Map.modify node (λ q. update q p) peers) (ground arith)
            (modify-IsKeyed node (λ q. update q p) peers (λ q. unfold update in refl) v)
    ]
  ]
    where
      keep :
          (r : Bool × Peers E)
          → peers_add bp7 p peers ≡ r
          → IsKeyed bp7 r.1
          → IsKeyed bp7 (peers_add bp7 p peers).1
      keep r e k = subst (λ t. IsKeyed bp7 t.1) (sym e) k

  process_peers-IsKeyed :
      (config : PeerConfig) (clock : Clock) (peers : Peers E)
      → IsKeyed bp7 peers
      → IsKeyed bp7 (process_peers config clock peers).0
  unfolding process_peers
  process_peers-IsKeyed config clock peers v = record {
    key = λ k p h. elim (Option-cases (lookup k peers)) [
      | inl e ↦ absurd (
          ground (
            arith,
            lookup-retain (λ q. is_static q.con_type || still_valid config clock q) k peers
                v.distinct,
          ))
      | inr (q, e) ↦ ground (
        arith,
        lookup-retain (λ q. is_static q.con_type || still_valid config clock q) k peers v.distinct,
        v.key k q,
      )
    ];
    distinct = retain-Distinct _ peers v.distinct;
  }

  report_failed_transmission-IsKeyed :
      (name : String) (peers : Peers E)
      → IsKeyed bp7 peers
      → IsKeyed bp7 (report_failed_transmission name peers).0
  unfolding report_failed_transmission
  report_failed_transmission-IsKeyed name peers v = elim (Option-cases (lookup name peers)) [
    | inl e ↦ keep (peers, none) (ground arith) v
    | inr (peer, e) ↦
        elim (Bool-cases
          (failed_too_much (report_fail peer) && not (is_static (report_fail peer).con_type))) [
            | inl gone ↦
                keep (Map.remove name counted, lookup name counted) (ground arith)
                  (remove-IsKeyed name counted counted-IsKeyed)
            | inr stays ↦ keep (counted, none) (ground arith) counted-IsKeyed
          ]
  ]
    where
      counted : Peers E
      counted = Map.modify name report_fail peers

      counted-IsKeyed : IsKeyed bp7 counted
      counted-IsKeyed = modify-IsKeyed name report_fail peers (λ q. unfold report_fail in refl) v

      keep :
          (r : Peers E × Option (DtnPeer E))
          → report_failed_transmission name peers ≡ r
          → IsKeyed bp7 r.0
          → IsKeyed bp7 (report_failed_transmission name peers).0
      keep r e k = subst (λ t. IsKeyed bp7 t.0) (sym e) k

  peers_touch-IsKeyed :
      (clock : Clock) (name : String) (peers : Peers E)
      → IsKeyed bp7 peers
      → IsKeyed bp7 (after (peers_touch clock name) peers)
  unfolding peers_touch
  peers_touch-IsKeyed clock name peers v = elim (Bool-cases (contains_key name peers)) [
    | inl e ↦
        keep (ok tt, Map.modify name (touch clock) peers) (ground arith)
          (modify-IsKeyed name (touch clock) peers (λ q. unfold touch in refl) v)
    | inr e ↦ keep (err no_such_peer, peers) (ground arith) v
  ]
    where
      keep :
          (r : Result (Unit {0}) × Peers E)
          → peers_touch clock name peers ≡ r
          → IsKeyed bp7 r.1
          → IsKeyed bp7 (after (peers_touch clock name) peers)
      keep r e k = subst (λ t. IsKeyed bp7 t.1) (sym e) k

-- What the daemon does to its list of peers.
pub data PeerOp (E : Type 0) : Type 0 where
  adds : DtnPeer E → PeerOp E
  removes : String → PeerOp E
  touches : Clock → String → PeerOp E
  processes : PeerConfig → Clock → PeerOp E
  reports : String → PeerOp E
  clears : PeerOp E

module _ {E B : Type 0} (bp7 : Bp7 E B) where
  unfoldable pub step : PeerOp E → Peers E → Peers E
  step (adds p) peers = (peers_add bp7 p peers).1
  step (removes k) peers = peers_remove k peers
  step (touches clock k) peers = after (peers_touch clock k) peers
  step (processes config clock) peers = (process_peers config clock peers).0
  step (reports k) peers = (report_failed_transmission k peers).0
  step clears peers = peers_clear peers

  unfoldable pub run : List (PeerOp E) → Peers E → Peers E
  run [] peers = peers
  run (op ∷ ops) peers = run ops (step op peers)

  step-IsKeyed : (op : PeerOp E) (peers : Peers E) → IsKeyed bp7 peers → IsKeyed bp7 (step op peers)
  unfolding step peers_remove peers_clear Map.lookup
  step-IsKeyed (adds p) peers v = peers_add-IsKeyed bp7 p peers v
  step-IsKeyed (removes k) peers v = remove-IsKeyed bp7 k peers v
  step-IsKeyed (touches clock k) peers v = peers_touch-IsKeyed bp7 clock k peers v
  step-IsKeyed (processes config clock) peers v = process_peers-IsKeyed bp7 config clock peers v
  step-IsKeyed (reports k) peers v = report_failed_transmission-IsKeyed bp7 k peers v
  step-IsKeyed clears peers v = record { key = λ k p h. absurd (ground arith); distinct = tt }

  -- Whatever is done to the list of peers, it holds each peer once, under its own node name, if
  -- it did before.
  pub run-IsKeyed :
      (ops : List (PeerOp E)) (peers : Peers E) → IsKeyed bp7 peers → IsKeyed bp7 (run ops peers)
  unfolding run
  run-IsKeyed [] peers v = v
  run-IsKeyed (op ∷ ops) peers v = run-IsKeyed ops (step op peers) (step-IsKeyed op peers v)
