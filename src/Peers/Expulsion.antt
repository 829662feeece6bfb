-- ===== src/Peers/Expulsion.antt =====
-- Which peers are given up: `process_peers` of core/dtn7/src/core/mod.rs and
-- `report_failed_transmission` of core/dtn7/src/core/processing.rs.
use dtn7_rs.Prelude.{
  String, ◌≡◌, ◌↔◌, ap, subst, Bool, true, false, not, ◌&&◌, ◌||◌, none, some, arith, string_eq,
  ==_refl, ◌==◌, filter, In, In-filter, In-map-from, In-map-to, if◌then◌else◌,
}
use dtn7_rs.Map
use dtn7_rs.Map.{Map, lookup, contains_key, values}
use dtn7_rs.Map.Laws.{lookup-remove, lookup-modify}
use dtn7_rs.Map.Distinct.{lookup-retain, In-values_of_lookup, lookup_of_In-values}
use dtn7_rs.Bp7.{Bp7}
use dtn7_rs.BundlePack.{Clock}
use dtn7_rs.Peer.{DtnPeer, PeerConfig, is_static, still_valid, report_fail, failed_too_much}
use dtn7_rs.Peers.{Peers, process_peers, report_failed_transmission}
use dtn7_rs.Peers.Invariant.{IsKeyed}

module _ {E B : Type 0} (bp7 : Bp7 E B) where
  -- After the janitor's `process_peers` a peer is known exactly if it was and is still valid, and
  -- what is kept is unchanged, provided that the list holds each peer once, under its node name.
  pub lookup-process_peers :
      (config : PeerConfig) (clock : Clock) (peers : Peers E) (k : String) (p : DtnPeer E)
      → IsKeyed bp7 peers
      → (lookup k (process_peers config clock peers).0 ≡ some p)
        ↔ ((lookup k peers ≡ some p) × (still_valid config clock p ≡ true))
  unfolding process_peers still_valid
  lookup-process_peers config clock peers k p v = ground (
    arith,
    lookup-retain (λ q. is_static q.con_type || still_valid config clock q) k peers v.distinct,
  )

  pub lookup-report :
      (name : String) (peers : Peers E) (p : DtnPeer E)
      → lookup name peers ≡ some p
      → lookup name (report_failed_transmission name peers).0 ≡ (
          if failed_too_much (report_fail p) && not (is_static p.con_type)
          then none
          else some (report_fail p))
  unfolding report_failed_transmission report_fail
  lookup-report name peers p h = ground (
    arith,
    lookup-modify name name report_fail peers,
    lookup-remove name name (Map.modify name report_fail peers),
    ==_refl name,
  )

  pub lookup-report_gone :
      (name : String) (peers : Peers E)
      → lookup name peers ≡ none
      → lookup name (report_failed_transmission name peers).0 ≡ none
  unfolding report_failed_transmission
  lookup-report_gone name peers h = ground arith

  -- A failure on the way to another peer.
  pub lookup-report_other :
      (other name : String) (peers : Peers E)
      → (other == name) ≡ false
      → lookup name (report_failed_transmission other peers).0 ≡ lookup name peers
  unfolding report_failed_transmission
  lookup-report_other other name peers h = ground (
    arith,
    lookup-modify other name report_fail peers,
    lookup-remove other name (Map.modify other report_fail peers),
  )

  -- The endpoint IDs that `process_peers` reports as dropped are exactly those of the peers that
  -- are no longer valid, provided that the list holds each peer once, under its node name.
  pub dropped-process_peers :
      (config : PeerConfig) (clock : Clock) (peers : Peers E) (eid : E)
      → IsKeyed bp7 peers
      → In eid (process_peers config clock peers).1 ↔ (
          (k : String) × (p : DtnPeer E) × (lookup k peers ≡ some p)
          × (still_valid config clock p ≡ false)
          × (p.eid ≡ eid))
  unfolding process_peers
  dropped-process_peers config clock peers eid v = (to, from)
    where
      silent : DtnPeer E → Bool
      silent p = not (still_valid config clock p)

      to :
          In eid (process_peers config clock peers).1
          → (k : String) × (p : DtnPeer E) × (lookup k peers ≡ some p)
            × (still_valid config clock p ≡ false)
            × (p.eid ≡ eid)
      to i =
          let (p, j, e) =
            In-map-to (λ (q : DtnPeer E). q.eid) eid (filter silent (values peers)) i in
          let (member, test) = (In-filter silent p (values peers)).0 j in
          let (k, found) = lookup_of_In-values p peers v.distinct member in
          (k, p, found, ground arith, e)

      from :
          ((k : String) × (p : DtnPeer E) × (lookup k peers ≡ some p)
            × (still_valid config clock p ≡ false)
            × (p.eid ≡ eid))
          → In eid (process_peers config clock peers).1
      from (k, p, found, test, e) =
          subst (λ x. In x (process_peers config clock peers).1) e
            (In-map-from (λ (q : DtnPeer E). q.eid) p (filter silent (values peers))
              ((In-filter silent p (values peers)).1
                (In-values_of_lookup k p peers found, ap not test)))
