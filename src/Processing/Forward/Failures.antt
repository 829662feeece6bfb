-- ===== src/Processing/Forward/Failures.antt =====
-- How the failed transfers of `forward` in core/dtn7/src/core/processing.rs count against a peer.
use dtn7_rs.Prelude.{
  ℕ, ◌+◌, ◌≤◌, String, ◌≡◌, Bool, not, ◌&&◌, none, some, List, [], ◌∷◌, Eq, ◌==◌, string_eq, eq_iff,
  ltb, unwrap_or, arith, if◌then◌else◌, Bool-cases, inl, inr,
}
use dtn7_rs.Map.{lookup}
use dtn7_rs.Peer.{DtnPeer, ClaSenderTask, dynamic, report_fail, failed_too_much}
use dtn7_rs.Peers.{report_failed_transmission}
use dtn7_rs.Peers.Expulsion.{lookup-report, lookup-report_other, lookup-report_gone}
use dtn7_rs.Node.{Node, Context}
use dtn7_rs.Processing.Forward.{transfer_to, transfer_succeeded, transfer_failed}

-- A transfer of a bundle, and whether it succeeds.
pub record Attempt (E : Type 0) : Type 0 where
  pub bundle : String
  pub task : ClaSenderTask E
  pub succeeds : Bool

module _ {E B S A : Type 0} ⦃eq : Eq E⦄ (cx : Context E B S A) where
  abbrev pub hop_of : Attempt E → String
  hop_of a = unwrap_or (cx.bp7.node a.task.next_hop) ""

  -- The transfers one after the other, whatever else they are for.
  unfoldable pub attempts : List (Attempt E) → Node E B S A × Bool → Node E B S A × Bool
  attempts [] r = r
  attempts (a ∷ tries) r =
      attempts tries (transfer_to (record cx { transfer = λ t. a.succeeds }) a.bundle a.task r)

  -- How many of them fail on the way to `name`.
  unfoldable pub failures_to : String → List (Attempt E) → ℕ
  failures_to name [] = 0
  failures_to name (a ∷ tries) =
      (if not a.succeeds && (hop_of a == name) then 1 else 0) + failures_to name tries

  -- What a transfer does to the entry of a peer.
  lookup-transfer_to :
      (a : Attempt E) (name : String) (n : Node E B S A) (sent : Bool)
      → let m =
          (transfer_to (record cx { transfer = λ t. a.succeeds }) a.bundle a.task (n, sent)).0 in
        lookup name m.peers ≡ (
          if not a.succeeds && (hop_of a == name)
          then lookup name (report_failed_transmission name n.peers).0
          else lookup name n.peers)
  unfolding transfer_to transfer_succeeded transfer_failed
  lookup-transfer_to a name n sent = elim (Bool-cases (hop_of a == name)) [
    | inl same ↦ ground (arith, eq_iff (hop_of a) name)
    | inr other ↦ ground (arith, lookup-report_other cx.bp7 (hop_of a) name n.peers other)
  ]

  gone :
      (tries : List (Attempt E)) (name : String) (r : Node E B S A × Bool)
      → lookup name r.0.peers ≡ none
      → lookup name (attempts tries r).0.peers ≡ none
  unfolding attempts
  gone [] name r h = h
  gone (a ∷ tries) name (n, sent) h =
      gone tries name _
        (ground (arith, lookup-transfer_to a name n sent, lookup-report_gone cx.bp7 name n.peers h))

  -- The failed transfers to a dynamic peer count over its whole time in the list: after any
  -- transfers, of any bundles, to it and to other peers, it is in the list with its failures
  -- counted as long as they do not exceed three, however many transfers to it succeeded in
  -- between, and is dropped otherwise and stays out. It starts in the list with at most three
  -- failures.
  pub failures_counted :
      (tries : List (Attempt E)) (name : String) (n : Node E B S A) (sent : Bool) (p : DtnPeer E)
      → lookup name n.peers ≡ some p
      → p.con_type ≡ dynamic
      → p.fails ≤ 3
      → let f = failures_to name tries in
        lookup name (attempts tries (n, sent)).0.peers
        ≡ (if ltb 3 (p.fails + f) then none else some (record p { fails = p.fails + f }))
  unfolding attempts failures_to report_fail failed_too_much
  failures_counted [] name n sent p h d few = ground arith
  failures_counted (a ∷ tries) name n sent p h d few =
      let q : DtnPeer E = record p { fails = p.fails + 1 } in
      let r = transfer_to (record cx { transfer = λ t. a.succeeds }) a.bundle a.task (n, sent) in
      ground (
        arith,
        lookup-transfer_to a name n sent,
        lookup-report cx.bp7 name n.peers p h,
        failures_counted tries name r.0 r.1 p,
        failures_counted tries name r.0 r.1 q,
        gone tries name r,
      )
