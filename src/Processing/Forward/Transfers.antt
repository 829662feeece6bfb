-- ===== src/Processing/Forward/Transfers.antt =====
-- The transfers of `forward` in core/dtn7/src/core/processing.rs.
use dtn7_rs.Prelude.{
  ◌+◌, ◌%◌, ◌<◌, String, ◌≡◌, Bool, true, false, not, ◌||◌, List, [], ◌∷◌, Eq, unwrap_or, arith,
  any, filter, length, if◌then◌else◌,
}
use dtn7_rs.Outcome.{ok}
use dtn7_rs.BundlePack.{BundlePack, u64_mod}
use dtn7_rs.Peer.{ClaSenderTask}
use dtn7_rs.Extensions.{forwarded_bundle, no_information}
use dtn7_rs.Node.{Node, Context, on_store, accept}
use dtn7_rs.Processing.Reports.{report_if}
use dtn7_rs.Processing.Forward.{
  transfer_failed, transfer_succeeded, transfer_to, transfer_all, after_sent, finish, send_secured,
}

module _ {E B S A : Type 0} ⦃eq : Eq E⦄ (cx : Context E B S A) where
  -- If the counters fit a u64, the transfers leave the store alone, report success exactly if one
  -- of them succeeded, and count the successes and the failures, modulo 2 ^ 64.
  pub transfer_all_lem :
      (bid : String) (ts : List (ClaSenderTask E)) (n : Node E B S A) (sent : Bool)
      → n.stats.outgoing < u64_mod
      → n.stats.failed < u64_mod
      → let (m, success) = transfer_all cx bid ts (n, sent) in
        (m.store ≡ n.store)
        × (success ≡ (sent || any cx.transfer ts))
        × (m.stats.outgoing ≡ (n.stats.outgoing + length (filter cx.transfer ts)) % u64_mod)
        × (m.stats.failed
            ≡ (n.stats.failed + length (filter (λ t. not (cx.transfer t)) ts)) % u64_mod)
  unfolding transfer_all transfer_to transfer_succeeded transfer_failed
  transfer_all_lem bid [] n sent o f = ground arith
  transfer_all_lem bid (t ∷ ts) n sent o f =
      let hop = unwrap_or (cx.bp7.node t.next_hop) "" in
      ground (
        arith,
        transfer_all_lem bid ts (transfer_succeeded cx bid hop n) true,
        transfer_all_lem bid ts (transfer_failed cx bid hop n) sent,
      )

  -- If the policy lets a bundle out that is no administrative record, and the counters fit a u64:
  -- the transfers leave the store as it is, and without a success `forward` ends there; if a
  -- transfer succeeded, a report on the forwarding is sent if it is due, and the bundle is then
  -- removed if the routing agent asked for that.
  pub send_secured_lem :
      (bp : BundlePack E) (ts : List (ClaSenderTask E)) (delete_afterwards : Bool) (b : B)
      (n : Node E B S A)
      → n.stats.outgoing < u64_mod
      → n.stats.failed < u64_mod
      → cx.bp7.is_administrative_record b ≡ false
      → let m = (transfer_all cx bp.id ts (n, false)).0 in
        let reported =
          report_if cx (cx.bp7.status_request_forward b) b bp forwarded_bundle no_information m in
        (m.store ≡ n.store)
        × (send_secured cx bp ts delete_afterwards (accept, b) n ≡ (
            if any cx.transfer ts
            then (if delete_afterwards
                then on_store (cx.st.remove bp.id) reported
                else (ok tt, reported))
            else (ok tt, m)))
  unfolding send_secured finish after_sent
  send_secured_lem bp ts delete_afterwards b n o f plain =
      let transfers = transfer_all_lem bp.id ts n false o f in
      (transfers.0, finished (transfer_all cx bp.id ts (n, false)) transfers.1)
    where
      finished :
          (r : Node E B S A × Bool)
          → r.1 ≡ any cx.transfer ts
          → let reported =
              report_if cx
                (cx.bp7.status_request_forward b)
                b
                bp
                forwarded_bundle
                no_information
                r.0 in
            finish cx bp b delete_afterwards r ≡ (
              if any cx.transfer ts
              then (if delete_afterwards
                  then on_store (cx.st.remove bp.id) reported
                  else (ok tt, reported))
              else (ok tt, r.0))
      finished (m, true) e = ground (arith, e, plain)
      finished (m, false) e = ground (arith, e)
