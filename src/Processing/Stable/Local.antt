-- ===== src/Processing/Stable/Local.antt =====
-- `local_delivery`, `dispatch` and `transmit` of core/dtn7/src/core/processing.rs and the push of an
-- application agent, against predicates on the store.
use dtn7_rs.Prelude.{Bool, true, false, Eq, arith, Option-cases, inl, inr}
use dtn7_rs.Outcome.{ok, bail, empty_administrative_record}
use dtn7_rs.BundlePack.{BundlePack, dispatch_pending, local_endpoint, add_constraint}
use dtn7_rs.GlobalStore.{sync, store_remove_if_singleton_bundle}
use dtn7_rs.ApplicationAgent
use dtn7_rs.ApplicationAgent.{ApplicationAgent, Channel, can_send, get_endpoint, is_in_endpoints}
use dtn7_rs.Extensions.{no_information, delivered_bundle}
use dtn7_rs.Routing.{incoming_bundle}
use dtn7_rs.Node.{Node, Context, on_store}
use dtn7_rs.Processing.Reports.{delete, is_administrative_record_valid}
use dtn7_rs.Processing.Delivery.{
  hand_over, settle, deliver, deliver_record, local_delivery, spawn_forward, dispatch_found,
  dispatch, transmit_pending, transmit,
}
use dtn7_rs.Processing.Stable.{
  IsStable, Keeps, sync-Keeps, bind-Keeps, report_if-Keeps, delete-Keeps,
  is_administrative_record_valid-Keeps,
}

module _ {E B S A : Type 0} ⦃eq : Eq E⦄ (cx : Context E B S A) {P : S → Type 0}
    (stable : IsStable cx.st P) where
  singleton-Keeps : (b : B) (s : S) → P s → P (store_remove_if_singleton_bundle cx.bp7 cx.st b s)
  unfolding store_remove_if_singleton_bundle
  singleton-Keeps b s p = ground (arith, stable.remove (cx.bp7.bundle_id b) s p)

  pub push-Keeps :
      (b : B) (aa : ApplicationAgent E B) (s : S)
      → P s
      → P (ApplicationAgent.push cx.bp7 cx.st b aa s).1
  unfolding ApplicationAgent.push
  push-Keeps b aa s p = elim (Option-cases aa.delivery) [
    | inl e ↦ ground arith
    | inr (c, e) ↦ ground (arith, singleton-Keeps b s p)
  ]

  hand_over-Keeps :
      (bp : BundlePack E) (b : B) (n : Node E B S A) → P n.store → P (hand_over cx bp b n).store
  unfolding hand_over
  hand_over-Keeps bp b n p = elim (Option-cases (get_endpoint bp.destination n.endpoints)) [
    | inl e ↦ ground arith
    | inr (aa, e) ↦ ground (arith, push-Keeps b aa n.store p)
  ]

  settle-Keeps : (bp : BundlePack E) (b : B) → Keeps cx stable (settle cx bp b)
  unfolding settle
  settle-Keeps bp b n p =
      bind-Keeps cx stable _ (λ _ m. (ok tt, hand_over cx bp b m))
        (sync-Keeps cx stable _ _ (
          ground (
            arith,
            report_if-Keeps cx stable (cx.bp7.status_request_delivery b) b bp delivered_bundle
                no_information n p,
          )))
        (λ _ m q. hand_over-Keeps bp b m q)

  deliver-Keeps : (bp : BundlePack E) (b : B) → Keeps cx stable (deliver cx bp b)
  unfolding deliver
  deliver-Keeps bp b n p =
      let claimed = add_constraint local_endpoint bp in
      bind-Keeps cx stable (on_store (sync cx.st claimed) n) (λ _. settle cx claimed b)
        (sync-Keeps cx stable claimed n.store p) (λ _. settle-Keeps claimed b)

  deliver_record-Keeps :
      (bp : BundlePack E) (b : B) (r : Bool × Node E B S A)
      → P r.1.store
      → P (deliver_record cx bp b r).1.store
  unfolding deliver_record
  deliver_record-Keeps bp b (true, n) p = deliver-Keeps bp b n p
  deliver_record-Keeps bp b (false, n) p =
      bind-Keeps cx stable (delete cx bp no_information n) (λ _. bail empty_administrative_record)
        (delete-Keeps cx stable bp no_information n p) (λ _ m q. q)

  pub local_delivery-Keeps : (bp : BundlePack E) → Keeps cx stable (local_delivery cx bp)
  unfolding local_delivery
  local_delivery-Keeps bp n p = elim (Option-cases (cx.st.get_bundle bp.id n.store)) [
    | inl e ↦ ground arith
    | inr (b, e) ↦ ground (
      arith,
      deliver-Keeps bp b n p,
      deliver_record-Keeps bp b (is_administrative_record_valid cx b n)
          (is_administrative_record_valid-Keeps cx stable b n p),
    )
  ]

  spawn_forward-Keeps : (bp : BundlePack E) → Keeps cx stable (spawn_forward cx bp)
  unfolding spawn_forward
  spawn_forward-Keeps bp n p = ground arith

  dispatch_found-Keeps : (bp : BundlePack E) (b : B) → Keeps cx stable (dispatch_found cx bp b)
  unfolding dispatch_found
  dispatch_found-Keeps bp b n p =
      let notified = record n { routing = cx.agent.notify (incoming_bundle b) n.routing } in
      ground (
        arith,
        bind-Keeps cx stable (local_delivery cx bp notified) (λ _. spawn_forward cx bp)
            (local_delivery-Keeps bp notified p) (λ _. spawn_forward-Keeps bp),
        spawn_forward-Keeps bp notified p,
      )

  pub dispatch-Keeps : (bp : BundlePack E) → Keeps cx stable (dispatch cx bp)
  unfolding dispatch
  dispatch-Keeps bp n p = elim (Option-cases (cx.st.get_bundle bp.id n.store)) [
    | inl e ↦ ground arith
    | inr (b, e) ↦ ground (arith, dispatch_found-Keeps bp b n p)
  ]

  transmit_pending-Keeps : (bp : BundlePack E) → Keeps cx stable (transmit_pending cx bp)
  unfolding transmit_pending
  transmit_pending-Keeps bp n p =
      ground (arith, delete-Keeps cx stable bp no_information n p, dispatch-Keeps bp n p)

  pub transmit-Keeps : (bp : BundlePack E) → Keeps cx stable (transmit cx bp)
  unfolding transmit
  transmit-Keeps bp n p =
      let pending = add_constraint dispatch_pending bp in
      bind-Keeps cx stable (on_store (sync cx.st pending) n) (λ _. transmit_pending cx pending)
        (sync-Keeps cx stable pending n.store p) (λ _. transmit_pending-Keeps pending)
