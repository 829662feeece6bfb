-- ===== src/Processing/Delivery/Local.antt =====
-- `local_delivery` of core/dtn7/src/core/processing.rs for a bundle to this node.
use dtn7_rs.Prelude.{
  String, ◌≡◌, ◌∙◌, true, false, none, some, [], ◌∷◌, ◌++◌, Eq, ◌==◌, string_eq, arith, ==_refl,
  if◌then◌else◌,
}
use dtn7_rs.Outcome.{ok, after}
use dtn7_rs.BundlePack.{
  BundlePack, local_endpoint, constraint_eq, has_constraints, add_constraint, clear_constraints,
}
use dtn7_rs.BundlePack.Constraints.{
  has_constraints-add_constraint, has_constraint-add_constraint, has_constraints-clear_constraints,
  id-clear_constraints,
}
use dtn7_rs.Store.Spec.{stored, view, Laws}
use dtn7_rs.GlobalStore.Sync.{sync_stored, view-sync_stored}
use dtn7_rs.ApplicationAgent
use dtn7_rs.ApplicationAgent.{ApplicationAgent, get_endpoint, set_endpoint}
use dtn7_rs.Node.{Node, Context, bump}
use dtn7_rs.Processing.Reports.{report_if}
use dtn7_rs.Processing.Delivery.{is_local_node_id, hand_over, settle, deliver, local_delivery}

module _ {E B S A : Type 0} ⦃eq : Eq E⦄ (cx : Context E B S A) {Inv : S → Type 0}
    (laws : Laws cx.bp7 cx.st Inv) where
  -- The pack as `local_delivery` leaves it: claimed by the local endpoint, with no other constraint.
  abbrev pub kept_pack : BundlePack E → BundlePack E
  kept_pack bp = clear_constraints (add_constraint local_endpoint bp)

  kept_marked : (bp : BundlePack E) → has_constraints (kept_pack bp) ≡ true
  kept_marked bp = ground (
    arith,
    has_constraints-clear_constraints (add_constraint local_endpoint bp),
    has_constraint-add_constraint bp local_endpoint local_endpoint,
  )

  -- What the store is after the two syncs of `local_delivery`.
  abbrev twice : BundlePack E → S → S
  twice bp s =
      after (cx.st.update_metadata (kept_pack bp))
        (after (cx.st.update_metadata (add_constraint local_endpoint bp)) s)

  id-kept_pack : (bp : BundlePack E) → (kept_pack bp).id ≡ bp.id
  unfolding add_constraint
  id-kept_pack bp = id-clear_constraints (add_constraint local_endpoint bp)

  -- After the first sync the claimed pack stands beside the bundle.
  claimed_stored :
      (bp meta : BundlePack E) (b : B) (s : S)
      → Inv s
      → view cx.st s bp.id ≡ stored b meta
      → view cx.st
          (after (cx.st.update_metadata (add_constraint local_endpoint bp)) s)
          (kept_pack bp).id
        ≡ stored b (add_constraint local_endpoint bp)
  unfolding add_constraint
  claimed_stored bp meta b s v here =
      let claimed = add_constraint local_endpoint bp in
      rw (id-kept_pack bp) (
        view-sync_stored cx.bp7 cx.st laws claimed meta b s bp.id v here
        ∙ ground (arith, ==_refl bp.id))

  view-twice :
      (bp meta : BundlePack E) (b : B) (s : S) (k : String)
      → Inv s
      → view cx.st s bp.id ≡ stored b meta
      → view cx.st (twice bp s) k ≡ (if bp.id == k then stored b (kept_pack bp) else view cx.st s k)
  unfolding add_constraint
  view-twice bp meta b s k v here =
      let claimed = add_constraint local_endpoint bp in
      let s1 = after (cx.st.update_metadata claimed) s in
      view-sync_stored cx.bp7 cx.st laws (kept_pack bp) claimed b s1 k
        (laws.update_keeps claimed s v) (claimed_stored bp meta b s v here)
      ∙ ground
          (arith, id-kept_pack bp, view-sync_stored cx.bp7 cx.st laws claimed meta b s k v here)

  -- A bundle to this node with a registered application agent and no delivery channel:
  -- `local_delivery` succeeds, the agent has the bundle behind those that wait, the delivery is
  -- counted, and the bundle stays stored, claimed by the local endpoint with no other constraint;
  -- other entries stay as they are. The bundle is no administrative record, and status reports
  -- are off. It holds for every store that keeps the contract, from a well-formed state.
  pub local_delivery_lem :
      (bp meta : BundlePack E) (b : B) (aa : ApplicationAgent E B) (n : Node E B S A) (k : String)
      → Inv n.store
      → view cx.st n.store bp.id ≡ stored b meta
      → bp.administrative ≡ false
      → cx.config.generate_status_reports ≡ false
      → is_local_node_id cx bp.destination ≡ true
      → get_endpoint bp.destination n.endpoints ≡ some aa
      → aa.delivery ≡ none
      → let (result, m) = local_delivery cx bp n in
        (result ≡ ok tt)
        × (m.endpoints
            ≡ set_endpoint bp.destination
                (record aa { bundles = aa.bundles ++ b ∷ [] })
                n.endpoints)
        × (m.stats.delivered ≡ bump n.stats.delivered)
        × (view cx.st m.store k
            ≡ (if bp.id == k then stored b (kept_pack bp) else view cx.st n.store k))
  unfolding local_delivery deliver settle hand_over report_if add_constraint ApplicationAgent.push
  local_delivery_lem bp meta b aa n k v here plain quiet local agent queue =
      let claimed = add_constraint local_endpoint bp in
      let s1 = after (cx.st.update_metadata claimed) n.store in
      ground (
        arith,
        view-twice bp meta b n.store k v here,
        sync_stored cx.bp7 cx.st laws claimed meta b n.store v here
            (has_constraints-add_constraint bp local_endpoint),
        sync_stored cx.bp7 cx.st laws (kept_pack bp) claimed b s1
            (laws.update_keeps claimed n.store v) (claimed_stored bp meta b n.store v here)
            (kept_marked bp),
        here,
      )
