-- ===== src/Processing/Receive/Transit.antt =====
-- `receive` of core/dtn7/src/core/processing.rs for a bundle to another node.
use dtn7_rs.Prelude.{
  ℕ, ◌+◌, String, ◌≡◌, refl, sym, subst, ◌∙◌, true, false, some, List, [], ◌∷◌, ◌++◌, Eq, ◌==◌,
  string_eq, nat_eq, arith, eq_iff, ==_refl, All, if◌then◌else◌,
}
use dtn7_rs.Outcome.{ok, after}
use dtn7_rs.Bp7.{CanonicalBlock}
use dtn7_rs.BundlePack.{BundlePack, dispatch_pending, from_bundle, add_constraint}
use dtn7_rs.BundlePack.Constraints.{has_constraints-add_constraint}
use dtn7_rs.Store.Spec.{unknown, stored, view, Laws}
use dtn7_rs.GlobalStore.Known.{add_new}
use dtn7_rs.GlobalStore.Sync.{sync_stored, view-sync_stored}
use dtn7_rs.ApplicationAgent.{is_in_endpoints}
use dtn7_rs.Routing.{incoming_bundle}
use dtn7_rs.Node.{Node, Context, accept, receive_step, bump, with_stats}
use dtn7_rs.Processing.Reports.{report_if}
use dtn7_rs.Processing.Delivery.{is_local_node_id, spawn_forward, dispatch_found, dispatch}
use dtn7_rs.Processing.Receive.{
  is_known_block_type, remove_each, validate_bundle, scan_blocks, remove_marked, dispatch_logged,
  accept_secured, receive_scanned, receive_synced, receive_new, receive_added, receive,
}

module _ {E B S A : Type 0} ⦃eq : Eq E⦄ (cx : Context E B S A) {Inv : S → Type 0}
    (laws : Laws cx.bp7 cx.st Inv) (b : B) where
  -- The pack that `receive` makes of the bundle.
  abbrev pub received_pack : BundlePack E
  received_pack = add_constraint dispatch_pending (from_bundle cx.bp7 cx.clock b)

  id-received_pack : received_pack.id ≡ cx.bp7.bundle_id b
  unfolding add_constraint from_bundle
  id-received_pack = refl

  -- The store after the bundle is added, after its pack is synced, and after it is pushed again.
  abbrev added : S → S
  added s = after (cx.st.push cx.clock b) s

  abbrev synced : S → S
  synced s = after (cx.st.update_metadata received_pack) (added s)

  abbrev pub pushed_again : S → S
  pushed_again s = after (cx.st.push cx.clock b) (synced s)

  view-added :
      (s : S) (k : String)
      → Inv s
      → view cx.st s (cx.bp7.bundle_id b) ≡ unknown
      → view cx.st (added s) k ≡ (
          if cx.bp7.bundle_id b == k
          then stored b (from_bundle cx.bp7 cx.clock b)
          else view cx.st s k)
  view-added s k v new = ground (
    arith,
    laws.push_view cx.clock b s k v (λ bp e. ground (arith, new, e)),
    eq_iff (cx.bp7.bundle_id b) k,
  )

  added_own :
      (s : S)
      → Inv s
      → view cx.st s (cx.bp7.bundle_id b) ≡ unknown
      → view cx.st (added s) received_pack.id ≡ stored b (from_bundle cx.bp7 cx.clock b)
  added_own s v new =
      rw id-received_pack
        (view-added s (cx.bp7.bundle_id b) v new ∙ ground (arith, ==_refl (cx.bp7.bundle_id b)))

  view-synced :
      (s : S) (k : String)
      → Inv s
      → view cx.st s (cx.bp7.bundle_id b) ≡ unknown
      → view cx.st (synced s) k
        ≡ (if cx.bp7.bundle_id b == k then stored b received_pack else view cx.st s k)
  view-synced s k v new =
      view-sync_stored cx.bp7 cx.st laws received_pack (from_bundle cx.bp7 cx.clock b) b (added s) k
        (laws.push_keeps cx.clock b s v) (added_own s v new)
      ∙ ground (arith, id-received_pack, view-added s k v new)

  synced-Inv : (s : S) → Inv s → Inv (synced s)
  synced-Inv s v = laws.update_keeps received_pack (added s) (laws.push_keeps cx.clock b s v)

  synced_own :
      (s : S)
      → Inv s
      → view cx.st s (cx.bp7.bundle_id b) ≡ unknown
      → view cx.st (synced s) (cx.bp7.bundle_id b) ≡ stored b received_pack
  synced_own s v new =
      view-synced s (cx.bp7.bundle_id b) v new ∙ ground (arith, ==_refl (cx.bp7.bundle_id b))

  view-pushed_again :
      (s : S) (k : String)
      → Inv s
      → view cx.st s (cx.bp7.bundle_id b) ≡ unknown
      → view cx.st (pushed_again s) k
        ≡ (if cx.bp7.bundle_id b == k then stored b received_pack else view cx.st s k)
  view-pushed_again s k v new = ground (
    arith,
    laws.push_view cx.clock b (synced s) k (synced-Inv s v)
        (λ bp e. ground (arith, synced_own s v new, e)),
    view-synced s k v new,
    eq_iff (cx.bp7.bundle_id b) k,
  )

  pushed_again_own :
      (s : S)
      → Inv s
      → view cx.st s (cx.bp7.bundle_id b) ≡ unknown
      → view cx.st (pushed_again s) received_pack.id ≡ stored b received_pack
  pushed_again_own s v new =
      subst (λ j. view cx.st (pushed_again s) j ≡ stored b received_pack) (sym id-received_pack)
        (view-pushed_again s (cx.bp7.bundle_id b) v new
          ∙ ground (arith, ==_refl (cx.bp7.bundle_id b)))

  -- Blocks of known types leave no marks.
  scan_known :
      (i : ℕ) (bs : List CanonicalBlock) (n : Node E B S A)
      → All (λ c. is_known_block_type cx.config.bpsec c.block_type ≡ true) bs
      → scan_blocks cx received_pack i bs [] n ≡ (ok (some []), n)
  unfolding scan_blocks
  scan_known i [] n h = refl
  scan_known i (c ∷ bs) n h = ground (arith, scan_known (i + 1) bs n h.1)

  -- A bundle that is stored and goes to another node is handed to `forward`.
  dispatch_away :
      (n : Node E B S A) (meta : BundlePack E)
      → view cx.st n.store received_pack.id ≡ stored b meta
      → is_in_endpoints received_pack.destination n.endpoints ≡ false
      → is_local_node_id cx received_pack.destination ≡ false
      → dispatch cx received_pack n ≡ (
        ok tt,
        record n {
          routing = cx.agent.notify (incoming_bundle b) n.routing;
          spawned = n.spawned ++ received_pack ∷ [];
        },
      )
  unfolding dispatch dispatch_found spawn_forward
  dispatch_away n meta here remote away = ground arith

  -- A new, valid bundle to another node, with blocks of known types, that the policy lets in
  -- unchanged: `receive` succeeds, counts the bundle, tells the routing agent, and hands the
  -- bundle to `forward`; the bundle is then stored with its pack, pending for dispatch, and other
  -- entries stay as they are. Status reports are off, and replacing the blocks of the bundle by
  -- themselves does not change it. It holds for every store that keeps the contract, from a
  -- well-formed state.
  pub received_forwarded :
      (n : Node E B S A) (k : String)
      → Inv n.store
      → view cx.st n.store (cx.bp7.bundle_id b) ≡ unknown
      → validate_bundle cx b ≡ ok tt
      → All (λ c. is_known_block_type cx.config.bpsec c.block_type ≡ true) (cx.bp7.canonicals b)
      → cx.bp7.with_canonicals (cx.bp7.canonicals b) b ≡ b
      → cx.enforce receive_step b ≡ (accept, b)
      → cx.config.generate_status_reports ≡ false
      → is_in_endpoints received_pack.destination n.endpoints ≡ false
      → is_local_node_id cx received_pack.destination ≡ false
      → let (result, m) = receive cx b n in
        (result ≡ ok tt)
        × (m.spawned ≡ n.spawned ++ received_pack ∷ [])
        × (m.routing ≡ cx.agent.notify (incoming_bundle b) n.routing)
        × (m.stats.incoming ≡ bump n.stats.incoming)
        × (view cx.st m.store k
            ≡ (if cx.bp7.bundle_id b == k then stored b received_pack else view cx.st n.store k))
  unfolding receive receive_added receive_new receive_synced receive_scanned accept_secured
      dispatch_logged remove_marked remove_each report_if
  received_forwarded n k v new valid known_blocks same_blocks allowed quiet remote away =
      let s = n.store in
      let counted =
        with_stats (λ t. record t { incoming = bump t.incoming }) (record n { store = added s }) in
      let m2 : Node E B S A = record counted { store = synced s } in
      let m3 : Node E B S A = record counted { store = pushed_again s } in
      ground (
        arith,
        add_new cx.bp7 cx.st laws cx.clock b s v
            (ground (arith, laws.known_view (cx.bp7.bundle_id b) s v, new)),
        sync_stored cx.bp7 cx.st laws received_pack (from_bundle cx.bp7 cx.clock b) b (added s)
            (laws.push_keeps cx.clock b s v) (added_own s v new)
            (has_constraints-add_constraint (from_bundle cx.bp7 cx.clock b) dispatch_pending),
        scan_known 0 (cx.bp7.canonicals b) m2 known_blocks,
        laws.push_result cx.clock b (synced s) (synced-Inv s v)
            (λ bp e. ground (arith, synced_own s v new, e)),
        dispatch_away m3 received_pack (pushed_again_own s v new) remote away,
        view-pushed_again s k v new,
      )
