-- ===== src/Processing/Stable/Outgoing.antt =====
-- `forward` of core/dtn7/src/core/processing.rs against predicates on the store.
use dtn7_rs.Prelude.{
  ℕ, String, ◌≡◌, sym, subst, refl, ◌∙◌, Bool, true, false, Option, none, some, List, [], ◌∷◌, Eq,
  string_eq, arith, Option-cases, inl, inr,
}
use dtn7_rs.Map.{values}
use dtn7_rs.HashSet
use dtn7_rs.Outcome.{
  bail, hop_count_exceeded, lifetime_exceeded, age_block_lifetime_exceeded,
  violates_security_policy,
}
use dtn7_rs.BundlePack.{
  BundlePack, from_bundle, forward_pending, dispatch_pending, add_constraint, remove_constraint,
}
use dtn7_rs.Peer.{ClaSenderTask}
use dtn7_rs.Routing.{Senders}
use dtn7_rs.GlobalStore.{sync}
use dtn7_rs.Extensions.{forwarded_bundle, no_information, lifetime_expired, hop_limit_exceeded}
use dtn7_rs.Node.{Node, Context, Verdict, accept, drop, forward_step, on_store}
use dtn7_rs.Processing.Reports.{report_if, delete, is_administrative_record_valid}
use dtn7_rs.Processing.Forward.{
  handle_primary_lifetime, check_hop_count, handle_hop_count_block, handle_previous_node_block,
  update_bundle_age, check_bundle_age, handle_bundle_age_block, transfer_failed, transfer_succeeded,
  transfer_to, transfer_all, after_sent, finish, send_secured, forward_found, forward_to,
  forward_selected, forward_pending_pack, forward_guarded, release, forward,
}
use dtn7_rs.Processing.Stable.{
  IsStable, Keeps, sync-Keeps, bind-Keeps, report_if-Keeps, delete-Keeps, contraindicated-Keeps,
  is_administrative_record_valid-Keeps,
}

module _ {E B S A : Type 0} ⦃eq : Eq E⦄ (cx : Context E B S A) where
  -- Transfers leave the store alone.
  pub store-transfer_to :
      (bid : String) (t : ClaSenderTask E) (r : Node E B S A × Bool)
      → (transfer_to cx bid t r).0.store ≡ r.0.store
  unfolding transfer_to transfer_failed transfer_succeeded
  store-transfer_to bid t (n, sent) = ground arith

  pub store-transfer_all :
      (bid : String) (ts : List (ClaSenderTask E)) (r : Node E B S A × Bool)
      → (transfer_all cx bid ts r).0.store ≡ r.0.store
  unfolding transfer_all
  store-transfer_all bid [] r = refl
  store-transfer_all bid (t ∷ ts) r =
      store-transfer_all bid ts (transfer_to cx bid t r) ∙ store-transfer_to bid t r

module _ {E B S A : Type 0} ⦃eq : Eq E⦄ (cx : Context E B S A) {P : S → Type 0}
    (stable : IsStable cx.st P) where
  handle_primary_lifetime-Keeps : (b : B) → Keeps cx stable (handle_primary_lifetime cx b)
  unfolding handle_primary_lifetime
  handle_primary_lifetime-Keeps b n p = ground (
    arith,
    bind-Keeps cx stable {U = Unit {0}}
        (delete cx (from_bundle cx.bp7 cx.clock b) lifetime_expired n) (λ _. bail lifetime_exceeded)
        (delete-Keeps cx stable (from_bundle cx.bp7 cx.clock b) lifetime_expired n p) (λ _ m q. q),
  )

  check_hop_count-Keeps : (r : Bool × B) → Keeps cx stable (check_hop_count cx r)
  unfolding check_hop_count
  check_hop_count-Keeps (increased, b) n p = ground (
    arith,
    bind-Keeps cx stable {U = B} (delete cx (from_bundle cx.bp7 cx.clock b) hop_limit_exceeded n)
        (λ _. bail hop_count_exceeded)
        (delete-Keeps cx stable (from_bundle cx.bp7 cx.clock b) hop_limit_exceeded n p)
        (λ _ m q. q),
  )

  handle_hop_count_block-Keeps : (b : B) → Keeps cx stable (handle_hop_count_block cx b)
  unfolding handle_hop_count_block
  handle_hop_count_block-Keeps b n p =
      ground (arith, check_hop_count-Keeps (cx.ext.hop_count_increase b) n p)

  check_bundle_age-Keeps : (r : B × Option ℕ) → Keeps cx stable (check_bundle_age cx r)
  unfolding check_bundle_age
  check_bundle_age-Keeps (b, none) n p = p
  check_bundle_age-Keeps (b, some age) n p = ground (
    arith,
    bind-Keeps cx stable {U = B} (delete cx (from_bundle cx.bp7 cx.clock b) lifetime_expired n)
        (λ _. bail age_block_lifetime_exceeded)
        (delete-Keeps cx stable (from_bundle cx.bp7 cx.clock b) lifetime_expired n p) (λ _ m q. q),
  )

  handle_bundle_age_block-Keeps : (b : B) → Keeps cx stable (handle_bundle_age_block cx b)
  unfolding handle_bundle_age_block
  handle_bundle_age_block-Keeps b n p = check_bundle_age-Keeps (update_bundle_age cx n.store b) n p

  after_sent-Keeps :
      (bp : BundlePack E) (b : B) (delete_afterwards : Bool)
      → Keeps cx stable (after_sent cx bp b delete_afterwards)
  unfolding after_sent
  after_sent-Keeps bp b delete_afterwards n p =
      let reported =
        report_if cx (cx.bp7.status_request_forward b) b bp forwarded_bundle no_information n in
      let q : P reported.store =
        report_if-Keeps cx stable (cx.bp7.status_request_forward b) b bp forwarded_bundle
          no_information n p in
      ground (
        arith,
        stable.remove bp.id reported.store q,
        contraindicated-Keeps cx stable bp (is_administrative_record_valid cx b reported).1
            (is_administrative_record_valid-Keeps cx stable b reported q),
      )

  finish-Keeps :
      (bp : BundlePack E) (b : B) (delete_afterwards : Bool) (r : Node E B S A × Bool)
      → P r.0.store
      → P (finish cx bp b delete_afterwards r).1.store
  unfolding finish
  finish-Keeps bp b delete_afterwards (n, true) p = after_sent-Keeps bp b delete_afterwards n p
  finish-Keeps bp b delete_afterwards (n, false) p = p

  send_secured-Keeps :
      (bp : BundlePack E) (nodes : List (ClaSenderTask E)) (delete_afterwards : Bool)
      (v : Verdict × B)
      → Keeps cx stable (send_secured cx bp nodes delete_afterwards v)
  unfolding send_secured
  send_secured-Keeps bp nodes delete_afterwards (drop reason, b) n p =
      bind-Keeps cx stable (delete cx bp reason n) (λ _. bail (violates_security_policy bp.id))
        (delete-Keeps cx stable bp reason n p) (λ _ m q. q)
  send_secured-Keeps bp nodes delete_afterwards (accept, b) n p =
      finish-Keeps bp b delete_afterwards (transfer_all cx bp.id nodes (n, false))
        (subst P (sym (store-transfer_all cx bp.id nodes (n, false))) p)

  forward_found-Keeps :
      (bp : BundlePack E) (nodes : List (ClaSenderTask E)) (delete_afterwards : Bool) (b : B)
      → Keeps cx stable (forward_found cx bp nodes delete_afterwards b)
  unfolding forward_found
  forward_found-Keeps bp nodes delete_afterwards b n p =
      bind-Keeps cx stable (handle_primary_lifetime cx b n) _ (handle_primary_lifetime-Keeps b n p)
        λ _ m q.
          bind-Keeps cx stable (handle_hop_count_block cx b m) _
            (handle_hop_count_block-Keeps b m q)
            λ counted k r.
              let aged = handle_previous_node_block cx counted in
              bind-Keeps cx stable (handle_bundle_age_block cx aged k) _
                (handle_bundle_age_block-Keeps aged k r)
                λ c. send_secured-Keeps bp nodes delete_afterwards (cx.enforce forward_step c)

  forward_to-Keeps :
      (bp : BundlePack E) (nodes : List (ClaSenderTask E)) (delete_afterwards : Bool)
      → Keeps cx stable (forward_to cx bp nodes delete_afterwards)
  unfolding forward_to
  forward_to-Keeps bp nodes delete_afterwards n p =
      elim (Option-cases (cx.st.get_bundle bp.id n.store)) [
        | inl e ↦ ground arith
        | inr (b, e) ↦ ground (arith, forward_found-Keeps bp nodes delete_afterwards b n p)
      ]

  forward_selected-Keeps :
      (bp : BundlePack E) (r : A × Senders E) → Keeps cx stable (forward_selected cx bp r)
  unfolding forward_selected
  forward_selected-Keeps bp (routing, (nodes, delete_afterwards)) n p = ground (
    arith,
    stable.remove bp.id n.store p,
    forward_to-Keeps bp nodes delete_afterwards (record n { routing = routing }) p,
  )

  forward_pending_pack-Keeps : (bp : BundlePack E) → Keeps cx stable (forward_pending_pack cx bp)
  unfolding forward_pending_pack
  forward_pending_pack-Keeps bp n p =
      forward_selected-Keeps bp (cx.agent.sender_for_bundle cx.clas bp (values n.peers) n.routing) n
        p

  forward_guarded-Keeps : (bp : BundlePack E) → Keeps cx stable (forward_guarded cx bp)
  unfolding forward_guarded
  forward_guarded-Keeps bp n p =
      let pending = remove_constraint dispatch_pending (add_constraint forward_pending bp) in
      bind-Keeps cx stable (on_store (sync cx.st pending) n) (λ _. forward_pending_pack cx pending)
        (sync-Keeps cx stable pending n.store p) (λ _. forward_pending_pack-Keeps pending)

  pub forward-Keeps : (bp : BundlePack E) → Keeps cx stable (forward cx bp)
  unfolding forward release
  forward-Keeps bp n p = ground (
    arith,
    forward_guarded-Keeps bp (record n { forwarding = HashSet.insert bp.id n.forwarding }) p,
  )
