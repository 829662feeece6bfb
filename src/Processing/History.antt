-- ===== src/Processing/History.antt =====
-- Histories of a node: the entry points of core/dtn7/src/core/processing.rs and the janitor of
-- core/dtn7/src/dtnd/janitor.rs, run one after the other.
use dtn7_rs.Prelude.{String, ◌≡◌, refl, Bool, true, List, [], ◌∷◌, Eq, arith, string_eq}
use dtn7_rs.Outcome.{ok, after}
use dtn7_rs.BundlePack.{BundlePack, Clock}
use dtn7_rs.Peer.{ClaSenderTask}
use dtn7_rs.Store.Spec.{Laws}
use dtn7_rs.GlobalStore.{
  store_add_bundle_if_unknown, store_delete_expired, delete_each_expired, delete_if_expired,
}
use dtn7_rs.GlobalStore.Known.{updates, removes, step, add_known, step_known, add-Inv, add-known}
use dtn7_rs.Node.{Node, Context, bump, with_stats, on_store}
use dtn7_rs.Processing.Delivery.{local_delivery, dispatch, transmit}
use dtn7_rs.Processing.Receive.{validate_bundle, receive, receive_added, send_bundle}
use dtn7_rs.Processing.Forward.{forward}
use dtn7_rs.Processing.Janitor.{
  forwarding_bundles, forward_each, process_bundles, drop_peers, janitor,
}
use dtn7_rs.Processing.Stable.{IsStable, bind-Keeps}
use dtn7_rs.Processing.Stable.Local.{local_delivery-Keeps, dispatch-Keeps, transmit-Keeps}
use dtn7_rs.Processing.Stable.Incoming.{receive_added-Keeps, receive-Keeps, send_bundle-Keeps}
use dtn7_rs.Processing.Stable.Outgoing.{forward-Keeps}

pub data Cmd (E B : Type 0) : Type 0 where
  receives sends : B → Cmd E B
  transmits dispatches delivers forwards : BundlePack E → Cmd E B
  runs_janitor : Cmd E B

-- What changes between two steps: the clock and which transfers succeed.
pub record Event (E B : Type 0) : Type 0 where
  pub clock : Clock
  pub transfer : ClaSenderTask E → Bool
  pub cmd : Cmd E B

module _ {E B S A : Type 0} ⦃eq : Eq E⦄ where
  pub step_cmd : Context E B S A → Cmd E B → Node E B S A → Node E B S A
  step_cmd cx (receives b) n = after (receive cx b) n
  step_cmd cx (sends b) n = send_bundle cx b n
  step_cmd cx (transmits bp) n = after (transmit cx bp) n
  step_cmd cx (dispatches bp) n = after (dispatch cx bp) n
  step_cmd cx (delivers bp) n = after (local_delivery cx bp) n
  step_cmd cx (forwards bp) n = after (forward cx bp) n
  step_cmd cx runs_janitor n = janitor cx n

  abbrev pub at_event : Context E B S A → Event E B → Context E B S A
  at_event cx ev = record cx { clock = ev.clock; transfer = ev.transfer }

  pub run : Context E B S A → List (Event E B) → Node E B S A → Node E B S A
  run cx [] n = n
  run cx (ev ∷ evs) n = run cx evs (step_cmd (at_event cx ev) ev.cmd n)

module _ {E B S A : Type 0} ⦃eq : Eq E⦄ (cx : Context E B S A) {P : S → Type 0}
    (stable : IsStable cx.st P) where
  delete_each_expired-Keeps :
      (c : Clock) (bps : List (BundlePack E)) (s : S) → P s → P (delete_each_expired cx.st c bps s)
  unfolding delete_each_expired delete_if_expired
  delete_each_expired-Keeps c [] s p = p
  delete_each_expired-Keeps c (bp ∷ bps) s p =
      delete_each_expired-Keeps c bps _ (ground (arith, stable.remove bp.id s p))

  forward_each-Keeps :
      (bps : List (BundlePack E)) (n : Node E B S A) → P n.store → P (forward_each cx bps n).store
  unfolding forward_each
  forward_each-Keeps [] n p = p
  forward_each-Keeps (bp ∷ bps) n p =
      forward_each-Keeps bps (after (forward cx bp) n) (forward-Keeps cx stable bp n p)

  janitor-Keeps : (n : Node E B S A) → P n.store → P (janitor cx n).store
  unfolding janitor process_bundles drop_peers store_delete_expired
  janitor-Keeps n p =
      let cleaned = record (drop_peers cx n) {
        store = store_delete_expired cx.st cx.clock n.store;
      } in
      let kept : P cleaned.store = delete_each_expired-Keeps cx.clock _ n.store p in
      ground (arith, forward_each-Keeps (forwarding_bundles cx.st cleaned.store) cleaned kept)

  step_cmd-Keeps : (cmd : Cmd E B) (n : Node E B S A) → P n.store → P (step_cmd cx cmd n).store
  unfolding step_cmd
  step_cmd-Keeps (receives b) n p = receive-Keeps cx stable b n p
  step_cmd-Keeps (sends b) n p = send_bundle-Keeps cx stable b n p
  step_cmd-Keeps (transmits bp) n p = transmit-Keeps cx stable bp n p
  step_cmd-Keeps (dispatches bp) n p = dispatch-Keeps cx stable bp n p
  step_cmd-Keeps (delivers bp) n p = local_delivery-Keeps cx stable bp n p
  step_cmd-Keeps (forwards bp) n p = forward-Keeps cx stable bp n p
  step_cmd-Keeps runs_janitor n p = janitor-Keeps n p

module _ {E B S A : Type 0} ⦃eq : Eq E⦄ (cx : Context E B S A) {P : S → Type 0} where
  -- What the operations of a store keep, every history of the node keeps.
  pub run-Keeps :
      IsStable cx.st P
      → (evs : List (Event E B)) (n : Node E B S A) → P n.store
      → P (run cx evs n).store
  unfolding run
  run-Keeps stable [] n p = p
  run-Keeps stable (ev ∷ evs) n p =
      run-Keeps stable evs (step_cmd (at_event cx ev) ev.cmd n)
        (step_cmd-Keeps (at_event cx ev) stable ev.cmd n p)

module _ {E B S A : Type 0} ⦃eq : Eq E⦄ (cx : Context E B S A) {Inv : S → Type 0}
    (laws : Laws cx.bp7 cx.st Inv) where
  -- A well-formed store that knows the bundle `k`.
  Knows : String → S → Type 0
  Knows k s = Inv s × (cx.st.is_known k s ≡ true)

  Knows-IsStable : (k : String) → IsStable cx.st (Knows k)
  unfolding Knows
  Knows-IsStable k = record {
    push = λ c b s (v, h). (laws.push_keeps c b s v, laws.push_known c b s k v h);
    update_metadata = λ bp s (v, h). (
      laws.update_keeps bp s v,
      unfold step in step_known cx.bp7 cx.st laws (updates bp) s k v h,
    );
    remove = λ j s (v, h).
        (laws.remove_keeps j s v, unfold step in step_known cx.bp7 cx.st laws (removes j) s k v h);
  }

  received-Knows :
      (b : B) (n : Node E B S A)
      → Inv n.store
      → validate_bundle cx b ≡ ok tt
      → Knows (cx.bp7.bundle_id b) (after (receive cx b) n).store
  unfolding receive
  received-Knows b n v valid =
      let k = cx.bp7.bundle_id b in
      ground (
        arith,
        bind-Keeps cx (Knows-IsStable k)
            (on_store (store_add_bundle_if_unknown cx.bp7 cx.st cx.clock b) n) (receive_added cx b)
            (unfold Knows in
              (
                add-Inv cx.bp7 cx.st laws cx.clock b n.store v,
                add-known cx.bp7 cx.st laws cx.clock b n.store v,
              ))
            (receive_added-Keeps cx (Knows-IsStable k) b),
      )

  receive_known :
      (b : B) (n : Node E B S A)
      → validate_bundle cx b ≡ ok tt
      → cx.st.is_known (cx.bp7.bundle_id b) n.store ≡ true
      → receive cx b n ≡ (ok tt, with_stats (λ t. record t { dups = bump t.dups }) n)
  unfolding receive receive_added
  receive_known b n valid known =
      rw (valid, receive) (rw (add_known cx.bp7 cx.st laws cx.clock b n.store known) refl)

  -- After a valid bundle was received, and after any calls of the entry points of processing and
  -- of the janitor since, whatever the clock and the outcomes of the transfers, receiving a valid
  -- bundle with the same ID succeeds, counts a duplicate, and changes nothing else. It holds for
  -- every store that keeps the contract, from a well-formed state.
  pub received_once :
      (b b' : B) (evs : List (Event E B)) (n : Node E B S A)
      → Inv n.store
      → validate_bundle cx b ≡ ok tt
      → validate_bundle cx b' ≡ ok tt
      → cx.bp7.bundle_id b' ≡ cx.bp7.bundle_id b
      → let m = run cx evs (after (receive cx b) n) in
        receive cx b' m ≡ (ok tt, with_stats (λ t. record t { dups = bump t.dups }) m)
  received_once b b' evs n v valid valid' same =
      let k = cx.bp7.bundle_id b in
      let u = after (receive cx b) n in
      let m = run cx evs u in
      let knows : Knows k m.store =
        run-Keeps cx (Knows-IsStable k) evs u (received-Knows b n v valid) in
      receive_known b' m valid' (rw same (unfold Knows in knows.1))
