-- ===== src/Processing/Stable/Incoming.antt =====
-- `receive` and `send_bundle` of core/dtn7/src/core/processing.rs against predicates on the store.
use dtn7_rs.Prelude.{
  ℕ, ◌+◌, ◌≡◌, Bool, true, false, Option, none, some, List, [], ◌∷◌, ◌++◌, Eq, arith, inl, inr, ◌⊎◌,
  refl,
}
use dtn7_rs.Outcome.{Result, ok, err, after, after-bind, pure, Error}
use dtn7_rs.Bp7.{CanonicalBlock}
use dtn7_rs.BundlePack.{BundlePack, dispatch_pending, from_bundle, add_constraint}
use dtn7_rs.GlobalStore.{sync, store_add_bundle_if_unknown}
use dtn7_rs.Extensions.{received_bundle, no_information, block_unintelligible}
use dtn7_rs.Node.{Node, Context, Verdict, accept, drop, transmit_step, receive_step, on_store}
use dtn7_rs.Processing.Reports.{report_if, delete}
use dtn7_rs.Processing.Delivery.{transmit}
use dtn7_rs.Processing.Receive.{
  validate_bundle, report_unintelligible, scan_blocks, remove_marked, dispatch_logged,
  accept_secured, receive_scanned, receive_synced, receive_new, receive_added, receive,
  send_secured, send_bundle,
}
use dtn7_rs.Processing.Stable.{
  IsStable, Keeps, sync-Keeps, bind-Keeps, report_if-Keeps, delete-Keeps, send_status_report-Keeps,
}
use dtn7_rs.Processing.Stable.Local.{dispatch-Keeps, transmit-Keeps}

pub Result-cases : (r : Result (Unit {0})) → (r ≡ ok tt) ⊎ ((e : Error) × (r ≡ err e))
Result-cases (ok tt) = inl refl
Result-cases (err e) = inr (e, refl)

module _ {E B S A : Type 0} ⦃eq : Eq E⦄ (cx : Context E B S A) {P : S → Type 0}
    (stable : IsStable cx.st P) where
  report_unintelligible-Keeps :
      (bp : BundlePack E) (b : CanonicalBlock) (n : Node E B S A)
      → P n.store
      → P (report_unintelligible cx bp b n).store
  unfolding report_unintelligible
  report_unintelligible-Keeps bp b n p =
      ground (arith, send_status_report-Keeps cx stable bp received_bundle block_unintelligible n p)

  scan_blocks-Keeps :
      (bp : BundlePack E) (i : ℕ) (bs : List CanonicalBlock) (marked : List ℕ)
      → Keeps cx stable (scan_blocks cx bp i bs marked)
  unfolding scan_blocks
  scan_blocks-Keeps bp i [] marked n p = p
  scan_blocks-Keeps bp i (b ∷ bs) marked n p =
      let reported = report_unintelligible cx bp b n in
      let q : P reported.store = report_unintelligible-Keeps bp b n p in
      ground (
        arith,
        scan_blocks-Keeps bp (i + 1) bs marked n p,
        scan_blocks-Keeps bp (i + 1) bs marked reported q,
        scan_blocks-Keeps bp (i + 1) bs (marked ++ i ∷ []) reported q,
        bind-Keeps cx stable {U = Option (List ℕ)} (delete cx bp block_unintelligible reported)
            (λ _. pure none) (delete-Keeps cx stable bp block_unintelligible reported q)
            (λ _ m h. h),
      )

  dispatch_logged-Keeps : (bp : BundlePack E) → Keeps cx stable (dispatch_logged cx bp)
  unfolding dispatch_logged
  dispatch_logged-Keeps bp n p = dispatch-Keeps cx stable bp n p

  accept_secured-Keeps :
      (bp : BundlePack E) (v : Verdict × B) → Keeps cx stable (accept_secured cx bp v)
  unfolding accept_secured
  accept_secured-Keeps bp (drop reason, b) n p = delete-Keeps cx stable bp reason n p
  accept_secured-Keeps bp (accept, b) n p =
      bind-Keeps cx stable (on_store (cx.st.push cx.clock b) n) (λ _. dispatch_logged cx bp)
        (stable.push cx.clock b n.store p) (λ _. dispatch_logged-Keeps bp)

  receive_scanned-Keeps :
      (bp : BundlePack E) (b : B) (scanned : Option (List ℕ))
      → Keeps cx stable (receive_scanned cx bp b scanned)
  unfolding receive_scanned
  receive_scanned-Keeps bp b none n p = p
  receive_scanned-Keeps bp b (some marked) n p =
      accept_secured-Keeps bp (cx.enforce receive_step (remove_marked cx marked b)) n p

  receive_synced-Keeps : (bp : BundlePack E) (b : B) → Keeps cx stable (receive_synced cx bp b)
  unfolding receive_synced
  receive_synced-Keeps bp b n p =
      let reported =
        report_if cx (cx.bp7.status_request_reception b) b bp received_bundle no_information n in
      bind-Keeps cx stable (scan_blocks cx bp 0 (cx.bp7.canonicals b) [] reported)
        (receive_scanned cx bp b)
        (scan_blocks-Keeps bp 0 (cx.bp7.canonicals b) [] reported (
          report_if-Keeps cx stable (cx.bp7.status_request_reception b) b bp received_bundle
            no_information n p))
        (receive_scanned-Keeps bp b)

  receive_new-Keeps : (b : B) → Keeps cx stable (receive_new cx b)
  unfolding receive_new
  receive_new-Keeps b n p =
      let bp = add_constraint dispatch_pending (from_bundle cx.bp7 cx.clock b) in
      bind-Keeps cx stable (on_store (sync cx.st bp) n) (λ _. receive_synced cx bp b)
        (sync-Keeps cx stable bp n.store p) (λ _. receive_synced-Keeps bp b)

  pub receive_added-Keeps : (b : B) (new : Bool) → Keeps cx stable (receive_added cx b new)
  unfolding receive_added
  receive_added-Keeps b true n p = receive_new-Keeps b _ p
  receive_added-Keeps b false n p = p

  add-Keeps :
      (b : B) (s : S) → P s → P (after (store_add_bundle_if_unknown cx.bp7 cx.st cx.clock b) s)
  unfolding store_add_bundle_if_unknown
  add-Keeps b s p = ground (
    arith,
    after-bind P (cx.st.push cx.clock b) (λ _. pure true) s (stable.push cx.clock b s p)
        (λ _ t h. h),
  )

  pub receive-Keeps : (b : B) → Keeps cx stable (receive cx b)
  unfolding receive
  receive-Keeps b n p = elim (Result-cases (validate_bundle cx b)) [
    | inl valid ↦ ground (
      arith,
      bind-Keeps cx stable (on_store (store_add_bundle_if_unknown cx.bp7 cx.st cx.clock b) n)
          (receive_added cx b) (add-Keeps b n.store p) (receive_added-Keeps b),
    )
    | inr (e, invalid) ↦ ground arith
  ]

  send_secured-Keeps :
      (v : Verdict × B) (n : Node E B S A) → P n.store → P (send_secured cx v n).store
  unfolding send_secured
  send_secured-Keeps (drop reason, b) n p = p
  send_secured-Keeps (accept, b) n p =
      bind-Keeps cx stable (on_store (cx.st.push cx.clock b) n)
        (λ _. transmit cx (from_bundle cx.bp7 cx.clock b)) (stable.push cx.clock b n.store p)
        (λ _. transmit-Keeps cx stable (from_bundle cx.bp7 cx.clock b))

  pub send_bundle-Keeps : (b : B) (n : Node E B S A) → P n.store → P (send_bundle cx b n).store
  unfolding send_bundle
  send_bundle-Keeps b n p = elim (Result-cases (validate_bundle cx b)) [
    | inl valid ↦ ground (arith, send_secured-Keeps (cx.enforce transmit_step b) n p)
    | inr (e, invalid) ↦ ground arith
  ]
