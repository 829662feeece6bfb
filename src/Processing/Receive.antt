-- ===== src/Processing/Receive.antt =====
-- `send_bundle`, `validate_bundle` and `receive` of core/dtn7/src/core/processing.rs.
pub mod Blocks
pub mod Transit
pub mod Validation
use text.Mathlib.Text.{starts_with}
use dtn7_rs.Prelude.{
  ℕ, zero, suc, ◌+◌, String, Bool, true, false, not, ◌&&◌, ◌||◌, Option, none, some, List, [], ◌∷◌,
  ◌++◌, Eq, ◌==◌, nat_eq, is_empty, filter, if◌then◌else◌,
}
use mathlib.Core.List.{reverse}
use dtn7_rs.Outcome.{
  Action, Result, ok, err, bail, pure, after, ◌>>=◌, ◌>>◌, no_valid_destination, invalid_bundle,
  missing_primary_crc,
}
use dtn7_rs.Bp7.{ValidationError, bundle_error, other_error, CanonicalBlock}
use dtn7_rs.BundlePack.{BundlePack, dispatch_pending, from_bundle, add_constraint}
use dtn7_rs.GlobalStore.{sync, store_add_bundle_if_unknown}
use dtn7_rs.Extensions.{received_bundle, no_information, block_unintelligible}
use dtn7_rs.Node.{
  Node, Context, Verdict, accept, drop, transmit_step, receive_step, bump, with_stats, on_store,
}
use dtn7_rs.Processing.Reports.{report_if, send_status_report, delete}
use dtn7_rs.Processing.Delivery.{dispatch, transmit}

unfoldable pub is_missing_primary_crc : ValidationError → Bool
is_missing_primary_crc (bundle_error msg) = starts_with msg "Primary Block has no CRC"
is_missing_primary_crc (other_error msg) = false

-- The block types of RFC 9171 (payload, previous node, bundle age, hop count) and, with BPSec, of
-- RFC 9172 (integrity, confidentiality).
unfoldable pub is_known_block_type : Bool → ℕ → Bool
is_known_block_type bpsec t =
    t == 1 || t == 6 || t == 7 || t == 10 || (bpsec && (t == 11 || t == 12))

-- `Vec::remove(i)` on the blocks
unfoldable pub remove_at : ℕ → List CanonicalBlock → List CanonicalBlock
remove_at i [] = []
remove_at zero (b ∷ bs) = bs
remove_at (suc i) (b ∷ bs) = b ∷ remove_at i bs

-- the loop that removes the marked blocks
unfoldable pub remove_each : List ℕ → List CanonicalBlock → List CanonicalBlock
remove_each [] bs = bs
remove_each (i ∷ is) bs = remove_each is (remove_at i bs)

module _ {E B S A : Type 0} ⦃eq : Eq E⦄ (cx : Context E B S A) where
  unfoldable pub validate_bundle : B → Result (Unit {0})
  validate_bundle b = elim (cx.bp7.node (cx.bp7.destination b)) [
    | none ↦ err (no_valid_destination (cx.bp7.bundle_id b))
    | some _ ↦
        let errors = cx.bp7.validate b in
        if not (is_empty (filter (λ e. not (is_missing_primary_crc e)) errors))
        then err (invalid_bundle (cx.bp7.bundle_id b))
        else if not (is_empty (filter is_missing_primary_crc errors)) && cx.config.strict_validation
        then err (missing_primary_crc (cx.bp7.bundle_id b))
        else ok tt
  ]

  -- the report that an unknown block may ask for
  unfoldable pub report_unintelligible : BundlePack E → CanonicalBlock → Node E B S A → Node E B S A
  report_unintelligible bp b n =
      if b.block_status_report && cx.config.generate_status_reports
      then send_status_report cx bp received_bundle block_unintelligible n
      else n

  -- What the loop over the canonical blocks of `receive` ends with: the bundle is deleted, or the
  -- indices of the blocks to remove, in order.
  unfoldable pub scan_blocks :
      BundlePack E → ℕ → List CanonicalBlock → List ℕ → Action (Node E B S A) (Option (List ℕ))
  scan_blocks bp i [] marked n = (ok (some marked), n)
  scan_blocks bp i (b ∷ bs) marked n =
      let skip = scan_blocks bp (i + 1) bs marked in
      let mark = scan_blocks bp (i + 1) bs (marked ++ i ∷ []) in
      if is_known_block_type cx.config.bpsec b.block_type
      then skip n
      else if b.block_delete_bundle
      then (do delete cx bp block_unintelligible; pure none) (report_unintelligible bp b n)
      else if b.block_remove
      then mark (report_unintelligible bp b n)
      else skip (report_unintelligible bp b n)

  unfoldable pub remove_marked : List ℕ → B → B
  remove_marked marked b =
      cx.bp7.with_canonicals (remove_each (reverse marked) (cx.bp7.canonicals b)) b

  -- a failed dispatch is logged and dropped
  unfoldable pub dispatch_logged : BundlePack E → Action (Node E B S A) (Unit {0})
  dispatch_logged bp n = (ok tt, after (dispatch cx bp) n)

  -- `receive` and its verdict from the policy check
  unfoldable pub accept_secured : BundlePack E → Verdict × B → Action (Node E B S A) (Unit {0})
  accept_secured bp (drop reason, secured) = delete cx bp reason
  accept_secured bp (accept, secured) = do
    on_store (cx.st.push cx.clock secured)
    dispatch_logged bp

  -- `receive` once the blocks are scanned
  unfoldable pub receive_scanned :
      BundlePack E → B → Option (List ℕ) → Action (Node E B S A) (Unit {0})
  receive_scanned bp b none = pure tt
  receive_scanned bp b (some marked) =
      accept_secured bp (cx.enforce receive_step (remove_marked marked b))

  -- `receive` once the pack is synced
  unfoldable pub receive_synced : BundlePack E → B → Action (Node E B S A) (Unit {0})
  receive_synced bp b n =
      (do scanned ← scan_blocks bp 0 (cx.bp7.canonicals b) []; receive_scanned bp b scanned)
        (report_if cx (cx.bp7.status_request_reception b) b bp received_bundle no_information n)

  -- `receive` for a bundle that was added to the store
  unfoldable pub receive_new : B → Action (Node E B S A) (Unit {0})
  receive_new b = do
    let bp = add_constraint dispatch_pending (from_bundle cx.bp7 cx.clock b)
    on_store (sync cx.st bp)
    receive_synced bp b

  -- `receive` with whether the bundle was added
  unfoldable pub receive_added : B → Bool → Action (Node E B S A) (Unit {0})
  receive_added b true n =
      receive_new b (with_stats (λ t. record t { incoming = bump t.incoming }) n)
  receive_added b false n = (ok tt, with_stats (λ t. record t { dups = bump t.dups }) n)

  unfoldable pub receive : B → Action (Node E B S A) (Unit {0})
  receive b n = elim (validate_bundle b) [
    | err e ↦ (err e, with_stats (λ t. record t { broken = bump t.broken }) n)
    | ok _ ↦
        (do
          new ← on_store (store_add_bundle_if_unknown cx.bp7 cx.st cx.clock b)
          receive_added b new)
          n
  ]

  -- `send_bundle` for a valid bundle, with its verdict from the policy check; a failure of `transmit`
  -- is logged and dropped
  unfoldable pub send_secured : Verdict × B → Node E B S A → Node E B S A
  send_secured (drop reason, secured) n = n
  send_secured (accept, secured) n =
      after
        (do
          on_store (cx.st.push cx.clock secured)
          transmit cx (from_bundle cx.bp7 cx.clock secured))
        n

  -- an invalid bundle is logged and dropped
  unfoldable pub send_bundle : B → Node E B S A → Node E B S A
  send_bundle b n = elim (validate_bundle b) [
    | err e ↦ n
    | ok _ ↦ send_secured (cx.enforce transmit_step b) n
  ]
