-- ===== src/Processing/Receive/Blocks.antt =====
-- The loops of `receive` (core/dtn7/src/core/processing.rs) over the canonical blocks: marking by index,
-- then removing the marked blocks from the last one on.
use mathlib.Core.List.{reverse, reverse_aux, reverse-cons, append_assoc, append-nil}
use dtn7_rs.Prelude.{
  ℕ, suc, ◌+◌, ◌≡◌, ◌≢◌, refl, ap, ◌∙◌, Bool, not, ◌||◌, Option, none, some, List, [], ◌∷◌, ◌++◌,
  map, Eq, arith, filter, Bool-cases, inl, inr, if◌then◌else◌, nat_eq,
}
use dtn7_rs.Outcome.{Result, ok, err, proceed, pure}
use dtn7_rs.Bp7.{CanonicalBlock}
use dtn7_rs.BundlePack.{BundlePack}
use dtn7_rs.Extensions.{block_unintelligible}
use dtn7_rs.Node.{Node, Context}
use dtn7_rs.Processing.Reports.{delete}
use dtn7_rs.Processing.Receive.{
  is_known_block_type, remove_at, remove_each, scan_blocks, remove_marked, report_unintelligible,
}

-- A known block, or one that does not ask to be removed.
abbrev pub is_kept : Bool → CanonicalBlock → Bool
is_kept bpsec b = is_known_block_type bpsec b.block_type || not b.block_remove

-- The indices of the other blocks, the first block at `i`.
marks : Bool → ℕ → List CanonicalBlock → List ℕ
marks bpsec i [] = []
marks bpsec i (b ∷ bs) =
    let rest = marks bpsec (i + 1) bs in if is_kept bpsec b then rest else i ∷ rest

marks-suc :
    (bpsec : Bool) (i : ℕ) (bs : List CanonicalBlock)
    → marks bpsec (i + 1) bs ≡ map suc (marks bpsec i bs)
unfolding marks
marks-suc bpsec i [] = refl
marks-suc bpsec i (b ∷ bs) = elim (Bool-cases (is_kept bpsec b)) [
  | inr marked ↦
      rw (marked, marks-suc bpsec (i + 1) bs)
        (ap (λ j. j ∷ map suc (marks bpsec (i + 1) bs)) (omega arith))
  | inl kept ↦ rw (kept, marks-suc bpsec (i + 1) bs) refl
]

reverse_aux-suc :
    (is acc : List ℕ) → reverse_aux (map suc is) (map suc acc) ≡ map suc (reverse_aux is acc)
reverse_aux-suc [] acc = refl
reverse_aux-suc (i ∷ is) acc = reverse_aux-suc is (i ∷ acc)

remove_each-append :
    (is js : List ℕ) (bs : List CanonicalBlock)
    → remove_each (is ++ js) bs ≡ remove_each js (remove_each is bs)
unfolding remove_each
remove_each-append [] js bs = refl
remove_each-append (i ∷ is) js bs = remove_each-append is js (remove_at i bs)

remove_each-suc :
    (is : List ℕ) (b : CanonicalBlock) (bs : List CanonicalBlock)
    → remove_each (map suc is) (b ∷ bs) ≡ b ∷ remove_each is bs
unfolding remove_each remove_at
remove_each-suc [] b bs = refl
remove_each-suc (i ∷ is) b bs = remove_each-suc is b (remove_at i bs)

-- The marks behind the first block leave it in place.
remove_each-tail :
    (bpsec : Bool) (b : CanonicalBlock) (bs : List CanonicalBlock)
    → remove_each (reverse (marks bpsec 1 bs)) (b ∷ bs)
      ≡ b ∷ remove_each (reverse (marks bpsec 0 bs)) bs
remove_each-tail bpsec b bs =
    ap (λ is. remove_each (reverse is) (b ∷ bs)) (marks-suc bpsec 0 bs)
    ∙ ap (λ is. remove_each is (b ∷ bs)) (reverse_aux-suc (marks bpsec 0 bs) [])
    ∙ remove_each-suc (reverse (marks bpsec 0 bs)) b bs

remove_each-marks :
    (bpsec : Bool) (bs : List CanonicalBlock)
    → remove_each (reverse (marks bpsec 0 bs)) bs ≡ filter (is_kept bpsec) bs
unfolding marks remove_each remove_at
remove_each-marks bpsec [] = refl
remove_each-marks bpsec (b ∷ bs) = elim (Bool-cases (is_kept bpsec b)) [
  | inr marked ↦ rw marked (
      ap (λ is. remove_each is (b ∷ bs)) (reverse-cons 0 (marks bpsec 1 bs))
      ∙ remove_each-append (reverse (marks bpsec 1 bs)) (0 ∷ []) (b ∷ bs)
      ∙ ap (remove_each (0 ∷ [])) (remove_each-tail bpsec b bs)
      ∙ remove_each-marks bpsec bs)
  | inl kept ↦
      rw kept (remove_each-tail bpsec b bs ∙ ap (λ rest. b ∷ rest) (remove_each-marks bpsec bs))
]

-- A scan that deletes the bundle gives no indices.
no_marks :
    {N : Type 0} (r : Result (Unit {0}) × N) (found : List ℕ)
    → (proceed {B = Option (List ℕ)} r (λ _. pure none)).0 ≢ ok (some found)
no_marks (ok _, n) found e = absurd (cc)
no_marks (err x, n) found e = absurd (cc)

module _ {E B S A : Type 0} ⦃eq : Eq E⦄ (cx : Context E B S A) where
  -- A scan that ends without a deletion has found the blocks to remove.
  scan_blocks-marks :
      (bp : BundlePack E) (i : ℕ) (bs : List CanonicalBlock) (before found : List ℕ)
      (n : Node E B S A)
      → (scan_blocks cx bp i bs before n).0 ≡ ok (some found)
      → found ≡ before ++ marks cx.config.bpsec i bs
  unfolding scan_blocks marks
  scan_blocks-marks bp i [] before found n h = cc (append-nil before)
  scan_blocks-marks bp i (b ∷ bs) before found n h =
      let reported = report_unintelligible cx bp b n in
      ground (
        arith,
        scan_blocks-marks bp (i + 1) bs before found n,
        scan_blocks-marks bp (i + 1) bs before found reported,
        scan_blocks-marks bp (i + 1) bs (before ++ i ∷ []) found reported,
        append_assoc before (i ∷ []) (marks cx.config.bpsec (i + 1) bs),
        no_marks (delete cx bp block_unintelligible reported) found,
      )

  -- If no canonical block made `receive` delete the bundle, removing the marked blocks by index,
  -- the last one first, keeps exactly the blocks that are known or do not ask to be removed, in
  -- order.
  pub scanned_removed :
      (bp : BundlePack E) (b : B) (marked : List ℕ) (n : Node E B S A)
      → (scan_blocks cx bp 0 (cx.bp7.canonicals b) [] n).0 ≡ ok (some marked)
      → remove_marked cx marked b
        ≡ cx.bp7.with_canonicals (filter (is_kept cx.config.bpsec) (cx.bp7.canonicals b)) b
  unfolding remove_marked
  scanned_removed bp b marked n h =
      let bs = cx.bp7.canonicals b in
      ap (λ cs. cx.bp7.with_canonicals cs b)
        (ap (λ is. remove_each (reverse is) bs) (scan_blocks-marks bp 0 bs [] marked n h)
          ∙ remove_each-marks cx.config.bpsec bs)
