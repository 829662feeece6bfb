-- ===== src/Processing/Reports/Inspection.antt =====
-- `inspect_status_report` of core/dtn7/src/core/processing.rs.
use dtn7_rs.Prelude.{
  ℕ, List, [], ◌∷◌, length, ◌+◌, ◌<◌, ◌≤◌, String, ◌≡◌, refl, ◌&&◌, Eq, ◌==◌, nat_eq, arith,
  if◌then◌else◌,
}
use dtn7_rs.Outcome.{after}
use dtn7_rs.Extensions.{BundleStatusItem, bundle_status_report}
use dtn7_rs.Node.{Node, Context}
use dtn7_rs.Processing.Reports.{inspect_positions, inspect_status_report}

module _ {E B S A : Type 0} ⦃eq : Eq E⦄ (cx : Context E B S A) (refbundle : String) where
  -- Past the position of `DELIVERED_BUNDLE` nothing happens.
  inspect_positions-past :
      (sips : List BundleStatusItem) (i : ℕ) (n : Node E B S A)
      → cx.ext.delivered_bundle_pos < i
      → inspect_positions cx refbundle sips i n ≡ n
  unfolding inspect_positions
  inspect_positions-past [] i n h = refl
  inspect_positions-past (sip ∷ sips) i n h = ground (arith, inspect_positions-past sips (i + 1) n)

  inspect_positions-hit :
      (sips : List BundleStatusItem) (i : ℕ) (n : Node E B S A)
      → i ≤ cx.ext.delivered_bundle_pos
      → cx.ext.delivered_bundle_pos < i + length sips
      → inspect_positions cx refbundle sips i n
        ≡ record n { store = after (cx.st.remove refbundle) n.store }
  unfolding inspect_positions
  inspect_positions-hit [] i n low high = ground arith
  inspect_positions-hit (sip ∷ sips) i n low high = ground (
    arith,
    inspect_positions-hit sips (i + 1) n,
    inspect_positions-past sips (i + 1)
        (record n { store = after (cx.st.remove refbundle) n.store }),
  )

  -- A status report on a bundle that the store holds removes that bundle exactly if it has as
  -- many status items as there are positions, whatever the items assert and say; any other report
  -- changes nothing. The position of a delivery is taken to be one of the positions.
  pub inspect_status_report_lem :
      (sips : List BundleStatusItem) (n : Node E B S A)
      → cx.ext.delivered_bundle_pos < cx.ext.max_status_information_pos
      → inspect_status_report cx (bundle_status_report sips refbundle) n ≡ (
          if cx.st.has_item refbundle n.store && (length sips == cx.ext.max_status_information_pos)
          then record n { store = after (cx.st.remove refbundle) n.store }
          else n)
  unfolding inspect_status_report
  inspect_status_report_lem [] n h = ground arith
  inspect_status_report_lem (sip ∷ sips) n h =
      ground (arith, inspect_positions-hit (sip ∷ sips) 0 n)
