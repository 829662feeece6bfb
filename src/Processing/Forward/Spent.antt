-- ===== src/Processing/Forward/Spent.antt =====
-- Bundles that `forward` in core/dtn7/src/core/processing.rs gives up before a transfer.
use dtn7_rs.Prelude.{◌≡◌, ◌⊎◌, true, false, Eq, string_eq}
use dtn7_rs.Outcome.{Error, lifetime_exceeded, hop_count_exceeded}
use dtn7_rs.BundlePack.{BundlePack}
use dtn7_rs.Store.Spec.{Laws}
use dtn7_rs.Node.{Node, Context, bump, with_stats}

module _ {E B S A : Type 0} ⦃eq : Eq E⦄ (cx : Context E B S A) where
  -- Why a bundle is given up: its lifetime is over, or this hop was one too many.
  abbrev pub IsSpent : B → Error → Type 0
  IsSpent b e =
      ((cx.ext.is_lifetime_exceeded cx.clock b ≡ true) × (e ≡ lifetime_exceeded))
      ⊎ ((cx.ext.is_lifetime_exceeded cx.clock b ≡ false)
          × (cx.ext.has_hop_count b ≡ true)
          × ((cx.ext.hop_count_increase b).0 ≡ true)
          × (cx.ext.hop_count_exceeded (cx.ext.hop_count_increase b).1 ≡ true)
          × (cx.bp7.bundle_id (cx.ext.hop_count_increase b).1 ≡ cx.bp7.bundle_id b)
          × (e ≡ hop_count_exceeded))

  module _ {Inv : S → Type 0} (laws : Laws cx.bp7 cx.st Inv) where
    abbrev pub counted : Node E B S A → Node E B S A
    counted n =
        with_stats (λ t. record t { discarded_bundle_count = bump t.discarded_bundle_count }) n
