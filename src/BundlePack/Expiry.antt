-- ===== src/BundlePack/Expiry.antt =====
-- When a bundle has expired: `has_expired` of core/dtn7/src/core/bundlepack.rs.
use dtn7_rs.Prelude.{◌+◌, ◌≤◌, ◌<◌, ◌≡◌, ◌≢◌, ◌↔◌, ◌⊎◌, true, arith}
use dtn7_rs.BundlePack.{BundlePack, Clock, u64_mod, has_expired}

-- The end of a bundle's life as the protocol has it: relative to its creation if the source had a
-- clock, and otherwise to its reception here. A lifetime of zero never ends.
abbrev pub Expired : {E : Type 0} → Clock → BundlePack E → Type 0
Expired clock bp =
    (bp.lifetime ≢ 0)
    × (((bp.creation_time ≢ 0) × (bp.creation_time + bp.lifetime < clock.dtntime))
        ⊎ ((bp.creation_time ≡ 0) × (bp.received_time + bp.lifetime < clock.unix_millis)))

module _ {E : Type 0} (clock : Clock) (bp : BundlePack E) where
  -- `has_expired` holds exactly if the bundle's end of life has passed, provided that the time of
  -- the clock and the end of life fit a u64.
  pub has_expired_iff :
      clock.unix_millis < u64_mod
      → bp.creation_time + bp.lifetime < u64_mod
      → (has_expired clock bp ≡ true) ↔ Expired clock bp
  unfolding has_expired
  has_expired_iff fits sum = ground arith

  -- If the creation time is not zero, and it and the lifetime each fit a u64 but their sum does
  -- not, the bundle counts as expired at every time from its creation on.
  pub has_expired_wraps :
      bp.creation_time ≢ 0
      → bp.creation_time < u64_mod
      → bp.lifetime < u64_mod
      → u64_mod ≤ bp.creation_time + bp.lifetime
      → bp.creation_time ≤ clock.dtntime
      → has_expired clock bp ≡ true
  unfolding has_expired
  has_expired_wraps c cm lm over old = ground arith
