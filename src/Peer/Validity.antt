-- ===== src/Peer/Validity.antt =====
-- How long a peer stays valid, and what an update may change (core/dtn7/src/core/peer.rs).
use dtn7_rs.Prelude.{
  ℕ, ◌+◌, ◌*◌, ◌<◌, ◌≡◌, ◌↔◌, ◌⊎◌, refl, true, false, Option, none, some, arith, if◌then◌else◌,
}
use dtn7_rs.BundlePack.{Clock, u64_mod}
use dtn7_rs.Peer.{DtnPeer, PeerConfig, static, is_static, max_silence, still_valid, update}

-- The silence that a peer is granted, in seconds.
abbrev pub Grants : PeerConfig → Option ℕ → ℕ → Type 0
Grants config none limit = limit ≡ config.peer_timeout
Grants config (some period) limit =
    ((config.custom_timeout ≡ true) × (0 < config.peer_timeout) × (limit ≡ config.peer_timeout))
    ⊎ (((config.custom_timeout ≡ false) ⊎ (config.peer_timeout ≡ 0)) × (limit ≡ period * 2))

module _ {E : Type 0} (config : PeerConfig) (clock : Clock) (p : DtnPeer E) where
  -- A static peer is always valid; a dynamic peer is valid exactly while its silence is below its
  -- limit, the custom timeout if one is set, else twice its beacon period, else the default,
  -- provided that the limit fits a u64; a last contact in the future counts as no silence.
  pub still_valid_iff :
      (limit : ℕ)
      → Grants config p.period limit
      → limit < u64_mod
      → (still_valid config clock p ≡ true)
        ↔ ((p.con_type ≡ static) ⊎ ((0 < limit) × (clock.unix_secs < p.last_contact + limit)))
  unfolding still_valid max_silence
  still_valid_iff limit g fits = ground arith

module _ {E : Type 0} (p peer : DtnPeer E) where
  -- An update keeps the known peer's endpoint ID and its count of failures, takes the newer type
  -- unless the known peer is static, and changes nothing when it is repeated.
  pub update_keeps :
      ((update p peer).eid ≡ p.eid)
      × ((update p peer).fails ≡ p.fails)
      × ((update p peer).con_type ≡ (if is_static p.con_type then static else peer.con_type))
      × (update (update p peer) peer ≡ update p peer)
  unfolding update
  update_keeps = (refl, refl, ground arith, ground arith)
