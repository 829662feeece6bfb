-- ===== src/Store/Sled/Simulation.antt =====
-- The store of core/dtn7/src/core/store/sled.rs beside the one of core/dtn7/src/core/store/mem.rs,
-- over a database that works.
use dtn7_rs.Prelude.{
  ◌≡◌, refl, Bool, true, false, arith, string_eq, if◌then◌else◌, inl, inr, Bool-cases,
}
use dtn7_rs.Map
use dtn7_rs.Map.{lookup, contains_key}
use dtn7_rs.Outcome.{Result, ok, err, bundle_metadata_already_in_store, bundle_not_in_store}
use dtn7_rs.Bp7.{Bp7}
use dtn7_rs.BundlePack.{BundlePack, Clock, from_bundle}
use dtn7_rs.Store.Mem
use dtn7_rs.Store.Mem.{InMemoryBundleStore}
use dtn7_rs.Store.Sled.Agreement.{
  IsMap, IsCodec, Agree, put_metadata, put_metadata-Agree, put_bundle, put_bundle-Agree,
  insert_metadata_lem, insert_bundle_lem, contains_bundle, contains_metadata,
}
use dtn7_rs.Store.Sled.{Tree, Codec, SledBundleStore, push, update_metadata}

module _ {V E B T : Type 0} (bp7 : Bp7 E B) (tree : Tree V T) (codec : Codec V E B)
    (map : IsMap tree) (back : IsCodec codec) where
  -- What both stores do, for a call that returns.
  abbrev pub Together :
      Result (Unit {0}) × SledBundleStore T → Result (Unit {0}) × InMemoryBundleStore E B → Type 0
  Together (r, s) (r', m) = (r ≡ r') × Agree bp7 tree codec map back s m

  pub id-from_bundle : (c : Clock) (b : B) → (from_bundle bp7 c b).id ≡ bp7.bundle_id b
  unfolding from_bundle
  id-from_bundle c b = refl

  pub push_stored :
      (c : Clock) (b : B) (s : SledBundleStore T) (m : InMemoryBundleStore E B)
      → Agree bp7 tree codec map back s m
      → contains_key (bp7.bundle_id b) m.bundles ≡ true
      → push tree codec bp7 c b s ≡ (ok tt, put_bundle bp7 tree codec map back b s)
  unfolding push
  push_stored c b s m a old = ground (
    arith,
    contains_bundle bp7 tree codec map back s m (bp7.bundle_id b) a,
    insert_bundle_lem bp7 tree codec map back b s,
  )

  pub push_fresh :
      (c : Clock) (b : B) (s : SledBundleStore T) (m : InMemoryBundleStore E B)
      → Agree bp7 tree codec map back s m
      → contains_key (bp7.bundle_id b) m.bundles ≡ false
      → contains_key (bp7.bundle_id b) m.metadata ≡ false
      → push tree codec bp7 c b s ≡ (
        ok tt,
        put_bundle bp7 tree codec map back b
            (put_metadata bp7 tree codec map back (from_bundle bp7 c b) s),
      )
  unfolding push
  push_fresh c b s m a new lost = ground (
    arith,
    contains_bundle bp7 tree codec map back s m (bp7.bundle_id b) a,
    contains_metadata bp7 tree codec map back s m (bp7.bundle_id b) a,
    insert_metadata_lem bp7 tree codec map back (from_bundle bp7 c b) s,
    id-from_bundle c b,
    insert_bundle_lem bp7 tree codec map back b
        (put_metadata bp7 tree codec map back (from_bundle bp7 c b) s),
  )

  pub mem_push :
      (c : Clock) (b : B) (m : InMemoryBundleStore E B) (stored : Bool)
      → contains_key (bp7.bundle_id b) m.bundles ≡ stored
      → Mem.push bp7 c b m ≡ (
        ok tt,
        record {
          bundles = Map.insert (bp7.bundle_id b) b m.bundles;
          metadata =
              if stored
              then m.metadata
              else Map.insert (from_bundle bp7 c b).id (from_bundle bp7 c b) m.metadata;
        },
      )
  unfolding Mem.push from_bundle
  mem_push c b m stored e = rw e refl

  pub push-Together :
      (c : Clock) (b : B) (s : SledBundleStore T) (m : InMemoryBundleStore E B)
      → Agree bp7 tree codec map back s m
      → (contains_key (bp7.bundle_id b) m.bundles ≡ false
          → contains_key (bp7.bundle_id b) m.metadata ≡ false)
      → Together (push tree codec bp7 c b s) (Mem.push bp7 c b m)
  push-Together c b s m a fresh = elim (Bool-cases (contains_key (bp7.bundle_id b) m.bundles)) [
    | inl old ↦
        rw (push_stored c b s m a old, mem_push c b m true old)
          (refl, put_bundle-Agree bp7 tree codec map back b s m a)
    | inr new ↦
        rw (push_fresh c b s m a new (fresh new), mem_push c b m false new)
          (
            refl,
            put_bundle-Agree bp7 tree codec map back b
                (put_metadata bp7 tree codec map back (from_bundle bp7 c b) s)
                (record m {
                  metadata = Map.insert (from_bundle bp7 c b).id (from_bundle bp7 c b) m.metadata;
                })
                (put_metadata-Agree bp7 tree codec map back (from_bundle bp7 c b) s m a),
          )
  ]

  pub push_removed :
      (c : Clock) (b : B) (s : SledBundleStore T) (m : InMemoryBundleStore E B)
      → Agree bp7 tree codec map back s m
      → contains_key (bp7.bundle_id b) m.bundles ≡ false
      → contains_key (bp7.bundle_id b) m.metadata ≡ true
      → push tree codec bp7 c b s ≡ (err bundle_metadata_already_in_store, s)
  unfolding push from_bundle
  push_removed c b s m a gone kept = ground (
    arith,
    contains_bundle bp7 tree codec map back s m (bp7.bundle_id b) a,
    contains_metadata bp7 tree codec map back s m (bp7.bundle_id b) a,
  )

  pub update_held :
      (bp : BundlePack E) (s : SledBundleStore T) (m : InMemoryBundleStore E B)
      → Agree bp7 tree codec map back s m
      → contains_key bp.id m.metadata ≡ true
      → update_metadata tree codec bp s ≡ (ok tt, put_metadata bp7 tree codec map back bp s)
  unfolding update_metadata
  update_held bp s m a held = ground (
    arith,
    contains_metadata bp7 tree codec map back s m bp.id a,
    insert_metadata_lem bp7 tree codec map back bp s,
  )

  pub update_missing :
      (bp : BundlePack E) (s : SledBundleStore T) (m : InMemoryBundleStore E B)
      → Agree bp7 tree codec map back s m
      → contains_key bp.id m.metadata ≡ false
      → update_metadata tree codec bp s ≡ (err bundle_not_in_store, s)
  unfolding update_metadata
  update_missing bp s m a missing =
      ground (arith, contains_metadata bp7 tree codec map back s m bp.id a)

  pub mem_update_held :
      (bp : BundlePack E) (m : InMemoryBundleStore E B)
      → contains_key bp.id m.metadata ≡ true
      → Mem.update_metadata bp m ≡ (ok tt, record m { metadata = Map.insert bp.id bp m.metadata })
  unfolding Mem.update_metadata
  mem_update_held bp m h = rw h refl

  pub mem_update_missing :
      (bp : BundlePack E) (m : InMemoryBundleStore E B)
      → contains_key bp.id m.metadata ≡ false
      → Mem.update_metadata bp m ≡ (err bundle_not_in_store, m)
  unfolding Mem.update_metadata
  mem_update_missing bp m h = rw h refl

  pub update_metadata-Together :
      (bp : BundlePack E) (s : SledBundleStore T) (m : InMemoryBundleStore E B)
      → Agree bp7 tree codec map back s m
      → Together (update_metadata tree codec bp s) (Mem.update_metadata bp m)
  update_metadata-Together bp s m a = elim (Bool-cases (contains_key bp.id m.metadata)) [
    | inl held ↦
        rw (update_held bp s m a held, mem_update_held bp m held)
          (refl, put_metadata-Agree bp7 tree codec map back bp s m a)
    | inr missing ↦ rw (update_missing bp s m a missing, mem_update_missing bp m missing) (refl, a)
  ]
