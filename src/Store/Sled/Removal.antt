-- ===== src/Store/Sled/Removal.antt =====
-- The store of core/dtn7/src/core/store/sled.rs beside the one of core/dtn7/src/core/store/mem.rs,
-- over a database that works.
use dtn7_rs.Prelude.{String, ◌≡◌, ◌↔◌, refl, true, false, none, some, arith, string_eq}
use dtn7_rs.Map
use dtn7_rs.Map.{lookup, contains_key}
use dtn7_rs.Map.Laws.{lookup-remove}
use dtn7_rs.Outcome.{ok, err, bundle_metadata_already_in_store}
use dtn7_rs.Bp7.{Bp7}
use dtn7_rs.BundlePack.{BundlePack, Clock, deleted, add_constraint, clear_constraints}
use dtn7_rs.BundlePack.Constraints.{id-clear_constraints}
use dtn7_rs.Store.Mem
use dtn7_rs.Store.Mem.{InMemoryBundleStore}
use dtn7_rs.Store.Sled.Agreement.{
  IsMap, IsCodec, Agree, get_bundle_lem, get_metadata_lem, put_metadata, put_metadata-Agree,
}
use dtn7_rs.Store.Sled.Simulation.{
  Together, push-Together, push_removed, update_held, mem_update_held, update_metadata-Together,
}
use dtn7_rs.Store.Sled.{
  Tree, Codec, SledBundleStore, returned, panicked, get_bundle, get_metadata, push, update_metadata,
  remove,
}

module _ {V E B T : Type 0} (bp7 : Bp7 E B) (tree : Tree V T) (codec : Codec V E B)
    (map : IsMap tree) (back : IsCodec codec) where
  drop_bundle : String → SledBundleStore T → SledBundleStore T
  drop_bundle k s = record s { bundles = map.drop k s.bundles }

  drop_bundle-Agree :
      (k : String) (s : SledBundleStore T) (m : InMemoryBundleStore E B)
      → Agree bp7 tree codec map back s m
      → Agree bp7 tree codec map back
          (drop_bundle k s)
          (record m { bundles = Map.remove k m.bundles })
  unfolding drop_bundle
  drop_bundle-Agree k s m a = record {
    same_metadata = a.same_metadata;
    same_bundle = λ j.
        ground (arith, map.read-drop k j s.bundles, lookup-remove k j m.bundles, a.same_bundle j);
  }

  abbrev retired : BundlePack E → BundlePack E
  retired meta = add_constraint deleted (clear_constraints meta)

  id-retired : (meta : BundlePack E) → (retired meta).id ≡ meta.id
  unfolding add_constraint
  id-retired meta = id-clear_constraints meta

  remove_held :
      (k : String) (meta : BundlePack E) (s : SledBundleStore T) (m : InMemoryBundleStore E B)
      → Agree bp7 tree codec map back s m
      → lookup k m.metadata ≡ some meta
      → meta.id ≡ k
      → remove tree codec k s
        ≡ returned (ok tt, drop_bundle k (put_metadata bp7 tree codec map back (retired meta) s))
  unfolding remove drop_bundle put_metadata
  remove_held k meta s m a held e =
      let at : contains_key (retired meta).id m.metadata ≡ true =
        rw (id-retired meta, e, held) refl in
      ground (
        arith,
        get_metadata_lem bp7 tree codec map back s m k a,
        held,
        update_held bp7 tree codec map back (retired meta) s m a at,
        map.remove_lem k s.bundles,
      )

  mem_remove_held :
      (k : String) (meta : BundlePack E) (m : InMemoryBundleStore E B)
      → lookup k m.metadata ≡ some meta
      → meta.id ≡ k
      → contains_key k m.bundles ≡ true
      → Mem.remove k m ≡ (
        ok tt,
        record {
          bundles = Map.remove k m.bundles;
          metadata = Map.insert (retired meta).id (retired meta) m.metadata;
        },
      )
  unfolding Mem.remove Mem.remove_bundle
  mem_remove_held k meta m held e stored =
      let at : contains_key (retired meta).id m.metadata ≡ true =
        rw (id-retired meta, e, held) refl in
      ground (arith, held, mem_update_held bp7 tree codec map back (retired meta) m at, stored)

  -- A stored bundle is removed alike.
  pub remove-Together :
      (k : String) (meta : BundlePack E) (s : SledBundleStore T) (m : InMemoryBundleStore E B)
      → Agree bp7 tree codec map back s m
      → lookup k m.metadata ≡ some meta
      → meta.id ≡ k
      → contains_key k m.bundles ≡ true
      → (t : SledBundleStore T) × (remove tree codec k s ≡ returned (ok tt, t))
        × Together bp7 tree codec map back (ok tt, t) (Mem.remove k m)
  remove-Together k meta s m a held e stored = (
    drop_bundle k (put_metadata bp7 tree codec map back (retired meta) s),
    remove_held k meta s m a held e,
    rw (mem_remove_held k meta m held e stored) (
      refl,
      drop_bundle-Agree k (put_metadata bp7 tree codec map back (retired meta) s)
          (record m { metadata = Map.insert (retired meta).id (retired meta) m.metadata })
          (put_metadata-Agree bp7 tree codec map back (retired meta) s m a),
    ),
  )

  -- Every operation on both stores.
  pub record Simulates (s : SledBundleStore T) (m : InMemoryBundleStore E B) : Type 0 where
    pub push_both :
        (c : Clock) (b : B)
        → (contains_key (bp7.bundle_id b) m.bundles ≡ false
            → contains_key (bp7.bundle_id b) m.metadata ≡ false)
        → Together bp7 tree codec map back (push tree codec bp7 c b s) (Mem.push bp7 c b m)
    pub push_over_removed :
        (c : Clock) (b : B)
        → contains_key (bp7.bundle_id b) m.bundles ≡ false
        → contains_key (bp7.bundle_id b) m.metadata ≡ true
        → push tree codec bp7 c b s ≡ (err bundle_metadata_already_in_store, s)
    pub update_both :
        (bp : BundlePack E)
        → Together bp7 tree codec map back
            (update_metadata tree codec bp s)
            (Mem.update_metadata bp m)
    pub remove_both :
        (k : String) (meta : BundlePack E)
        → lookup k m.metadata ≡ some meta
        → meta.id ≡ k
        → contains_key k m.bundles ≡ true
        → (t : SledBundleStore T) × (remove tree codec k s ≡ returned (ok tt, t))
          × Together bp7 tree codec map back (ok tt, t) (Mem.remove k m)

  -- Over a database that works as a map, and a serialization that is read back: if the sled store
  -- and the in-memory store hold the same, then pushing, updating metadata, and removing a stored
  -- bundle give the same result in both, and they hold the same afterwards. Pushing agrees unless
  -- the bundle was removed before: then the sled store refuses it and changes nothing.
  pub Agree-Simulates :
      (s : SledBundleStore T) (m : InMemoryBundleStore E B)
      → Agree bp7 tree codec map back s m
      → Simulates s m
  Agree-Simulates s m a = record {
    push_both = λ c b. push-Together bp7 tree codec map back c b s m a;
    push_over_removed = λ c b. push_removed bp7 tree codec map back c b s m a;
    update_both = λ bp. update_metadata-Together bp7 tree codec map back bp s m a;
    remove_both = λ k meta. remove-Together k meta s m a;
  }

  -- Over a database that works and holds what the in-memory store holds: reading a bundle panics
  -- exactly if there is none, and reading metadata and removing panic exactly if there is no
  -- metadata.
  pub missing_panics :
      (s : SledBundleStore T) (m : InMemoryBundleStore E B) (k : String)
      → Agree bp7 tree codec map back s m
      → ((get_bundle tree codec k s ≡ panicked) ↔ (lookup k m.bundles ≡ none))
        × ((get_metadata tree codec k s ≡ panicked) ↔ (lookup k m.metadata ≡ none))
        × ((remove tree codec k s ≡ panicked) ↔ (lookup k m.metadata ≡ none))
  unfolding remove
  missing_panics s m k a = (
    ground (arith, get_bundle_lem bp7 tree codec map back s m k a),
    ground (arith, get_metadata_lem bp7 tree codec map back s m k a),
    ground (arith, get_metadata_lem bp7 tree codec map back s m k a),
  )
