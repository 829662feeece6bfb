-- ===== src/Store/Sled/Agreement.antt =====
-- What is known of the database, and when the store of core/dtn7/src/core/store/sled.rs holds the same
-- as the one of core/dtn7/src/core/store/mem.rs.
use dtn7_rs.Prelude.{
  String, ◌≡◌, Option, none, some, arith, ◌==◌, string_eq, is_some, if◌then◌else◌, inl, inr,
  Option-cases,
}
use dtn7_rs.Map
use dtn7_rs.Map.{lookup, contains_key}
use dtn7_rs.Map.Laws.{lookup-insert}
use dtn7_rs.Outcome.{ok}
use dtn7_rs.Bp7.{Bp7}
use dtn7_rs.BundlePack.{BundlePack}
use dtn7_rs.Store.Mem.{InMemoryBundleStore}
use dtn7_rs.Store.Sled.{
  Tree, Codec, SledBundleStore, returned, panicked, get_bundle, get_metadata, insert_metadata,
  insert_bundle,
}

-- What `sled` documents of a tree that meets no error: it is a map.
pub record IsMap {V T : Type 0} (tree : Tree V T) : Type 0 where
  pub read : T → String → Option V
  pub put : String → V → T → T
  pub drop : String → T → T
  pub get_lem : (k : String) (t : T) → tree.get k t ≡ some (read t k)
  pub contains_key_lem : (k : String) (t : T) → tree.contains_key k t ≡ some (is_some (read t k))
  pub insert_lem : (k : String) (v : V) (t : T) → tree.insert k v t ≡ some (put k v t)
  pub remove_lem : (k : String) (t : T) → tree.remove k t ≡ some (drop k t)
  pub flush_lem : (t : T) → tree.flush t ≡ some tt
  pub read-put :
      (k j : String) (v : V) (t : T) → read (put k v t) j ≡ (if k == j then some v else read t j)
  pub read-drop : (k j : String) (t : T) → read (drop k t) j ≡ (if k == j then none else read t j)

-- What is written is read back.
pub record IsCodec {V E B : Type 0} (codec : Codec V E B) : Type 0 where
  pub bundle_back : (b : B) → codec.bundle_of_cbor (codec.bundle_to_cbor b) ≡ some b
  pub pack_back : (bp : BundlePack E) → codec.pack_of_cbor (codec.pack_to_cbor bp) ≡ some bp

abbrev pub encoded : {V A : Type 0} → (A → V) → Option A → Option V
encoded f none = none
encoded f (some a) = some (f a)

module _ {V E B T : Type 0} (bp7 : Bp7 E B) (tree : Tree V T) (codec : Codec V E B)
    (map : IsMap tree) (back : IsCodec codec) where
  -- The two stores hold the same for every ID.
  pub record Agree (s : SledBundleStore T) (m : InMemoryBundleStore E B) : Type 0 where
    pub same_bundle :
        (k : String) → map.read s.bundles k ≡ encoded codec.bundle_to_cbor (lookup k m.bundles)
    pub same_metadata :
        (k : String) → map.read s.metadata k ≡ encoded codec.pack_to_cbor (lookup k m.metadata)

  pub get_bundle_lem :
      (s : SledBundleStore T) (m : InMemoryBundleStore E B) (k : String)
      → Agree s m
      → get_bundle tree codec k s
        ≡ (elim (lookup k m.bundles) [ none ↦ panicked | some b ↦ returned (some b) ])
  unfolding get_bundle
  get_bundle_lem s m k a = elim (Option-cases (lookup k m.bundles)) [
    | inl e ↦ ground (arith, map.get_lem k s.bundles, a.same_bundle k, e)
    | inr (b, e) ↦ ground (arith, map.get_lem k s.bundles, a.same_bundle k, e, back.bundle_back b)
  ]

  pub get_metadata_lem :
      (s : SledBundleStore T) (m : InMemoryBundleStore E B) (k : String)
      → Agree s m
      → get_metadata tree codec k s
        ≡ (elim (lookup k m.metadata) [ none ↦ panicked | some bp ↦ returned (some bp) ])
  unfolding get_metadata
  get_metadata_lem s m k a = elim (Option-cases (lookup k m.metadata)) [
    | inl e ↦ ground (arith, map.get_lem k s.metadata, a.same_metadata k, e)
    | inr (b, e) ↦ ground (arith, map.get_lem k s.metadata, a.same_metadata k, e, back.pack_back b)
  ]

  unfoldable pub put_metadata : BundlePack E → SledBundleStore T → SledBundleStore T
  put_metadata bp s = record s { metadata = map.put bp.id (codec.pack_to_cbor bp) s.metadata }

  pub put_metadata-Agree :
      (bp : BundlePack E) (s : SledBundleStore T) (m : InMemoryBundleStore E B)
      → Agree s m
      → Agree (put_metadata bp s) (record m { metadata = Map.insert bp.id bp m.metadata })
  unfolding put_metadata
  put_metadata-Agree bp s m a = record {
    same_bundle = a.same_bundle;
    same_metadata = λ k. ground (
      arith,
      map.read-put bp.id k (codec.pack_to_cbor bp) s.metadata,
      lookup-insert bp.id k bp m.metadata,
      a.same_metadata k,
    );
  }

  pub put_bundle : B → SledBundleStore T → SledBundleStore T
  put_bundle b s = record s {
    bundles = map.put (bp7.bundle_id b) (codec.bundle_to_cbor b) s.bundles;
  }

  pub put_bundle-Agree :
      (b : B) (s : SledBundleStore T) (m : InMemoryBundleStore E B)
      → Agree s m
      → Agree (put_bundle b s) (record m { bundles = Map.insert (bp7.bundle_id b) b m.bundles })
  unfolding put_bundle
  put_bundle-Agree b s m a = record {
    same_metadata = a.same_metadata;
    same_bundle = λ k. ground (
      arith,
      map.read-put (bp7.bundle_id b) k (codec.bundle_to_cbor b) s.bundles,
      lookup-insert (bp7.bundle_id b) k b m.bundles,
      a.same_bundle k,
    );
  }

  pub insert_metadata_lem :
      (bp : BundlePack E) (s : SledBundleStore T)
      → insert_metadata tree codec bp s ≡ (ok tt, put_metadata bp s)
  unfolding put_metadata
  insert_metadata_lem bp s = ground (
    arith,
    map.insert_lem bp.id (codec.pack_to_cbor bp) s.metadata,
    map.flush_lem (map.put bp.id (codec.pack_to_cbor bp) s.metadata),
  )

  pub insert_bundle_lem :
      (b : B) (s : SledBundleStore T)
      → insert_bundle tree codec (bp7.bundle_id b) b s ≡ (ok tt, put_bundle b s)
  unfolding put_bundle
  insert_bundle_lem b s = ground (
    arith,
    map.insert_lem (bp7.bundle_id b) (codec.bundle_to_cbor b) s.bundles,
    map.flush_lem (map.put (bp7.bundle_id b) (codec.bundle_to_cbor b) s.bundles),
  )

  pub contains_bundle :
      (s : SledBundleStore T) (m : InMemoryBundleStore E B) (k : String)
      → Agree s m
      → tree.contains_key k s.bundles ≡ some (contains_key k m.bundles)
  contains_bundle s m k a = ground (arith, map.contains_key_lem k s.bundles, a.same_bundle k)

  pub contains_metadata :
      (s : SledBundleStore T) (m : InMemoryBundleStore E B) (k : String)
      → Agree s m
      → tree.contains_key k s.metadata ≡ some (contains_key k m.metadata)
  contains_metadata s m k a = ground (arith, map.contains_key_lem k s.metadata, a.same_metadata k)
