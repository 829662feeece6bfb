-- ===== src/Store/Mem.antt =====
-- core/dtn7/src/core/store/mem.rs: bundles and their metadata in two hash maps.
pub mod Invariant
pub mod Refinement
use dtn7_rs.Prelude.{
  ℕ, String, Bool, true, false, not, ◌&&◌, ◌||◌, Option, none, some, List, [], ◌∷◌, map, Eq, ◌==◌,
  string_eq, is_some, length, all, filter, if◌then◌else◌,
}
use dtn7_rs.Map
use dtn7_rs.Map.{Map, lookup, contains_key}
use dtn7_rs.Outcome.{
  Action, Result, ok, err, ◌>>=◌, ◌>>◌, bundle_not_in_store, bundle_metadata_not_in_store,
}
use dtn7_rs.Bp7.{Bp7}
use dtn7_rs.BundlePack.{
  BundlePack, Constraint, Clock, forward_pending, reassembly_pending, contraindicated, deleted,
  from_bundle, has_constraint, add_constraint, clear_constraints,
}
use dtn7_rs.Store.{BundleStore}

pub record InMemoryBundleStore (E B : Type 0) : Type 0 where
  pub bundles : Map String B
  pub metadata : Map String (BundlePack E)

-- The test of `pending()`
unfoldable pub is_pending : {E : Type 0} → BundlePack E → Bool
is_pending bp =
    not (has_constraint reassembly_pending bp)
    && (has_constraint forward_pending bp || has_constraint contraindicated bp)

module _ {E B : Type 0} where
  -- `InMemoryBundleStore::new`
  unfoldable pub new : InMemoryBundleStore E B
  new = record { bundles = []; metadata = [] }

  unfoldable pub push : Bp7 E B → Clock → B → Action (InMemoryBundleStore E B) (Unit {0})
  push bp7 clock b s =
      let bp = from_bundle bp7 clock b in
      (
        ok tt,
        record {
          bundles = Map.insert (bp7.bundle_id b) b s.bundles;
          metadata =
              if contains_key bp.id s.bundles then s.metadata else Map.insert bp.id bp s.metadata;
        },
      )

  unfoldable pub update_metadata : BundlePack E → Action (InMemoryBundleStore E B) (Unit {0})
  update_metadata bp s =
      if contains_key bp.id s.metadata
      then (ok tt, record s { metadata = Map.insert bp.id bp s.metadata })
      else (err bundle_not_in_store, s)

  -- `self.bundles.remove(bid)`, which reports whether there was a bundle
  unfoldable pub remove_bundle : String → Action (InMemoryBundleStore E B) (Unit {0})
  remove_bundle bid s =
      if contains_key bid s.bundles
      then (ok tt, record s { bundles = Map.remove bid s.bundles })
      else (err bundle_not_in_store, s)

  unfoldable pub remove : String → Action (InMemoryBundleStore E B) (Unit {0})
  remove bid s = elim (lookup bid s.metadata) [
    | none ↦ (err bundle_metadata_not_in_store, s)
    | some meta ↦
        (do update_metadata (add_constraint deleted (clear_constraints meta)); remove_bundle bid) s
  ]

  unfoldable pub filter_constraints : List Constraint → InMemoryBundleStore E B → List String
  filter_constraints criteria s =
      map (λ bp. bp.id)
        (filter (λ bp. all (λ c. has_constraint c bp) criteria) (Map.values s.metadata))

  unfoldable pub pending : InMemoryBundleStore E B → List String
  unfolding is_pending
  pending s = map (λ bp. bp.id) (filter is_pending (Map.values s.metadata))

  -- `impl BundleStore for InMemoryBundleStore`
  abbrev pub mem_store : Bp7 E B → BundleStore E B (InMemoryBundleStore E B)
  mem_store bp7 = record {
    push = push bp7;
    update_metadata = update_metadata;
    remove = remove;
    count = λ s. length s.bundles;
    all_ids = λ s. Map.keys s.bundles;
    has_item = λ bid s. contains_key bid s.bundles;
    is_known = λ bid s. contains_key bid s.metadata;
    pending = pending;
    filter_constraints = filter_constraints;
    bundles = λ s. Map.values s.metadata;
    get_bundle = λ bid s. lookup bid s.bundles;
    get_metadata = λ bid s. lookup bid s.metadata;
  }
