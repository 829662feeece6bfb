-- ===== src/Store/Mem/Refinement.antt =====
-- The store of core/dtn7/src/core/store/mem.rs against the contract of the trait.
use dtn7_rs.Prelude.{
  String, ◌≡◌, refl, sym, subst, ◌∙◌, inl, inr, none, some, true, arith, ◌==◌, string_eq, eq_iff,
  Option-cases, In, if◌then◌else◌,
}
use dtn7_rs.Map.{contains_key, lookup, values}
use dtn7_rs.Map.Distinct.{In-values_of_lookup, lookup_of_In-values}
use dtn7_rs.Map.Laws.{lookup-insert, lookup-remove}
use dtn7_rs.Outcome.{Result, after, ok}
use dtn7_rs.Bp7.{Bp7}
use dtn7_rs.BundlePack.{BundlePack, Clock, from_bundle, add_constraint}
use dtn7_rs.BundlePack.Constraints.{id-clear_constraints}
use dtn7_rs.Store.Spec.{stored, view, retire, pushed, updated, updated_result, removed, Laws}
use dtn7_rs.Store.Mem.{InMemoryBundleStore, push, update_metadata, remove_bundle, remove, mem_store}
use dtn7_rs.Store.Mem.Invariant.{
  IsWellFormed, push-IsWellFormed, update_metadata-IsWellFormed, remove-IsWellFormed,
  remove_unknown, remove_known,
}

module _ {E B : Type 0} (bp7 : Bp7 E B) where
  -- `push` stores the bundle and gives it fresh metadata unless it is stored already, also over the
  -- metadata of a deleted bundle; every other entry stays.
  pub view-push :
      (c : Clock) (b : B) (s : InMemoryBundleStore E B) (k : String)
      → IsWellFormed bp7 s
      → view (mem_store bp7) (after (push bp7 c b) s) k ≡ (
          if bp7.bundle_id b == k
          then pushed b (from_bundle bp7 c b) (view (mem_store bp7) s k)
          else view (mem_store bp7) s k)
  unfolding push from_bundle
  view-push c b s k w = ground (
    arith,
    w.covered k,
    eq_iff (bp7.bundle_id b) k,
    lookup-insert (bp7.bundle_id b) k b s.bundles,
    lookup-insert (bp7.bundle_id b) k (from_bundle bp7 c b) s.metadata,
  )

  pub view-update_metadata :
      (bp : BundlePack E) (s : InMemoryBundleStore E B) (k : String)
      → view (mem_store bp7) (after (update_metadata bp) s) k
        ≡ (if bp.id == k then updated bp (view (mem_store bp7) s k) else view (mem_store bp7) s k)
  unfolding update_metadata
  view-update_metadata bp s k = ground (arith, eq_iff bp.id k, lookup-insert bp.id k bp s.metadata)

  result-update_metadata :
      (bp : BundlePack E) (s : InMemoryBundleStore E B)
      → (update_metadata bp s).0 ≡ updated_result (view (mem_store bp7) s bp.id)
  unfolding update_metadata
  result-update_metadata bp s = ground arith

  id-retire : (bp : BundlePack E) → (retire bp).id ≡ bp.id
  unfolding retire add_constraint
  id-retire bp = id-clear_constraints bp

  -- With its metadata in place, removing a bundle writes the metadata and drops the bundle.
  remove_stored :
      (bid : String) (s : InMemoryBundleStore E B) (meta : BundlePack E)
      → IsWellFormed bp7 s
      → lookup bid s.metadata ≡ some meta
      → remove bid s ≡ remove_bundle bid (after (update_metadata (retire meta)) s)
  unfolding update_metadata
  remove_stored bid s meta w e =
      remove_known bid s meta e
      ∙ ground (arith, id-retire meta, w.metadata_id bid meta, eq_iff (retire meta).id bid)

  view-remove_bundle :
      (bid : String) (s : InMemoryBundleStore E B) (k : String)
      → (lookup k (after (remove_bundle bid) s).bundles
          ≡ (if bid == k then none else lookup k s.bundles))
        × (lookup k (after (remove_bundle bid) s).metadata ≡ lookup k s.metadata)
  unfolding remove_bundle
  view-remove_bundle bid s k = ground (arith, eq_iff bid k, lookup-remove bid k s.bundles)

  -- `remove` turns a stored bundle and a tombstone into a tombstone marked as deleted, and leaves
  -- an unknown ID and every other entry alone.
  pub view-remove :
      (bid : String) (s : InMemoryBundleStore E B) (k : String)
      → IsWellFormed bp7 s
      → view (mem_store bp7) (after (remove bid) s) k
        ≡ (if bid == k then removed (view (mem_store bp7) s k) else view (mem_store bp7) s k)
  view-remove bid s k w = elim (Option-cases (lookup bid s.metadata)) [
    | inl e ↦ subst (Goal s) (sym (remove_unknown bid s e)) (ground (arith, eq_iff bid k))
    | inr (meta, e) ↦ subst (Goal s) (sym (remove_stored bid s meta w e)) (
        ground (
          arith,
          view-remove_bundle bid (after (update_metadata (retire meta)) s) k,
          view-update_metadata (retire meta) s k,
          id-retire meta,
          w.metadata_id bid meta,
          w.covered k,
          eq_iff bid k,
        ))
  ]
    where
      Goal : InMemoryBundleStore E B → Result (Unit {0}) × InMemoryBundleStore E B → Type 0
      Goal s r =
          view (mem_store bp7) r.1 k
          ≡ (if bid == k then removed (view (mem_store bp7) s k) else view (mem_store bp7) s k)

  result-remove :
      (bid : String) (s : InMemoryBundleStore E B) (b : B) (bp : BundlePack E)
      → IsWellFormed bp7 s
      → view (mem_store bp7) s bid ≡ stored b bp
      → (remove bid s).0 ≡ ok tt
  result-remove bid s b bp w h = elim (Option-cases (lookup bid s.metadata)) [
    | inl e ↦ absurd (ground arith)
    | inr (meta, e) ↦
        subst (λ r. r.0 ≡ ok tt) (sym (remove_stored bid s meta w e))
          (unfold update_metadata remove_bundle in ground arith)
  ]

  bundles_sound :
      (s : InMemoryBundleStore E B) (bp : BundlePack E)
      → IsWellFormed bp7 s
      → In bp (values s.metadata)
      → lookup bp.id s.metadata ≡ some bp
  bundles_sound s bp w h =
      let (k, found) = lookup_of_In-values bp s.metadata w.distinct h in
      ground (arith, w.metadata_id k bp)

  known-push :
      (c : Clock) (b : B) (s : InMemoryBundleStore E B) (k : String)
      → contains_key k s.metadata ≡ true
      → contains_key k (after (push bp7 c b) s).metadata ≡ true
  unfolding push from_bundle
  known-push c b s k h =
      ground (arith, lookup-insert (bp7.bundle_id b) k (from_bundle bp7 c b) s.metadata)

  -- On its well-formed states the in-memory store keeps the contract of `BundleStore`: each ID
  -- holds nothing, a bundle with its metadata, or the metadata of a bundle that is gone, and
  -- every operation acts on the entry of its own ID as the contract says and leaves the others
  -- alone.
  pub mem_store-Laws : Laws bp7 (mem_store bp7) (IsWellFormed bp7)
  mem_store-Laws = record {
    push_keeps = push-IsWellFormed bp7;
    update_keeps = update_metadata-IsWellFormed bp7;
    remove_keeps = remove-IsWellFormed bp7;
    known_view = λ k s w. ground (arith, w.covered k);
    metadata_id = λ k s bp w h. w.metadata_id k bp h;
    bundles_listed = λ k s bp w h. In-values_of_lookup k bp s.metadata h;
    bundles_sound = λ s bp w h. bundles_sound s bp w h;
    push_known = λ c b s k w h. known-push c b s k h;
    push_view = λ c b s k w h. view-push c b s k w;
    push_result = λ c b s w h. unfold push in refl;
    update_view = λ bp s k w. view-update_metadata bp s k;
    update_result = λ bp s w. result-update_metadata bp s;
    remove_view = λ j s k w. view-remove j s k w;
    remove_result = λ j s b bp w h. result-remove j s b bp w h;
  }
