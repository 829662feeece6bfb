-- ===== src/Store/Mem/Invariant.antt =====
-- The well-formed states of the store in core/dtn7/src/core/store/mem.rs.
use dtn7_rs.Prelude.{
  String, ◌≡◌, sym, subst, true, some, none, arith, string_eq, eq_iff, Option-cases, inl, inr,
}
use dtn7_rs.Map.{contains_key, lookup}
use dtn7_rs.Map.Distinct.{Distinct, insert-Distinct}
use dtn7_rs.Map.Laws.{lookup-insert, lookup-remove}
use dtn7_rs.Outcome.{after, after-bind, ◌>>=◌, err, bundle_metadata_not_in_store}
use dtn7_rs.Bp7.{Bp7}
use dtn7_rs.BundlePack.{BundlePack, Clock, from_bundle}
use dtn7_rs.Store.Spec.{retire}
use dtn7_rs.Store.Mem.{InMemoryBundleStore, new, push, update_metadata, remove_bundle, remove}

-- Each entry stands under its own ID, once, and every stored bundle has metadata.
pub record IsWellFormed {E B : Type 0} (bp7 : Bp7 E B) (s : InMemoryBundleStore E B) : Type 0 where
  pub metadata_id : (k : String) (bp : BundlePack E) → lookup k s.metadata ≡ some bp → bp.id ≡ k
  pub bundles_id : (k : String) (b : B) → lookup k s.bundles ≡ some b → bp7.bundle_id b ≡ k
  pub covered : (k : String) → contains_key k s.bundles ≡ true → contains_key k s.metadata ≡ true
  pub distinct : Distinct s.metadata

module _ {E B : Type 0} where
  pub remove_unknown :
      (bid : String) (s : InMemoryBundleStore E B)
      → lookup bid s.metadata ≡ none
      → remove bid s ≡ (err bundle_metadata_not_in_store, s)
  unfolding remove
  remove_unknown bid s e = rw (e, remove)

  pub remove_known :
      (bid : String) (s : InMemoryBundleStore E B) (meta : BundlePack E)
      → lookup bid s.metadata ≡ some meta
      → remove bid s ≡ (update_metadata (retire meta) >>= λ _. remove_bundle bid) s
  unfolding remove retire
  remove_known bid s meta e = rw (e, remove)

module _ {E B : Type 0} (bp7 : Bp7 E B) where
  pub new-IsWellFormed : IsWellFormed bp7 new
  unfolding new lookup
  new-IsWellFormed = record {
    metadata_id = λ k bp h. cc;
    bundles_id = λ k b h. cc;
    covered = λ k h. cc;
    distinct = tt;
  }

  pub push-IsWellFormed :
      (c : Clock) (b : B) (s : InMemoryBundleStore E B)
      → IsWellFormed bp7 s
      → IsWellFormed bp7 (after (push bp7 c b) s)
  unfolding push from_bundle
  push-IsWellFormed c b s w = record {
    metadata_id = λ k bp h. ground (
      arith,
      w.metadata_id k bp,
      eq_iff (bp7.bundle_id b) k,
      lookup-insert (bp7.bundle_id b) k (from_bundle bp7 c b) s.metadata,
    );
    bundles_id = λ k d h. ground (
      arith,
      w.bundles_id k d,
      eq_iff (bp7.bundle_id b) k,
      lookup-insert (bp7.bundle_id b) k b s.bundles,
    );
    covered = λ k h. ground (
      arith,
      w.covered k,
      eq_iff (bp7.bundle_id b) k,
      lookup-insert (bp7.bundle_id b) k b s.bundles,
      lookup-insert (bp7.bundle_id b) k (from_bundle bp7 c b) s.metadata,
    );
    distinct =
        ground
          (arith, w.distinct, insert-Distinct (bp7.bundle_id b) (from_bundle bp7 c b) s.metadata);
  }

  pub update_metadata-IsWellFormed :
      (bp : BundlePack E) (s : InMemoryBundleStore E B)
      → IsWellFormed bp7 s
      → IsWellFormed bp7 (after (update_metadata bp) s)
  unfolding update_metadata
  update_metadata-IsWellFormed bp s w = record {
    metadata_id = λ k q h.
        ground (arith, w.metadata_id k q, eq_iff bp.id k, lookup-insert bp.id k bp s.metadata);
    bundles_id = λ k d h. ground (arith, w.bundles_id k d);
    covered =
        λ k h. ground (arith, w.covered k, eq_iff bp.id k, lookup-insert bp.id k bp s.metadata);
    distinct = ground (arith, w.distinct, insert-Distinct bp.id bp s.metadata);
  }

  remove_bundle-IsWellFormed :
      (bid : String) (s : InMemoryBundleStore E B)
      → IsWellFormed bp7 s
      → IsWellFormed bp7 (after (remove_bundle bid) s)
  unfolding remove_bundle
  remove_bundle-IsWellFormed bid s w = record {
    metadata_id = λ k q h. ground (arith, w.metadata_id k q);
    bundles_id = λ k d h. ground (arith, w.bundles_id k d, lookup-remove bid k s.bundles);
    covered = λ k h. ground (arith, w.covered k, lookup-remove bid k s.bundles);
    distinct = ground (arith, w.distinct);
  }

  pub remove-IsWellFormed :
      (bid : String) (s : InMemoryBundleStore E B)
      → IsWellFormed bp7 s
      → IsWellFormed bp7 (after (remove bid) s)
  remove-IsWellFormed bid s w = elim (Option-cases (lookup bid s.metadata)) [
    | inl e ↦ subst (λ r. IsWellFormed bp7 r.1) (sym (remove_unknown bid s e)) w
    | inr (meta, e) ↦
        subst (λ r. IsWellFormed bp7 r.1) (sym (remove_known bid s meta e))
          (after-bind (IsWellFormed bp7) (update_metadata (retire meta)) (λ _. remove_bundle bid) s
            (update_metadata-IsWellFormed (retire meta) s w)
            (λ _ t. remove_bundle-IsWellFormed bid t))
  ]
