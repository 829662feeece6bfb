-- ===== src/Processing/Janitor/Queue.antt =====
-- What `process_bundles` of core/dtn7/src/core/mod.rs takes from the store, and in which order.
use dtn7_rs.Prelude.{
  ℕ, ◌≤◌, String, ◌≡◌, ◌⊎◌, ◌↔◌, ap, subst, Bool, true, false, not, List, [], ◌∷◌, Option, some,
  arith, In, All, all, map, In-filter, In-map-from, In-map-to, In-filter_map-to, In-filter_map-from,
  filter, filter_map, leb, inl, inr, Bool-cases, string_eq, unwrap_or,
}
use dtn7_rs.Map.{Map, lookup}
use dtn7_rs.Map
use dtn7_rs.Map.Distinct.{In-values_of_lookup, lookup_of_In-values}
use dtn7_rs.Bp7.{Bp7}
use dtn7_rs.BundlePack.{BundlePack, deleted, forward_pending, has_constraint}
use dtn7_rs.Store.{forwarding}
use dtn7_rs.Store.Mem.{InMemoryBundleStore, mem_store, filter_constraints}
use dtn7_rs.Store.Mem.Invariant.{IsWellFormed}
use dtn7_rs.Processing.Janitor.{insert_by_creation, sort_by_creation, forwarding_bundles}

module _ {E : Type 0} where
  -- No bundle stands before one that was created earlier.
  abbrev pub IsChronological : List (BundlePack E) → Type 0
  IsChronological [] = Unit
  IsChronological (bp ∷ bps) =
      All (λ q. bp.creation_time ≤ q.creation_time) bps × IsChronological bps

  insert-All :
      (P : BundlePack E → Type 0) (bp : BundlePack E) (bps : List (BundlePack E))
      → P bp
      → All P bps
      → All P (insert_by_creation bp bps)
  unfolding insert_by_creation
  insert-All P bp [] h k = (h, tt)
  insert-All P bp (q ∷ bps) h k = elim (Bool-cases (leb bp.creation_time q.creation_time)) [
    | inl early ↦ rw early (h, k)
    | inr late ↦ rw late (k.0, insert-All P bp bps h k.1)
  ]

  All-le :
      (m n : ℕ) (bps : List (BundlePack E))
      → m ≤ n
      → All (λ q. n ≤ q.creation_time) bps
      → All (λ q. m ≤ q.creation_time) bps
  All-le m n [] h k = tt
  All-le m n (q ∷ bps) h k = (omega (arith, h, k.0), All-le m n bps h k.1)

  insert-IsChronological :
      (bp : BundlePack E) (bps : List (BundlePack E))
      → IsChronological bps
      → IsChronological (insert_by_creation bp bps)
  unfolding insert_by_creation
  insert-IsChronological bp [] h = (tt, tt)
  insert-IsChronological bp (q ∷ bps) h = elim (Bool-cases (leb bp.creation_time q.creation_time)) [
    | inl early ↦
        let first : bp.creation_time ≤ q.creation_time = ground arith in
        rw early ((first, All-le bp.creation_time q.creation_time bps first h.0), h)
    | inr late ↦
        let first : q.creation_time ≤ bp.creation_time = ground arith in
        rw late (
          insert-All (λ r. q.creation_time ≤ r.creation_time) bp bps first h.0,
          insert-IsChronological bp bps h.1,
        )
  ]

  pub sort-IsChronological : (bps : List (BundlePack E)) → IsChronological (sort_by_creation bps)
  unfolding sort_by_creation
  sort-IsChronological [] = tt
  sort-IsChronological (bp ∷ bps) =
      insert-IsChronological bp (sort_by_creation bps) (sort-IsChronological bps)

  pub In-insert :
      (bp q : BundlePack E) (bps : List (BundlePack E))
      → In q (insert_by_creation bp bps) ↔ ((bp ≡ q) ⊎ In q bps)
  unfolding insert_by_creation
  In-insert bp q [] = ground arith
  In-insert bp q (r ∷ bps) = ground (arith, In-insert bp q bps)

  pub In-sort :
      (q : BundlePack E) (bps : List (BundlePack E)) → In q (sort_by_creation bps) ↔ In q bps
  unfolding sort_by_creation
  In-sort q [] = ground arith
  In-sort q (bp ∷ bps) = ground (arith, In-insert bp q (sort_by_creation bps), In-sort q bps)

module _ {E B : Type 0} (bp7 : Bp7 E B) where
  -- With the in-memory store in a well-formed state, the queue holds exactly the bundles whose
  -- metadata is marked as pending for forwarding and not as deleted, in the order of their
  -- creation.
  pub forwarding_bundles_lem :
      (s : InMemoryBundleStore E B) (q : BundlePack E)
      → IsWellFormed bp7 s
      → IsChronological (forwarding_bundles (mem_store bp7) s)
        × (In q (forwarding_bundles (mem_store bp7) s) ↔ (
            (lookup q.id s.metadata ≡ some q)
            × (has_constraint forward_pending q ≡ true)
            × (has_constraint deleted q ≡ false)))
  unfolding forwarding_bundles forwarding filter_constraints
  forwarding_bundles_lem s q w = (sort-IsChronological (filter live known), (to, from))
    where
      Ready : Type 0
      Ready =
          (lookup q.id s.metadata ≡ some q)
          × (has_constraint forward_pending q ≡ true)
          × (has_constraint deleted q ≡ false)

      picked : BundlePack E → Bool
      picked bp = all (λ c. has_constraint c bp) (forward_pending ∷ [])

      live : BundlePack E → Bool
      live bp = not (has_constraint deleted bp)

      ids : List String
      ids = map (λ bp. bp.id) (filter picked (Map.values s.metadata))

      known : List (BundlePack E)
      known = filter_map (λ bid. lookup bid s.metadata) ids

      to : In q (sort_by_creation (filter live known)) → Ready
      to i =
          let (listed, fresh) = (In-filter live q known).0 ((In-sort q (filter live known)).0 i) in
          let (bid, id_in, found) = In-filter_map-to (λ bid. lookup bid s.metadata) q ids listed in
          let (bp, chosen, same_id) =
            In-map-to (λ bp. bp.id) bid (filter picked (Map.values s.metadata)) id_in in
          let (value, pending) = (In-filter picked bp (Map.values s.metadata)).0 chosen in
          let (k, there) = lookup_of_In-values bp s.metadata w.distinct value in
          let same : bp ≡ q =
            let hit : some bp ≡ some q =
              ground (arith, w.metadata_id k bp there, same_id, found, there) in
            ap (λ (o : Option (BundlePack E)). unwrap_or o bp) hit in
          (
            ground (arith, w.metadata_id bid q found, found),
            subst (λ b. has_constraint forward_pending b ≡ true) same (ground (arith, pending)),
            ground (arith, fresh),
          )

      from : Ready → In q (sort_by_creation (filter live known))
      from (found, pending, fresh) =
          let value = In-values_of_lookup q.id q s.metadata found in
          let chosen : In q (filter picked (Map.values s.metadata)) =
            (In-filter picked q (Map.values s.metadata)).1 (value, ground arith) in
          let id_in : In q.id ids =
            In-map-from (λ bp. bp.id) q (filter picked (Map.values s.metadata)) chosen in
          let listed : In q known =
            In-filter_map-from (λ bid. lookup bid s.metadata) q.id q ids id_in found in
          (In-sort q (filter live known)).1 ((In-filter live q known).1 (listed, ap not fresh))
