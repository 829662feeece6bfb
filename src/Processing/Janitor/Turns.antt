-- ===== src/Processing/Janitor/Turns.antt =====
-- `process_bundles` of core/dtn7/src/core/mod.rs: the bundles it forwards, each in its turn.
use dtn7_rs.Prelude.{
  String, ◌≡◌, ◌≢◌, ◌↔◌, refl, sym, ap, subst, true, false, not, Bool, List, [], ◌∷◌, some, Eq,
  arith, In, In-filter, any, all, map, filter, filter_map, leb, inl, inr, Bool-cases, string_eq,
  ==_refl, eq_iff, if◌then◌else◌,
}
use dtn7_rs.Map.{Map, lookup, contains_key}
use dtn7_rs.Map
use dtn7_rs.Map.Distinct.{Distinct, lookup_of_In-values}
use dtn7_rs.Outcome.{after}
use dtn7_rs.BundlePack.{BundlePack, deleted, forward_pending, has_constraint, has_expired}
use dtn7_rs.Store.{forwarding}
use dtn7_rs.Store.Mem.{InMemoryBundleStore, mem_store, filter_constraints}
use dtn7_rs.Store.Mem.Invariant.{IsWellFormed}
use dtn7_rs.Store.Mem.Refinement.{mem_store-Laws}
use dtn7_rs.GlobalStore.{store_delete_expired}
use dtn7_rs.GlobalStore.Cleanup.{store_delete_expired-Inv}
use dtn7_rs.GlobalStore.Survivors.{survivors}
use dtn7_rs.Node.{Node, Context}
use dtn7_rs.Processing.Forward.{forward}
use dtn7_rs.Processing.Janitor.{
  insert_by_creation, sort_by_creation, forwarding_bundles, forward_each, process_bundles,
}
use dtn7_rs.Processing.Janitor.Queue.{
  IsChronological, sort-IsChronological, In-insert, In-sort, forwarding_bundles_lem,
}

module _ {E : Type 0} where
  -- No two of the bundles have the same ID.
  abbrev pub IsOnce : List (BundlePack E) → Type 0
  IsOnce [] = Unit
  IsOnce (bp ∷ bps) = ((q : BundlePack E) → In q bps → q.id ≢ bp.id) × IsOnce bps

  insert-IsOnce :
      (bp : BundlePack E) (bps : List (BundlePack E))
      → ((q : BundlePack E) → In q bps → q.id ≢ bp.id)
      → IsOnce bps
      → IsOnce (insert_by_creation bp bps)
  unfolding insert_by_creation
  insert-IsOnce bp [] h k = ((λ q i. absurd i), tt)
  insert-IsOnce bp (r ∷ bps) h k = elim (Bool-cases (leb bp.creation_time r.creation_time)) [
    | inl early ↦ rw early (h, k)
    | inr late ↦ rw late (
      (λ q i. elim ((In-insert bp q bps).0 i) [
        | inl same ↦ λ e. h r (inl refl) (ground (arith, e, same))
        | inr j ↦ k.0 q j
      ]),
      insert-IsOnce bp bps (λ q i. h q (inr i)) k.1,
    )
  ]

  sort-IsOnce : (bps : List (BundlePack E)) → IsOnce bps → IsOnce (sort_by_creation bps)
  unfolding sort_by_creation
  sort-IsOnce [] h = tt
  sort-IsOnce (bp ∷ bps) h =
      insert-IsOnce bp (sort_by_creation bps) (λ q i. h.0 q ((In-sort q bps).0 i))
        (sort-IsOnce bps h.1)

  filter-IsOnce :
      (p : BundlePack E → Bool) (bps : List (BundlePack E)) → IsOnce bps → IsOnce (filter p bps)
  filter-IsOnce p [] h = tt
  filter-IsOnce p (bp ∷ bps) h = elim (Bool-cases (p bp)) [
    | inl e ↦ rw e ((λ q i. h.0 q ((In-filter p q bps).0 i).0), filter-IsOnce p bps h.1)
    | inr e ↦ rw e (filter-IsOnce p bps h.1)
  ]

  values-IsOnce :
      (m : Map String (BundlePack E))
      → Distinct m
      → ((k : String) (bp : BundlePack E) → lookup k m ≡ some bp → bp.id ≡ k)
      → IsOnce (Map.values m)
  unfolding lookup
  values-IsOnce [] d own = tt
  values-IsOnce ((k, bp) ∷ m) d own = (
    (λ q i e.
        let (j, found) = lookup_of_In-values q m d.1 i in
        let mine : bp.id ≡ k = own k bp (ground (arith, ==_refl k)) in
        let same : q.id ≡ j = tail_own j q found in
        absurd (ground (arith, d.0, found, mine, same, e))),
    values-IsOnce m d.1 tail_own,
  )
    where
      tail_own : (j : String) (q : BundlePack E) → lookup j m ≡ some q → q.id ≡ j
      tail_own j q found = own j q (ground (arith, d.0, eq_iff k j, found))

  -- The metadata found again by its IDs.
  looked_up :
      (m : Map String (BundlePack E)) (bps : List (BundlePack E))
      → ((q : BundlePack E) → In q bps → lookup q.id m ≡ some q)
      → filter_map (λ bid. lookup bid m) (map (λ bp. bp.id) bps) ≡ bps
  looked_up m [] h = refl
  looked_up m (bp ∷ bps) h = ground (arith, h bp (inl refl), looked_up m bps (λ q i. h q (inr i)))

module _ {E B S A : Type 0} ⦃eq : Eq E⦄ (cx : Context E B S A) where
  -- The bundles are handed to `forward` one after the other, whatever comes of it.
  unfoldable pub in_turn : List (BundlePack E) → Node E B S A → Node E B S A
  in_turn [] n = n
  in_turn (bp ∷ bps) n = in_turn bps (after (forward cx bp) n)

  in_turn-eq :
      (bps : List (BundlePack E)) (n : Node E B S A) → forward_each cx bps n ≡ in_turn bps n
  unfolding forward_each in_turn
  in_turn-eq [] n = refl
  in_turn-eq (bp ∷ bps) n = in_turn-eq bps (after (forward cx bp) n)

module _ {E B A : Type 0} ⦃eq : Eq E⦄ (cx : Context E B (InMemoryBundleStore E B) A) where
  abbrev pub in_memory : Context E B (InMemoryBundleStore E B) A
  in_memory = record cx { st = mem_store cx.bp7 }

  -- What the metadata of a bundle has to be for its turn to come.
  abbrev pub IsDue : InMemoryBundleStore E B → BundlePack E → Type 0
  IsDue s q =
      (lookup q.id s.metadata ≡ some q)
      × (has_constraint forward_pending q ≡ true)
      × (has_constraint deleted q ≡ false)
      × (has_expired cx.clock q ≡ false)

  forwarding_bundles-IsOnce :
      (s : InMemoryBundleStore E B)
      → IsWellFormed cx.bp7 s
      → IsOnce (forwarding_bundles (mem_store cx.bp7) s)
  unfolding forwarding_bundles forwarding filter_constraints
  forwarding_bundles-IsOnce s w =
      let values = Map.values s.metadata in
      let picked : BundlePack E → Bool =
        λ bp. all (λ c. has_constraint c bp) (forward_pending ∷ []) in
      let once : IsOnce (filter picked values) =
        filter-IsOnce picked values (values-IsOnce s.metadata w.distinct w.metadata_id) in
      let known = looked_up s.metadata (filter picked values) λ q i.
        let (k, found) =
          lookup_of_In-values q s.metadata w.distinct ((In-filter picked q values).0 i).0 in
        subst (λ j. lookup j s.metadata ≡ some q) (sym (w.metadata_id k q found)) found in
      sort-IsOnce _
        (filter-IsOnce (λ bp. not (has_constraint deleted bp)) _ (subst IsOnce (sym known) once))

  forwarding_bundles-IsChronological :
      (s : InMemoryBundleStore E B) → IsChronological (forwarding_bundles (mem_store cx.bp7) s)
  unfolding forwarding_bundles
  forwarding_bundles-IsChronological s = sort-IsChronological (
      filter (λ (bp : BundlePack E). not (has_constraint deleted bp))
        (filter_map (λ bid. lookup bid s.metadata) (forwarding (mem_store cx.bp7) s)))

  -- The queue of the cleaned store, as the metadata before the cleanup.
  In-turns :
      (n : InMemoryBundleStore E B) (q : BundlePack E)
      → IsWellFormed cx.bp7 n
      → let st = mem_store cx.bp7 in
        In q (forwarding_bundles st (store_delete_expired st cx.clock n)) ↔ IsDue n q
  In-turns n q w =
      let st = mem_store cx.bp7 in
      let laws = mem_store-Laws cx.bp7 in
      let s = store_delete_expired st cx.clock n in
      let w' = store_delete_expired-Inv cx.bp7 st laws cx.clock n w in
      let queue = (forwarding_bundles_lem cx.bp7 s q w').1 in
      let kept = survivors cx.bp7 st laws cx.clock n q.id q w in
      (
        (λ i.
            let (found, pending, fresh) = queue.0 i in
            let (found', fresh', young) = kept.0 (found, fresh) in
            (found', pending, fresh', young)),
        λ (found, pending, fresh, young).
            let (found', fresh') = kept.1 (found, fresh, young) in
            queue.1 (found', pending, fresh'),
      )

  -- With the in-memory store in a well-formed state, `process_bundles` deletes the expired
  -- bundles and then, if a convergence layer accepts bundles, hands bundles to `forward` one
  -- after the other, whatever comes of it, and otherwise does nothing else. The bundles it
  -- forwards are those whose metadata was marked as pending for forwarding and not as deleted and
  -- that have not expired, each once, in the order of their creation.
  pub process_bundles_lem :
      (n : Node E B (InMemoryBundleStore E B) A)
      → IsWellFormed cx.bp7 n.store
      → let cleaned = record n {
        store = store_delete_expired (mem_store cx.bp7) cx.clock n.store;
      } in
        (turns : List (BundlePack E)) × (process_bundles in_memory n
          ≡ (if any (λ c. c.accepting) cx.clas then in_turn in_memory turns cleaned else cleaned))
        × IsChronological turns
        × IsOnce turns
        × ((q : BundlePack E) → In q turns ↔ IsDue n.store q)
  unfolding process_bundles
  process_bundles_lem n w =
      let st = mem_store cx.bp7 in
      let s = store_delete_expired st cx.clock n.store in
      let cleaned = record n { store = s } in
      let w' : IsWellFormed cx.bp7 s =
        store_delete_expired-Inv cx.bp7 st (mem_store-Laws cx.bp7) cx.clock n.store w in
      let turns = forwarding_bundles st s in
      (
        turns,
        ap (λ m. if any (λ c. c.accepting) cx.clas then m else cleaned)
            (in_turn-eq in_memory turns cleaned),
        forwarding_bundles-IsChronological s,
        forwarding_bundles-IsOnce s w',
        λ q. In-turns n.store q w,
      )
