-- ===== src/GlobalStore/Cleanup.antt =====
-- The janitor's `store_delete_expired` of core/dtn7/src/lib.rs.
use dtn7_rs.Prelude.{
  String, ◌≡◌, ◌≢◌, ◌⊎◌, refl, ap, subst, sym, ◌∙◌, Bool, true, false, not, List, [], ◌∷◌, Option,
  some, none, arith, ◌==◌, string_eq, eq_iff, ==_refl, Bool-cases, unwrap_or, inl, inr, In,
  In-filter, filter, if◌then◌else◌,
}
use dtn7_rs.Bp7.{Bp7}
use dtn7_rs.BundlePack.{BundlePack, Clock, deleted, has_constraint, has_expired, clear_constraints}
use dtn7_rs.BundlePack.Constraints.{has_constraint-add_constraint}
use dtn7_rs.Store.{BundleStore}
use dtn7_rs.Store.Spec.{Entry, unknown, stored, tombstone, view, removed, retire, Laws}
use dtn7_rs.GlobalStore.{delete_if_expired, delete_each_expired, store_delete_expired}

-- An entry of a bundle that is gone for good.
abbrev pub IsRetired : {E B : Type 0} → Entry E B → Type 0
IsRetired unknown = ⊥
IsRetired (stored _ _) = ⊥
IsRetired (tombstone bp) = has_constraint deleted bp ≡ true

retired-deleted : {E : Type 0} (bp : BundlePack E) → has_constraint deleted (retire bp) ≡ true
unfolding retire
retired-deleted bp = has_constraint-add_constraint (clear_constraints bp) deleted deleted

removed-IsRetired : {E B : Type 0} (x : Entry E B) → x ≢ unknown → IsRetired (removed x)
removed-IsRetired unknown h = absurd (h refl)
removed-IsRetired (stored b bp) h = retired-deleted bp
removed-IsRetired (tombstone bp) h = retired-deleted bp

IsRetired-removed : {E B : Type 0} (x : Entry E B) → IsRetired x → IsRetired (removed x)
IsRetired-removed unknown h = h
IsRetired-removed (stored b bp) h = absurd h
IsRetired-removed (tombstone bp) h = retired-deleted bp

module _ {E B S : Type 0} (bp7 : Bp7 E B) (st : BundleStore E B S) {Inv : S → Type 0}
    (laws : Laws bp7 st Inv) (clock : Clock) where
  delete_if_expired-Inv :
      (bp : BundlePack E) (s : S) → Inv s → Inv (delete_if_expired st clock bp s)
  unfolding delete_if_expired
  delete_if_expired-Inv bp s v = ground (arith, laws.remove_keeps bp.id s v)

  delete_each_expired-Inv :
      (bps : List (BundlePack E)) (s : S) → Inv s → Inv (delete_each_expired st clock bps s)
  unfolding delete_each_expired
  delete_each_expired-Inv [] s v = v
  delete_each_expired-Inv (bp ∷ bps) s v =
      delete_each_expired-Inv bps (delete_if_expired st clock bp s) (delete_if_expired-Inv bp s v)

  view-delete_if_expired :
      (bp : BundlePack E) (s : S) (k : String)
      → Inv s
      → view st (delete_if_expired st clock bp s) k ≡ (
          if has_expired clock bp
          then (if bp.id == k then removed (view st s k) else view st s k)
          else view st s k)
  unfolding delete_if_expired
  view-delete_if_expired bp s k v = ground (arith, laws.remove_view bp.id s k v)

  -- No bundle of this ID in the list has expired: its entry stays.
  view_kept :
      (bps : List (BundlePack E)) (s : S) (k : String)
      → Inv s
      → ((bp : BundlePack E) → In bp bps → bp.id ≡ k → has_expired clock bp ≡ false)
      → view st (delete_each_expired st clock bps s) k ≡ view st s k
  unfolding delete_each_expired
  view_kept [] s k v h = refl
  view_kept (bp ∷ bps) s k v h =
      view_kept bps (delete_if_expired st clock bp s) k (delete_if_expired-Inv bp s v)
        (λ q i. h q (inr i))
      ∙ ground (arith, view-delete_if_expired bp s k v, h bp (inl refl), eq_iff bp.id k)

  -- Once retired, an entry stays retired.
  IsRetired-kept :
      (bps : List (BundlePack E)) (s : S) (k : String)
      → Inv s
      → IsRetired (view st s k)
      → IsRetired (view st (delete_each_expired st clock bps s) k)
  unfolding delete_each_expired
  IsRetired-kept [] s k v h = h
  IsRetired-kept (bp ∷ bps) s k v h =
      IsRetired-kept bps (delete_if_expired st clock bp s) k (delete_if_expired-Inv bp s v) (
        subst IsRetired (sym (view-delete_if_expired bp s k v))
          (split (has_expired clock bp) (bp.id == k)))
    where
      split :
          (b c : Bool)
          → IsRetired
              (if b then (if c then removed (view st s k) else view st s k) else view st s k)
      split true true = IsRetired-removed (view st s k) h
      split true false = h
      split false c = h

  -- An expired bundle in the list retires the entry of its ID.
  expired-IsRetired :
      (bps : List (BundlePack E)) (s : S) (bp : BundlePack E)
      → Inv s
      → In bp bps
      → has_expired clock bp ≡ true
      → view st s bp.id ≢ unknown
      → IsRetired (view st (delete_each_expired st clock bps s) bp.id)
  unfolding delete_each_expired
  expired-IsRetired [] s bp v i x k = absurd i
  expired-IsRetired (q ∷ bps) s bp v (inl same) x k =
      IsRetired-kept bps (delete_if_expired st clock q s) bp.id (delete_if_expired-Inv q s v)
        (subst IsRetired (sym gone) (removed-IsRetired (view st s bp.id) k))
    where
      gone : view st (delete_if_expired st clock q s) bp.id ≡ removed (view st s bp.id)
      gone = rw same (view-delete_if_expired bp s bp.id v ∙ ground (arith, ==_refl bp.id))
  expired-IsRetired (q ∷ bps) s bp v (inr i) x k =
      expired-IsRetired bps (delete_if_expired st clock q s) bp (delete_if_expired-Inv q s v) i x
        (λ e. k (still (view st s bp.id) (sym (view-delete_if_expired q s bp.id v) ∙ e)))
    where
      still :
          (y : Entry E B)
          → (if has_expired clock q then (if q.id == bp.id then removed y else y) else y) ≡ unknown
          → y ≡ unknown
      still unknown e = refl
      still (stored b m) e = absurd (ground arith)
      still (tombstone m) e = absurd (ground arith)

  pub store_delete_expired-Inv : (s : S) → Inv s → Inv (store_delete_expired st clock s)
  unfolding store_delete_expired
  store_delete_expired-Inv s v =
      delete_each_expired-Inv (filter (λ bp. not (has_constraint deleted bp)) (st.bundles s)) s v

  -- An ID without metadata stays without.
  pub absent_kept :
      (s : S) (k : String)
      → Inv s
      → st.get_metadata k s ≡ none
      → view st (store_delete_expired st clock s) k ≡ view st s k
  unfolding store_delete_expired
  absent_kept s k v h =
      view_kept (filter (λ bp. not (has_constraint deleted bp)) (st.bundles s)) s k v λ q i same.
        let listed = ((In-filter (λ bp. not (has_constraint deleted bp)) q (st.bundles s)).0 i).0 in
        absurd (ground (arith, laws.bundles_sound s q v listed, same, h))

  -- For every entry with metadata: `store_delete_expired` turns it into a tombstone marked as
  -- deleted if the bundle has expired and was not marked as deleted, and leaves it as it was
  -- otherwise. It holds for every store that keeps the contract, from a well-formed state.
  pub store_delete_expired_lem :
      (s : S) (k : String) (bp : BundlePack E)
      → Inv s
      → st.get_metadata k s ≡ some bp
      → let t = store_delete_expired st clock s in
        ((has_constraint deleted bp ≡ false)
          × (has_expired clock bp ≡ true)
          × IsRetired (view st t k))
        ⊎ (((has_constraint deleted bp ≡ true) ⊎ (has_expired clock bp ≡ false))
            × (view st t k ≡ view st s k))
  unfolding store_delete_expired
  store_delete_expired_lem s k bp v found = elim (Bool-cases (has_constraint deleted bp)) [
    | inl dead ↦ inr (inl dead, kept (inl dead))
    | inr fresh ↦ elim (Bool-cases (has_expired clock bp)) [
      | inl old ↦ inl (fresh, old, gone fresh old)
      | inr young ↦ inr (inr young, kept (inr young))
    ]
  ]
    where
      live : BundlePack E → Bool
      live q = not (has_constraint deleted q)

      has_dead : BundlePack E → Bool
      has_dead q = has_constraint deleted q

      own : bp.id ≡ k
      own = laws.metadata_id k s bp v found

      present : st.get_metadata bp.id s ≡ some bp
      present = subst (λ j. st.get_metadata j s ≡ some bp) (sym own) found

      known : view st s bp.id ≢ unknown
      known e = ground (arith, present, e)

      gone :
          has_constraint deleted bp ≡ false
          → has_expired clock bp ≡ true
          → IsRetired (view st (delete_each_expired st clock (filter live (st.bundles s)) s) k)
      gone fresh old =
          subst
            (λ j.
              IsRetired (view st (delete_each_expired st clock (filter live (st.bundles s)) s) j))
            own
            (expired-IsRetired (filter live (st.bundles s)) s bp v
              ((In-filter live bp (st.bundles s)).1
                (laws.bundles_listed k s bp v found, ap not fresh))
              old known)

      kept :
          ((has_constraint deleted bp ≡ true) ⊎ (has_expired clock bp ≡ false))
          → view st (delete_each_expired st clock (filter live (st.bundles s)) s) k ≡ view st s k
      kept h = view_kept (filter live (st.bundles s)) s k v λ q i same.
          let (listed, fresh) = (In-filter live q (st.bundles s)).0 i in
          let sound = laws.bundles_sound s q v listed in
          unexpired q fresh (subst (λ j. st.get_metadata j s ≡ some q) same sound)
        where
          unexpired :
              (q : BundlePack E)
              → live q ≡ true
              → st.get_metadata k s ≡ some q
              → has_expired clock q ≡ false
          unexpired q fresh e =
              let same : q ≡ bp =
                ap (λ (o : Option (BundlePack E)). unwrap_or o bp) (sym e ∙ found) in
              rw same (elim h [
                | inl dead ↦ absurd (ground (arith, ap has_dead same))
                | inr young ↦ young
              ])
