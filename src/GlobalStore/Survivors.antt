-- ===== src/GlobalStore/Survivors.antt =====
-- The metadata that `store_delete_expired` of core/dtn7/src/lib.rs leaves unmarked.
use dtn7_rs.Prelude.{
  String, ◌≡◌, ◌↔◌, sym, ap, ◌∙◌, true, false, Option, none, some, arith, string_eq, inl, inr,
  Option-cases,
}
use dtn7_rs.Bp7.{Bp7}
use dtn7_rs.BundlePack.{BundlePack, Clock, deleted, has_constraint, has_expired}
use dtn7_rs.Store.{BundleStore}
use dtn7_rs.Store.Spec.{Entry, unknown, stored, tombstone, entry_of, view, Laws}
use dtn7_rs.GlobalStore.{store_delete_expired}
use dtn7_rs.GlobalStore.Cleanup.{IsRetired, absent_kept, store_delete_expired_lem}

abbrev meta_of : {E B : Type 0} → Entry E B → Option (BundlePack E)
meta_of unknown = none
meta_of (stored b bp) = some bp
meta_of (tombstone bp) = some bp

meta_of-entry_of :
    {E B : Type 0} (b : Option B) (m : Option (BundlePack E)) → meta_of (entry_of b m) ≡ m
meta_of-entry_of b m = ground arith

IsRetired-deleted :
    {E B : Type 0} (x : Entry E B) (bp : BundlePack E)
    → IsRetired x
    → meta_of x ≡ some bp
    → has_constraint deleted bp ≡ true
IsRetired-deleted unknown bp h e = absurd h
IsRetired-deleted (stored b m) bp h e = absurd h
IsRetired-deleted (tombstone m) bp h e = ground arith

module _ {E B S : Type 0} (bp7 : Bp7 E B) (st : BundleStore E B S) {Inv : S → Type 0}
    (laws : Laws bp7 st Inv) (clock : Clock) where
  same_metadata :
      (s t : S) (k : String) → view st t k ≡ view st s k → st.get_metadata k t ≡ st.get_metadata k s
  same_metadata s t k e =
      sym (meta_of-entry_of (st.get_bundle k t) (st.get_metadata k t))
      ∙ (ap meta_of e ∙ meta_of-entry_of (st.get_bundle k s) (st.get_metadata k s))

  -- The metadata that is not marked as deleted after the cleanup is the metadata that was not
  -- before, of the bundles that have not expired.
  pub survivors :
      (s : S) (k : String) (bp : BundlePack E)
      → Inv s
      → ((st.get_metadata k (store_delete_expired st clock s) ≡ some bp)
          × (has_constraint deleted bp ≡ false))
        ↔ ((st.get_metadata k s ≡ some bp)
            × (has_constraint deleted bp ≡ false)
            × (has_expired clock bp ≡ false))
  survivors s k bp v = (to, from)
    where
      t : S
      t = store_delete_expired st clock s

      to :
          (st.get_metadata k t ≡ some bp) × (has_constraint deleted bp ≡ false)
          → (st.get_metadata k s ≡ some bp)
            × (has_constraint deleted bp ≡ false)
            × (has_expired clock bp ≡ false)
      to (found, fresh) = elim (Option-cases (st.get_metadata k s)) [
        | inl e ↦
            absurd (
              ground (arith, same_metadata s t k (absent_kept bp7 st laws clock s k v e), found, e))
        | inr (m, e) ↦ elim (store_delete_expired_lem bp7 st laws clock s k m v e) [
          | inl (_, _, gone) ↦
              let marked =
                IsRetired-deleted (view st t k) bp gone
                  (meta_of-entry_of (st.get_bundle k t) (st.get_metadata k t) ∙ found) in
              absurd (ground (arith, marked, fresh))
          | inr (reason, e') ↦
              let here : st.get_metadata k s ≡ some bp = sym (same_metadata s t k e') ∙ found in
              let same : some m ≡ some bp = sym e ∙ here in
              (here, fresh, ground (arith, reason, same, fresh))
        ]
      ]

      from :
          (st.get_metadata k s ≡ some bp)
            × (has_constraint deleted bp ≡ false)
            × (has_expired clock bp ≡ false)
          → (st.get_metadata k t ≡ some bp) × (has_constraint deleted bp ≡ false)
      from (found, fresh, young) =
          elim (store_delete_expired_lem bp7 st laws clock s k bp v found) [
            | inl (_, old, _) ↦ absurd (ground (arith, old, young))
            | inr (_, e) ↦ (same_metadata s t k e ∙ found, fresh)
          ]
