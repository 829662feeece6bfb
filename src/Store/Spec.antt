-- ===== src/Store/Spec.antt =====
-- The contract of `BundleStore` (core/dtn7/src/core/store/mod.rs): for each bundle ID a store holds
-- nothing, a bundle with its metadata, or the metadata of a bundle that is gone.
use dtn7_rs.Prelude.{
  String, ◌≡◌, ◌≢◌, Bool, true, false, Option, none, some, ◌==◌, string_eq, In, if◌then◌else◌,
}
use dtn7_rs.Outcome.{Result, ok, err, after, bundle_not_in_store}
use dtn7_rs.Bp7.{Bp7}
use dtn7_rs.BundlePack.{BundlePack, Clock, deleted, from_bundle, add_constraint, clear_constraints}
use dtn7_rs.Store.{BundleStore}

pub data Entry (E B : Type 0) : Type 0 where
  unknown : Entry E B
  stored : B → BundlePack E → Entry E B
  tombstone : BundlePack E → Entry E B

-- The metadata that stays behind a removed bundle.
unfoldable pub retire : {E : Type 0} → BundlePack E → BundlePack E
retire bp = add_constraint deleted (clear_constraints bp)

module _ {E B : Type 0} where
  abbrev pub entry_of : Option B → Option (BundlePack E) → Entry E B
  entry_of b none = unknown
  entry_of none (some bp) = tombstone bp
  entry_of (some b) (some bp) = stored b bp

  abbrev pub is_known_entry : Entry E B → Bool
  is_known_entry unknown = false
  is_known_entry _ = true

  -- What pushing a bundle does to its own entry: new metadata, unless a bundle is already there.
  abbrev pub pushed : B → BundlePack E → Entry E B → Entry E B
  pushed b fresh unknown = stored b fresh
  pushed b fresh (stored _ bp) = stored b bp
  pushed b fresh (tombstone _) = stored b fresh

  abbrev pub updated : BundlePack E → Entry E B → Entry E B
  updated bp unknown = unknown
  updated bp (stored b _) = stored b bp
  updated bp (tombstone _) = tombstone bp

  abbrev pub updated_result : Entry E B → Result (Unit {0})
  updated_result unknown = err bundle_not_in_store
  updated_result _ = ok tt

  abbrev pub removed : Entry E B → Entry E B
  removed unknown = unknown
  removed (stored _ bp) = tombstone (retire bp)
  removed (tombstone bp) = tombstone (retire bp)

module _ {E B S : Type 0} (st : BundleStore E B S) where
  -- The entry that a store holds for an ID.
  abbrev pub view : S → String → Entry E B
  view s k = entry_of (st.get_bundle k s) (st.get_metadata k s)

-- What the program relies on, for the states in `Inv`. Pushing over a tombstone is left open: the
-- implementations differ there.
pub record Laws {E B S : Type 0} (bp7 : Bp7 E B) (st : BundleStore E B S) (Inv : S → Type 0)
    : Type 0 where
  pub push_keeps : (c : Clock) (b : B) (s : S) → Inv s → Inv (after (st.push c b) s)
  pub update_keeps : (bp : BundlePack E) (s : S) → Inv s → Inv (after (st.update_metadata bp) s)
  pub remove_keeps : (k : String) (s : S) → Inv s → Inv (after (st.remove k) s)
  pub known_view : (k : String) (s : S) → Inv s → st.is_known k s ≡ is_known_entry (view st s k)
  pub metadata_id :
      (k : String) (s : S) (bp : BundlePack E) → Inv s → st.get_metadata k s ≡ some bp → bp.id ≡ k
  pub bundles_listed :
      (k : String) (s : S) (bp : BundlePack E)
      → Inv s
      → st.get_metadata k s ≡ some bp
      → In bp (st.bundles s)
  pub bundles_sound :
      (s : S) (bp : BundlePack E) → Inv s → In bp (st.bundles s) → st.get_metadata bp.id s ≡ some bp
  pub push_known :
      (c : Clock) (b : B) (s : S) (k : String)
      → Inv s
      → st.is_known k s ≡ true
      → st.is_known k (after (st.push c b) s) ≡ true
  pub push_view :
      (c : Clock) (b : B) (s : S) (k : String)
      → Inv s
      → ((bp : BundlePack E) → view st s (bp7.bundle_id b) ≢ tombstone bp)
      → view st (after (st.push c b) s) k ≡ (
          if bp7.bundle_id b == k
          then pushed b (from_bundle bp7 c b) (view st s k)
          else view st s k)
  pub push_result :
      (c : Clock) (b : B) (s : S)
      → Inv s
      → ((bp : BundlePack E) → view st s (bp7.bundle_id b) ≢ tombstone bp)
      → (st.push c b s).0 ≡ ok tt
  pub update_view :
      (bp : BundlePack E) (s : S) (k : String)
      → Inv s
      → view st (after (st.update_metadata bp) s) k
        ≡ (if bp.id == k then updated bp (view st s k) else view st s k)
  pub update_result :
      (bp : BundlePack E) (s : S)
      → Inv s
      → (st.update_metadata bp s).0 ≡ updated_result (view st s bp.id)
  pub remove_view :
      (j : String) (s : S) (k : String)
      → Inv s
      → view st (after (st.remove j) s) k ≡ (if j == k then removed (view st s k) else view st s k)
  pub remove_result :
      (j : String) (s : S) (b : B) (bp : BundlePack E)
      → Inv s
      → view st s j ≡ stored b bp
      → (st.remove j s).0 ≡ ok tt
