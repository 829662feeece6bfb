-- ===== src/Store/Sled.antt =====
-- core/dtn7/src/core/store/sled.rs: bundles and their metadata as CBOR in two trees of the database
-- `sled`, whose operations may fail. The code unwraps what it looks up, so a call can panic.
pub mod Agreement
pub mod Simulation
pub mod Removal
use dtn7_rs.Prelude.{
  ℕ, String, Bool, true, false, not, ◌&&◌, ◌||◌, Option, none, some, List, [], ◌∷◌, map, all,
  filter, filter_map, if◌then◌else◌,
}
use dtn7_rs.Outcome.{
  Action, Result, ok, err, ◌>>=◌, proceed, bundle_not_in_store, bundle_metadata_already_in_store,
  database_error,
}
use dtn7_rs.Bp7.{Bp7}
use dtn7_rs.BundlePack.{
  BundlePack, Constraint, Clock, deleted, from_bundle, has_constraint, add_constraint,
  clear_constraints,
}
use dtn7_rs.Store.Mem.{is_pending}

-- `sled::Tree` over the type `T` of its contents and the type `V` of the byte strings that `to_cbor`
-- makes, which the store only hands on; `none` is an error of the database. `flush` does
-- not change what is read.
pub record Tree (V T : Type 0) : Type 0 where
  pub get : String → T → Option (Option V)
  pub contains_key : String → T → Option Bool
  pub insert : String → V → T → Option T
  pub remove : String → T → Option T
  pub flush : T → Option (Unit {0})
  pub len : T → ℕ
  pub keys : T → List (Option String)
  pub values : T → List (Option V)

-- `to_cbor` of bundles and packs, and how they are read back; `none` is an error.
pub record Codec (V E B : Type 0) : Type 0 where
  pub bundle_to_cbor : B → V
  pub bundle_of_cbor : V → Option B
  pub pack_to_cbor : BundlePack E → V
  pub pack_of_cbor : V → Option (BundlePack E)

pub record SledBundleStore (T : Type 0) : Type 0 where
  pub bundles : T
  pub metadata : T

-- A call that returns, or panics.
pub data Call (A : Type 0) : Type 0 where
  returned : A → Call A
  panicked : Call A

module _ {A : Type 0} where
  -- `unwrap()` and `expect()`
  abbrev pub unwrap : Option A → Call A
  unwrap none = panicked
  unwrap (some a) = returned a

module _ {A C : Type 0} where
  abbrev pub and_then : Call A → (A → Call C) → Call C
  and_then (returned a) f = f a
  and_then panicked f = panicked

module _ {V E B T : Type 0} (tree : Tree V T) (codec : Codec V E B) where
  -- `?` on a result of the database
  abbrev pub try :
      {A C : Type 0} → Option A → (A → Action (SledBundleStore T) C) → Action (SledBundleStore T) C
  try none f s = (err database_error, s)
  try (some a) f s = f a s

  abbrev pub insert_metadata : BundlePack E → Action (SledBundleStore T) (Unit {0})
  insert_metadata bp s =
      try (tree.insert bp.id (codec.pack_to_cbor bp) s.metadata)
        (λ t s. try (tree.flush t) (λ _ s. (ok tt, s)) (record s { metadata = t })) s

  abbrev pub insert_bundle : String → B → Action (SledBundleStore T) (Unit {0})
  insert_bundle bid b s =
      try (tree.insert bid (codec.bundle_to_cbor b) s.bundles)
        (λ t s. try (tree.flush t) (λ _ s. (ok tt, s)) (record s { bundles = t })) s

  -- `get(..).map(|b| decode(b.unwrap())).ok()`: an error of the database is no entry, a missing
  -- entry panics, and so does one that does not decode.
  abbrev pub decoded : {A : Type 0} → (V → Option A) → Option (Option V) → Call (Option A)
  decoded decode none = returned none
  decoded decode (some none) = panicked
  decoded decode (some (some bytes)) = and_then (unwrap (decode bytes)) (λ a. returned (some a))

  unfoldable pub get_bundle : String → SledBundleStore T → Call (Option B)
  get_bundle bpid s = decoded codec.bundle_of_cbor (tree.get bpid s.bundles)

  unfoldable pub get_metadata : String → SledBundleStore T → Call (Option (BundlePack E))
  get_metadata bpid s = decoded codec.pack_of_cbor (tree.get bpid s.metadata)

  abbrev pub push_new : BundlePack E → Bool → Action (SledBundleStore T) (Unit {0})
  push_new bp true s = (err bundle_metadata_already_in_store, s)
  push_new bp false s = insert_metadata bp s

  abbrev pub push_metadata : BundlePack E → Bool → Action (SledBundleStore T) (Unit {0})
  push_metadata bp true s = (ok tt, s)
  push_metadata bp false s = try (tree.contains_key bp.id s.metadata) (push_new bp) s

  unfoldable pub push : Bp7 E B → Clock → B → Action (SledBundleStore T) (Unit {0})
  push bp7 clock b s =
      try (tree.contains_key (bp7.bundle_id b) s.bundles)
        (λ stored.
          push_metadata (from_bundle bp7 clock b) stored >>= λ _. insert_bundle (bp7.bundle_id b) b)
        s

  abbrev pub update_known : BundlePack E → Bool → Action (SledBundleStore T) (Unit {0})
  update_known bp true s = insert_metadata bp s
  update_known bp false s = (err bundle_not_in_store, s)

  unfoldable pub update_metadata : BundlePack E → Action (SledBundleStore T) (Unit {0})
  update_metadata bp s = try (tree.contains_key bp.id s.metadata) (update_known bp) s

  -- The failure of the last `flush` is logged.
  abbrev pub remove_bundle : String → Action (SledBundleStore T) (Unit {0})
  remove_bundle bid s = try (tree.remove bid s.bundles) (λ t s. (ok tt, record s { bundles = t })) s

  abbrev pub remove_found : String → Option (BundlePack E) → Action (SledBundleStore T) (Unit {0})
  remove_found bid none s = remove_bundle bid s
  remove_found bid (some meta) s =
      proceed (update_metadata (add_constraint deleted (clear_constraints meta)) s)
        (λ _. remove_bundle bid)

  unfoldable pub remove : String → SledBundleStore T → Call (Result (Unit {0}) × SledBundleStore T)
  remove bid s = and_then (get_metadata bid s) (λ meta. returned (remove_found bid meta s))

  abbrev or_false : Option Bool → Bool
  or_false none = false
  or_false (some b) = b

  unfoldable pub count : SledBundleStore T → ℕ
  count s = tree.len s.bundles

  unfoldable pub all_ids : SledBundleStore T → List String
  all_ids s = filter_map (λ k. k) (tree.keys s.bundles)

  unfoldable pub has_item : String → SledBundleStore T → Bool
  has_item bid s = or_false (tree.contains_key bid s.bundles)

  unfoldable pub is_known : String → SledBundleStore T → Bool
  is_known bid s = or_false (tree.contains_key bid s.metadata)

  abbrev decode_all : List V → Call (List (BundlePack E))
  decode_all [] = returned []
  decode_all (bytes ∷ rest) =
      and_then (unwrap (codec.pack_of_cbor bytes))
        λ bp. and_then (decode_all rest) λ bps. returned (bp ∷ bps)

  unfoldable pub bundles : SledBundleStore T → Call (List (BundlePack E))
  bundles s = decode_all (filter_map (λ v. v) (tree.values s.metadata))

  unfoldable pub filter_constraints : List Constraint → SledBundleStore T → Call (List String)
  filter_constraints criteria s = and_then (bundles s) λ bps.
      returned (map (λ bp. bp.id) (filter (λ bp. all (λ c. has_constraint c bp) criteria) bps))

  unfoldable pub pending : SledBundleStore T → Call (List String)
  pending s = and_then (bundles s) λ bps. returned (map (λ bp. bp.id) (filter is_pending bps))
