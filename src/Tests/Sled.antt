-- ===== src/Tests/Sled.antt =====
-- Runs of the store on a database: core/dtn7/src/core/store/sled.rs.
use dtn7_rs.Prelude.{
  String, ◌≡◌, ◌↔◌, refl, Option, none, some, [], ◌∷◌, length, map, arith, string_eq,
}
use dtn7_rs.Map.{Map, lookup, contains_key}
use dtn7_rs.Map
use dtn7_rs.Map.Laws.{lookup-insert, lookup-remove}
use dtn7_rs.BundlePack.{BundlePack}
use dtn7_rs.Store.Sled.{Tree, Codec, SledBundleStore, panicked, get_bundle, get_metadata, remove}
use dtn7_rs.Store.Sled.Agreement.{IsMap, IsCodec, Agree}
use dtn7_rs.Store.Sled.Removal.{Simulates, Agree-Simulates, missing_panics}
use dtn7_rs.Tests.Sample.{Bundle, bp7, letter, pack, holding}

-- The serialized forms, which are as good as what they stand for.
data Serialized : Type 0 where
  of_bundle : Bundle → Serialized
  of_pack : BundlePack String → Serialized

abbrev bundle_of : Serialized → Option Bundle
bundle_of (of_bundle b) = some b
bundle_of (of_pack bp) = none

abbrev pack_of : Serialized → Option (BundlePack String)
pack_of (of_bundle b) = none
pack_of (of_pack bp) = some bp

abbrev codec : Codec Serialized String Bundle
codec = record {
  bundle_to_cbor = of_bundle;
  bundle_of_cbor = bundle_of;
  pack_to_cbor = of_pack;
  pack_of_cbor = pack_of;
}

codec-IsCodec : IsCodec codec
codec-IsCodec = record { bundle_back = λ b. refl; pack_back = λ bp. refl }

-- A database that meets no error.
abbrev tree : Tree Serialized (Map String Serialized)
tree = record {
  get = λ k t. some (lookup k t);
  contains_key = λ k t. some (contains_key k t);
  insert = λ k v t. some (Map.insert k v t);
  remove = λ k t. some (Map.remove k t);
  flush = λ t. some tt;
  len = length;
  keys = λ t. map some (Map.keys t);
  values = λ t. map some (Map.values t);
}

tree-IsMap : IsMap tree
tree-IsMap = record {
  read = λ t k. lookup k t;
  put = Map.insert;
  drop = Map.remove;
  get_lem = λ k t. refl;
  contains_key_lem = λ k t. refl;
  insert_lem = λ k v t. refl;
  remove_lem = λ k t. refl;
  flush_lem = λ t. refl;
  read-put = λ k j v t. lookup-insert k j v t;
  read-drop = λ k j t. lookup-remove k j t;
}

-- the letter and its pack, as in the store in memory
abbrev database : SledBundleStore (Map String Serialized)
database = record {
  bundles = ("a-1", of_bundle letter) ∷ [];
  metadata = ("a-1", of_pack pack) ∷ [];
}

database-Agree : Agree bp7 tree codec tree-IsMap codec-IsCodec database holding
unfolding lookup tree-IsMap
database-Agree = record { same_bundle = λ k. ground arith; same_metadata = λ k. ground arith }

Agree-Simulates_example : Simulates bp7 tree codec tree-IsMap codec-IsCodec database holding
Agree-Simulates_example =
    Agree-Simulates bp7 tree codec tree-IsMap codec-IsCodec database holding database-Agree

missing_panics_example :
    ((get_bundle tree codec "a-2" database ≡ panicked) ↔ (lookup "a-2" holding.bundles ≡ none))
    × ((get_metadata tree codec "a-2" database ≡ panicked) ↔ (lookup "a-2" holding.metadata ≡ none))
    × ((remove tree codec "a-2" database ≡ panicked) ↔ (lookup "a-2" holding.metadata ≡ none))
missing_panics_example =
    missing_panics bp7 tree codec tree-IsMap codec-IsCodec database holding "a-2" database-Agree
