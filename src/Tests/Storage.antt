-- ===== src/Tests/Storage.antt =====
-- Runs of the store and of the metadata: core/dtn7/src/core/store/ and core/dtn7/src/core/bundlepack.rs.
use dtn7_rs.Prelude.{String, ◌≡◌, ◌⊎◌, refl, true, false, [], some, ◌^◌, ◌-◌, arith, string_eq}
use dtn7_rs.Map.{lookup, Map}
use dtn7_rs.Map
use dtn7_rs.Outcome.{after}
use dtn7_rs.BundlePack.{BundlePack, deleted, has_constraint, has_expired, from_bundle}
use dtn7_rs.BundlePack.Expiry.{has_expired_wraps}
use dtn7_rs.Store.Spec.{Laws, view}
use dtn7_rs.Store.Mem.{InMemoryBundleStore, mem_store, push}
use dtn7_rs.Store.Mem
use dtn7_rs.Store.Mem.Invariant.{IsWellFormed, new-IsWellFormed, push-IsWellFormed}
use dtn7_rs.Store.Mem.Refinement.{mem_store-Laws}
use dtn7_rs.GlobalStore.{store_delete_expired}
use dtn7_rs.GlobalStore.Cleanup.{IsRetired, store_delete_expired_lem}
use dtn7_rs.Tests.Sample.{bp7, noon, letter, pack, Bundle}

mem_store-Laws_example : Laws bp7 (mem_store bp7) (IsWellFormed bp7)
mem_store-Laws_example = mem_store-Laws bp7

-- the letter, just pushed
abbrev pushed_store : InMemoryBundleStore String Bundle
pushed_store = after (push bp7 noon letter) Mem.new

pushed-IsWellFormed : IsWellFormed bp7 pushed_store
pushed-IsWellFormed = push-IsWellFormed bp7 noon letter Mem.new (new-IsWellFormed bp7)

abbrev fresh_pack : BundlePack String
fresh_pack = record pack { constraints = [] }

found : (mem_store bp7).get_metadata "a-1" pushed_store ≡ some fresh_pack
unfolding push Mem.new lookup Map.insert from_bundle
found = refl

store_delete_expired_lem_example :
    let t = store_delete_expired (mem_store bp7) noon pushed_store in
    ((has_constraint deleted fresh_pack ≡ false)
      × (has_expired noon fresh_pack ≡ true)
      × IsRetired (view (mem_store bp7) t "a-1"))
    ⊎ (((has_constraint deleted fresh_pack ≡ true) ⊎ (has_expired noon fresh_pack ≡ false))
        × (view (mem_store bp7) t "a-1" ≡ view (mem_store bp7) pushed_store "a-1"))
store_delete_expired_lem_example =
    store_delete_expired_lem bp7 (mem_store bp7) (mem_store-Laws bp7) noon pushed_store "a-1"
      fresh_pack pushed-IsWellFormed found

-- a lifetime that the sum of times cannot hold
abbrev endless : BundlePack String
endless = record pack { lifetime = 2 ^ 64 - 500 }

has_expired_wraps_example : has_expired noon endless ≡ true
has_expired_wraps_example =
    has_expired_wraps noon endless (λ e. omega (arith, e)) (omega arith) (omega arith) (omega arith)
      (omega arith)
