-- ===== src/GlobalStore/Known.antt =====
-- Which bundles a store knows through a history: `store_add_bundle_if_unknown` of core/dtn7/src/lib.rs.
use dtn7_rs.Prelude.{
  String, ◌≡◌, subst, sym, true, false, List, [], ◌∷◌, arith, string_eq, ==_refl, Bool-cases, inl,
  inr,
}
use dtn7_rs.Outcome.{ok, after}
use dtn7_rs.Bp7.{Bp7}
use dtn7_rs.BundlePack.{BundlePack, Clock}
use dtn7_rs.Store.{BundleStore}
use dtn7_rs.Store.Spec.{Laws}
use dtn7_rs.GlobalStore.{store_add_bundle_if_unknown}

-- The operations that the program does on its store, as a history lists them.
pub data Op (E B : Type 0) : Type 0 where
  pushes : Clock → B → Op E B
  updates : BundlePack E → Op E B
  removes : String → Op E B
  adds_if_unknown : Clock → B → Op E B

module _ {E B S : Type 0} (bp7 : Bp7 E B) (st : BundleStore E B S) where
  unfoldable pub step : Op E B → S → S
  step (pushes c b) s = after (st.push c b) s
  step (updates bp) s = after (st.update_metadata bp) s
  step (removes k) s = after (st.remove k) s
  step (adds_if_unknown c b) s = after (store_add_bundle_if_unknown bp7 st c b) s

  pub run : List (Op E B) → S → S
  run [] s = s
  run (op ∷ ops) s = run ops (step op s)

module _ {E B S : Type 0} (bp7 : Bp7 E B) (st : BundleStore E B S) {Inv : S → Type 0}
    (laws : Laws bp7 st Inv) where
  pub add_new :
      (c : Clock) (b : B) (s : S)
      → Inv s
      → st.is_known (bp7.bundle_id b) s ≡ false
      → store_add_bundle_if_unknown bp7 st c b s ≡ (ok true, after (st.push c b) s)
  unfolding store_add_bundle_if_unknown
  add_new c b s v h = ground (
    arith,
    laws.known_view (bp7.bundle_id b) s v,
    laws.push_result c b s v (λ bp e. ground (arith, laws.known_view (bp7.bundle_id b) s v)),
  )

  pub add_known :
      (c : Clock) (b : B) (s : S)
      → st.is_known (bp7.bundle_id b) s ≡ true
      → store_add_bundle_if_unknown bp7 st c b s ≡ (ok false, s)
  unfolding store_add_bundle_if_unknown
  add_known c b s h = rw h

  step-Inv : (op : Op E B) (s : S) → Inv s → Inv (step bp7 st op s)
  unfolding step
  step-Inv (pushes c b) s v = laws.push_keeps c b s v
  step-Inv (updates bp) s v = laws.update_keeps bp s v
  step-Inv (removes k) s v = laws.remove_keeps k s v
  step-Inv (adds_if_unknown c b) s v = elim (Bool-cases (st.is_known (bp7.bundle_id b) s)) [
    | inl h ↦ subst (λ r. Inv r.1) (sym (add_known c b s h)) v
    | inr h ↦ subst (λ r. Inv r.1) (sym (add_new c b s v h)) (laws.push_keeps c b s v)
  ]

  pub step_known :
      (op : Op E B) (s : S) (k : String)
      → Inv s
      → st.is_known k s ≡ true
      → st.is_known k (step bp7 st op s) ≡ true
  unfolding step
  step_known (pushes c b) s k v h = laws.push_known c b s k v h
  step_known (updates bp) s k v h = ground (
    arith,
    laws.update_view bp s k v,
    laws.known_view k s v,
    laws.known_view k (after (st.update_metadata bp) s) (laws.update_keeps bp s v),
  )
  step_known (removes j) s k v h = ground (
    arith,
    laws.remove_view j s k v,
    laws.known_view k s v,
    laws.known_view k (after (st.remove j) s) (laws.remove_keeps j s v),
  )
  step_known (adds_if_unknown c b) s k v h = elim (Bool-cases (st.is_known (bp7.bundle_id b) s)) [
    | inl old ↦ subst (λ r. st.is_known k r.1 ≡ true) (sym (add_known c b s old)) h
    | inr new ↦
        subst (λ r. st.is_known k r.1 ≡ true) (sym (add_new c b s v new))
          (laws.push_known c b s k v h)
  ]

  run_known :
      (ops : List (Op E B)) (s : S) (k : String)
      → Inv s
      → st.is_known k s ≡ true
      → Inv (run bp7 st ops s) × (st.is_known k (run bp7 st ops s) ≡ true)
  unfolding run
  run_known [] s k v h = (v, h)
  run_known (op ∷ ops) s k v h =
      run_known ops (step bp7 st op s) k (step-Inv op s v) (step_known op s k v h)

  pushed-known :
      (c : Clock) (b : B) (s : S)
      → Inv s
      → st.is_known (bp7.bundle_id b) s ≡ false
      → st.is_known (bp7.bundle_id b) (after (st.push c b) s) ≡ true
  pushed-known c b s v h = ground (
    arith,
    laws.known_view (bp7.bundle_id b) s v,
    laws.known_view (bp7.bundle_id b) (after (st.push c b) s) (laws.push_keeps c b s v),
    laws.push_view c b s (bp7.bundle_id b) v
        (λ bp e. ground (arith, laws.known_view (bp7.bundle_id b) s v)),
    ==_refl (bp7.bundle_id b),
  )

  pub add-Inv :
      (c : Clock) (b : B) (s : S) → Inv s → Inv (after (store_add_bundle_if_unknown bp7 st c b) s)
  add-Inv c b s v = unfold step in step-Inv (adds_if_unknown c b) s v

  pub add-known :
      (c : Clock) (b : B) (s : S)
      → Inv s
      → st.is_known (bp7.bundle_id b) (after (store_add_bundle_if_unknown bp7 st c b) s) ≡ true
  add-known c b s v = elim (Bool-cases (st.is_known (bp7.bundle_id b) s)) [
    | inl old ↦
        subst (λ r. st.is_known (bp7.bundle_id b) r.1 ≡ true) (sym (add_known c b s old)) old
    | inr new ↦
        subst (λ r. st.is_known (bp7.bundle_id b) r.1 ≡ true) (sym (add_new c b s v new))
          (pushed-known c b s v new)
  ]

  -- After `store_add_bundle_if_unknown`, whatever is pushed, updated, removed or added since, the
  -- same ID is refused and the store is left as it is. It holds for every store that keeps the
  -- contract, from a well-formed state.
  pub accepted_once :
      (c d : Clock) (b b' : B) (ops : List (Op E B)) (s : S)
      → Inv s
      → bp7.bundle_id b' ≡ bp7.bundle_id b
      → let t = run bp7 st ops (after (store_add_bundle_if_unknown bp7 st c b) s) in
        store_add_bundle_if_unknown bp7 st d b' t ≡ (ok false, t)
  accepted_once c d b b' ops s v same =
      let u = after (store_add_bundle_if_unknown bp7 st c b) s in
      add_known d b' (run bp7 st ops u)
        (rw same (run_known ops u (bp7.bundle_id b) (add-Inv c b s v) (add-known c b s v)).1)
