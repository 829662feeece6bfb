-- ===== src/ApplicationAgent/Delivery.antt =====
-- How bundles wait for their client: core/dtn7/src/core/application_agent.rs.
use mathlib.Core.List.{append_assoc, append-nil}
use dtn7_rs.Prelude.{
  ℕ, String, not, ◌&&◌, ◌==◌, string_eq, if◌then◌else◌, zero, suc, ◌+◌, ◌≤◌, ◌<◌, ◌≡◌, ◌⊎◌, refl,
  sym, ap, subst, true, false, none, some, List, [], ◌∷◌, ◌++◌, arith, length, length-append,
  Bool-cases, inl, inr,
}
use dtn7_rs.Bp7.{Bp7}
use dtn7_rs.Store.{BundleStore}
use dtn7_rs.Store.Spec.{Laws, view, removed}
use dtn7_rs.GlobalStore.{store_remove_if_singleton_bundle}
use dtn7_rs.ApplicationAgent.{Channel, ApplicationAgent, can_send, push, pop}

module _ {E B S : Type 0} (bp7 : Bp7 E B) (st : BundleStore E B S) where
  pub push_all : List B → ApplicationAgent E B → S → ApplicationAgent E B × S
  push_all [] aa s = (aa, s)
  push_all (b ∷ bs) aa s = let (aa', s') = push bp7 st b aa s in push_all bs aa' s'

  -- As many calls of `pop` as there are units of fuel, with the bundles they return.
  pub drain : ℕ → ApplicationAgent E B → S → List B
  drain zero aa s = []
  drain (suc fuel) aa s =
      let (got, aa', s') = pop bp7 st aa s in
      let rest = drain fuel aa' s' in elim got [ none ↦ [] | some b ↦ b ∷ rest ]

  drain-bundles :
      (fuel : ℕ) (bs : List B) (aa : ApplicationAgent E B) (s : S)
      → aa.bundles ≡ bs
      → length bs ≤ fuel
      → drain fuel aa s ≡ bs
  unfolding drain pop
  drain-bundles zero [] aa s e h = refl
  drain-bundles zero (b ∷ bs) aa s e h = ground arith
  drain-bundles (suc fuel) [] aa s e h = ground (arith, e)
  drain-bundles (suc fuel) (b ∷ bs) aa s e h = ground (
    arith,
    e,
    drain-bundles fuel bs (record aa { bundles = bs })
        (store_remove_if_singleton_bundle bp7 st b s),
  )

  bundles-push_all :
      (bs : List B) (aa : ApplicationAgent E B) (s : S)
      → aa.delivery ≡ none
      → (push_all bs aa s).0 ≡ record aa { bundles = aa.bundles ++ bs }
  unfolding push_all push
  bundles-push_all [] aa s e = ap (λ bs. record aa { bundles = bs }) (sym (append-nil aa.bundles))
  bundles-push_all (b ∷ bs) aa s e =
      let m = record aa { bundles = aa.bundles ++ b ∷ [] } in
      ground (arith, e, bundles-push_all bs m s, append_assoc aa.bundles (b ∷ []) bs)

  -- Without a delivery channel, popping after any pushes returns what waited before and then the
  -- pushed bundles, in the order of the pushes and each once; as many pops as there are bundles
  -- are enough.
  pub drain-push_all :
      (bs : List B) (aa : ApplicationAgent E B) (s : S) (fuel : ℕ)
      → aa.delivery ≡ none
      → length aa.bundles + length bs ≤ fuel
      → let (aa', s') = push_all bs aa s in drain fuel aa' s' ≡ aa.bundles ++ bs
  drain-push_all bs aa s fuel e h =
      let m = push_all bs aa s in
      let same : m.0 ≡ record aa { bundles = aa.bundles ++ bs } = bundles-push_all bs aa s e in
      subst (λ (a : ApplicationAgent E B). drain fuel a m.1 ≡ aa.bundles ++ bs) (sym same)
        (drain-bundles fuel (aa.bundles ++ bs) (record aa { bundles = aa.bundles ++ bs }) m.1 refl
          (omega (arith, length-append aa.bundles bs)))

  -- With a delivery channel within its capacity: if the channel is open and has room, a pushed
  -- bundle goes to the client, as the last in its queue, and if it is for a single endpoint, its
  -- entry in the store becomes what a removal leaves; every other entry stays, and so does the
  -- own one of a bundle to a group. A channel that is full or closed leaves the store alone and
  -- the bundle waits in the agent. The queue never grows beyond its capacity. It holds for every
  -- store that keeps the contract, from a well-formed state.
  pub push-channel :
      {Inv : S → Type 0}
      → Laws bp7 st Inv
      → (b : B) (aa : ApplicationAgent E B) (c : Channel B) (s : S) (k : String) → Inv s
      → aa.delivery ≡ some c
      → length c.queued ≤ c.capacity
      → (d : Channel B) × ((push bp7 st b aa s).0.delivery ≡ some d)
        × (length d.queued ≤ d.capacity)
        × (((d.queued ≡ c.queued ++ b ∷ [])
              × ((push bp7 st b aa s).0.bundles ≡ aa.bundles)
              × (view st (push bp7 st b aa s).1 k ≡ (
                  if not (bp7.is_non_singleton (bp7.destination b)) && (bp7.bundle_id b == k)
                  then removed (view st s k)
                  else view st s k))
              × (c.closed ≡ false)
              × (length c.queued < c.capacity))
            ⊎ ((d ≡ c)
                × ((push bp7 st b aa s).0.bundles ≡ aa.bundles ++ b ∷ [])
                × ((push bp7 st b aa s).1 ≡ s)
                × ((c.closed ≡ true) ⊎ (c.capacity ≤ length c.queued))))
  unfolding push can_send store_remove_if_singleton_bundle
  push-channel laws b aa c s k v e h = elim (Bool-cases (can_send c)) [
    | inl free ↦ (
      record c { queued = c.queued ++ b ∷ [] },
      ground arith,
      ground (arith, length-append c.queued (b ∷ [])),
      inl (ground (arith, laws.remove_view (bp7.bundle_id b) s k v)),
    )
    | inr full ↦ (c, ground arith, h, inr (ground arith))
  ]
