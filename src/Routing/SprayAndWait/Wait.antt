-- ===== src/Routing/SprayAndWait/Wait.antt =====
-- What one request to the agent of core/dtn7/src/routing/sprayandwait.rs costs and yields.
use dtn7_rs.Prelude.{
  ℕ, ◌+◌, ◌≤◌, ◌<◌, String, ◌≡◌, ◌≢◌, ◌⊎◌, inl, inr, refl, sym, subst, Bool, true, false, some,
  List, [], ◌∷◌, arith, string_eq, eq_iff, ==_refl, length, length-append, Option-cases,
}
use dtn7_rs.Map
use dtn7_rs.Map.{lookup}
use dtn7_rs.Map.Laws.{lookup-insert}
use dtn7_rs.Bp7.{Bp7}
use dtn7_rs.BundlePack.{BundlePack}
use dtn7_rs.Peer.{DtnPeer, ClaInstance, ClaSenderTask, node_name, first_cla}
use dtn7_rs.Routing.{Senders}
use dtn7_rs.Routing.Epidemic.{is_destination}
use dtn7_rs.Routing.SprayAndWait.{
  SaWBundleData, Core, Round, wait_phase, spray_phase, offer, offer_all, handle_sender_for_bundle,
}
use dtn7_rs.Routing.SprayAndWait.Books.{offer_cases}

module _ {E B : Type 0} (bp7 : Bp7 E B) (agents : List ClaInstance) (bp : BundlePack E) where
  -- Each task so far cost a copy, or a direct delivery has taken over.
  abbrev pub Paid : ℕ → SaWBundleData → List (ClaSenderTask E) → Bool → Type 0
  Paid start meta clas delete_afterwards =
      ((delete_afterwards ≡ false) × (length clas + meta.remaining_copies ≡ start))
      ⊎ ((delete_afterwards ≡ true) × (length clas ≡ 1) × (meta.remaining_copies < 2))

  abbrev IsPaid : ℕ → Round E → Type 0
  IsPaid start r = Paid start r.meta r.clas r.delete_afterwards

  wait_phase-IsPaid :
      (start : ℕ) (p : DtnPeer E) (r : Round E)
      → r.meta.remaining_copies < 2
      → IsPaid start r
      → IsPaid start (wait_phase bp7 agents bp p r)
  unfolding wait_phase
  wait_phase-IsPaid start p r few v = ground arith

  spray_phase-IsPaid :
      (start : ℕ) (p : DtnPeer E) (r : Round E)
      → 2 ≤ r.meta.remaining_copies
      → IsPaid start r
      → IsPaid start (spray_phase bp7 agents p r)
  unfolding spray_phase
  spray_phase-IsPaid start p r many v = elim (Option-cases (first_cla agents p)) [
    | inl e ↦ ground arith
    | inr (cla, e) ↦ ground (arith, length-append r.clas (cla ∷ []))
  ]

  offer_all-IsPaid :
      (start : ℕ) (local_node : String) (peers : List (DtnPeer E)) (r : Round E)
      → IsPaid start r
      → IsPaid start (offer_all bp7 agents local_node bp peers r)
  unfolding offer_all
  offer_all-IsPaid start local_node [] r v = v
  offer_all-IsPaid start local_node (p ∷ peers) r v =
      offer_all-IsPaid start local_node peers (offer bp7 agents local_node bp p r) (
        offer_cases bp7 agents (IsPaid start) local_node bp p r v
          (λ _ few. wait_phase-IsPaid start p r few v)
          (λ _ many. spray_phase-IsPaid start p r many v))

  -- A request to the spray-and-wait agent for a known bundle either relays it, and then every
  -- task costs exactly one copy, or delivers it directly, and then with one task and no copies
  -- left to spread.
  pub request_costs :
      (peers : List (DtnPeer E)) (core : Core) (meta : SaWBundleData)
      → lookup bp.id core.history ≡ some meta
      → let (core', (clas, delete_afterwards)) =
          handle_sender_for_bundle bp7 agents bp peers core in
        (meta' : SaWBundleData) × (lookup bp.id core'.history ≡ some meta')
        × Paid meta.remaining_copies meta' clas delete_afterwards
  unfolding handle_sender_for_bundle
  request_costs peers core meta h = subst Holds (sym served) (
    r.meta,
    ground (arith, lookup-insert bp.id bp.id r.meta core.history, ==_refl bp.id),
    offer_all-IsPaid meta.remaining_copies core.local_node peers start (inl (refl, omega arith)),
  )
    where
      start : Round E
      start = record { meta = meta; clas = []; delete_afterwards = false }

      r : Round E
      r = offer_all bp7 agents core.local_node bp peers start

      Holds : Core × Senders E → Type 0
      Holds (core', (clas, delete_afterwards)) =
          (meta' : SaWBundleData) × (lookup bp.id core'.history ≡ some meta')
          × Paid meta.remaining_copies meta' clas delete_afterwards

      served : handle_sender_for_bundle bp7 agents bp peers core ≡ (
        record core { history = Map.insert bp.id r.meta core.history },
        (r.clas, r.delete_afterwards),
      )
      served = ground arith

module _ {E B : Type 0} (bp7 : Bp7 E B) (agents : List ClaInstance) (bp : BundlePack E) where
  -- Of two peers with different names, neither of them this host and both with a sender, the
  -- second one is the destination of a bundle with two copies left and none given out: the agent
  -- records the first one as having the bundle, and answers with the direct delivery alone.
  pub relay_recorded_unsent :
      (relay dest : DtnPeer E) (core : Core) (meta : SaWBundleData) (t u : ClaSenderTask E)
      (n m : String)
      → lookup bp.id core.history ≡ some meta
      → meta.remaining_copies ≡ 2
      → meta.nodes ≡ []
      → bp7.node_id relay.eid ≡ some n
      → bp7.node_id dest.eid ≡ some m
      → n ≢ core.local_node
      → m ≢ core.local_node
      → node_name bp7 relay ≢ node_name bp7 dest
      → first_cla agents relay ≡ some t
      → first_cla agents dest ≡ some u
      → is_destination bp7 bp dest ≡ true
      → handle_sender_for_bundle bp7 agents bp (relay ∷ dest ∷ []) core ≡ (
        record core {
          history =
              Map.insert bp.id
                (record { remaining_copies = 1; nodes = node_name bp7 relay ∷ [] })
                core.history;
        },
        (u ∷ [], true),
      )
  unfolding handle_sender_for_bundle offer_all offer wait_phase spray_phase
  relay_recorded_unsent relay dest core meta t u n m h two none_yet en em nl ml other et eu d =
      ground (
        arith,
        eq_iff n core.local_node,
        eq_iff m core.local_node,
        eq_iff (node_name bp7 relay) (node_name bp7 dest),
      )
