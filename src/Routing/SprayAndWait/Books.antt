-- ===== src/Routing/SprayAndWait/Books.antt =====
-- The books of a bundle in core/dtn7/src/routing/sprayandwait.rs: the copies left and the nodes that have
-- one, through the loop of `handle_sender_for_bundle`.
use text.Mathlib.Text.{starts_with}
use dtn7_rs.Prelude.{
  ℕ, ◌+◌, ◌-◌, ◌≤◌, ◌<◌, String, ◌≡◌, ◌⊎◌, inl, inr, refl, sym, subst, Bool, false, not, ◌||◌, some,
  List, [], ◌∷◌, ◌++◌, arith, ◌==◌, string_eq, eq_iff, ltb, length, length-append, length-filter-le,
  filter, any, Option-cases, Bool-cases, if◌then◌else◌,
}
use dtn7_rs.Map.{lookup}
use dtn7_rs.Bp7.{Bp7}
use dtn7_rs.BundlePack.{BundlePack}
use dtn7_rs.Peer.{DtnPeer, ClaInstance, node_name, first_cla}
use dtn7_rs.Routing.SprayAndWait.{
  SaWBundleData, Core, take_back, Round, wait_phase, spray_phase, offer, offer_all,
}

-- The copies that a bundle starts with here: `l` for one of this host's own, one for any other.
abbrev pub budget : Core → String → ℕ
budget core bid = if starts_with bid core.local_node then core.l else 1

-- The names in a list are distinct.
abbrev pub Distinct : List String → Type 0
Distinct [] = Unit
Distinct (n ∷ ns) = (any (λ m. m == n) ns ≡ false) × Distinct ns

-- The books of one bundle: every copy is left or with a node, and no node is listed twice.
pub record Balanced (total : ℕ) (meta : SaWBundleData) : Type 0 where
  pub sum : meta.remaining_copies + length meta.nodes ≡ total
  pub some_left : (total ≡ 0) ⊎ (0 < meta.remaining_copies)
  pub once : Distinct meta.nodes

pub record IsBalanced (core : Core) : Type 0 where
  pub books :
      (bid : String) (meta : SaWBundleData)
      → lookup bid core.history ≡ some meta
      → Balanced (budget core bid) meta

Distinct-filter : (p : String → Bool) (ns : List String) → Distinct ns → Distinct (filter p ns)
Distinct-filter p [] d = tt
Distinct-filter p (n ∷ ns) d = ground (arith, Distinct-filter p ns d.1, absent n ns d.0)
  where
    absent :
        (n : String) (ns : List String)
        → any (λ m. m == n) ns ≡ false
        → any (λ m. m == n) (filter p ns) ≡ false
    absent n [] h = refl
    absent n (m ∷ ms) h = ground (arith, absent n ms)

Distinct-append :
    (ns : List String) (n : String)
    → Distinct ns
    → any (λ m. m == n) ns ≡ false
    → Distinct (ns ++ n ∷ [])
Distinct-append [] n d h = (refl, tt)
Distinct-append (m ∷ ms) n d h =
    ground (arith, Distinct-append ms n d.1, absent ms d.0, eq_iff m n, eq_iff n m)
  where
    absent :
        (ms : List String)
        → any (λ k. k == m) ms ≡ false
        → any (λ k. k == m) (ms ++ n ∷ []) ≡ (n == m)
    absent [] h = ground arith
    absent (k ∷ ks) h = ground (arith, absent ks)

pub take_back-Balanced :
    (total : ℕ) (name : String) (meta : SaWBundleData)
    → Balanced total meta
    → Balanced total (take_back name meta)
unfolding take_back
take_back-Balanced total name meta b = record {
  sum = omega (arith, b.sum, length-filter-le (λ n. not (n == name)) meta.nodes);
  some_left = ground (arith, b.some_left);
  once = Distinct-filter (λ n. not (n == name)) meta.nodes b.once;
}

abbrev hand_out : String → SaWBundleData → SaWBundleData
hand_out name meta = record {
  remaining_copies = meta.remaining_copies - 1;
  nodes = meta.nodes ++ name ∷ [];
}

pub hand_out-Balanced :
    (total : ℕ) (name : String) (meta : SaWBundleData)
    → any (λ n. n == name) meta.nodes ≡ false
    → 2 ≤ meta.remaining_copies
    → Balanced total meta
    → Balanced total (hand_out name meta)
hand_out-Balanced total name meta fresh left b = record {
  sum = omega (arith, b.sum, length-append meta.nodes (name ∷ []));
  some_left = inr (omega arith);
  once = Distinct-append meta.nodes name b.once fresh;
}

module _ {E B : Type 0} (bp7 : Bp7 E B) (agents : List ClaInstance) where
  wait_phase-meta :
      (bp : BundlePack E) (p : DtnPeer E) (r : Round E)
      → (wait_phase bp7 agents bp p r).meta ≡ r.meta
  unfolding wait_phase
  wait_phase-meta bp p r = ground arith

  spray_phase-Balanced :
      (total : ℕ) (p : DtnPeer E) (r : Round E)
      → any (λ n. n == node_name bp7 p) r.meta.nodes ≡ false
      → 2 ≤ r.meta.remaining_copies
      → Balanced total r.meta
      → Balanced total (spray_phase bp7 agents p r).meta
  unfolding spray_phase
  spray_phase-Balanced total p r new_node left b = elim (Option-cases (first_cla agents p)) [
    | inl e ↦
        let unchanged : spray_phase bp7 agents p r ≡ r = ground arith in
        subst (λ t. Balanced total t.meta) (sym unchanged) b
    | inr (cla, e) ↦
        let handed : (spray_phase bp7 agents p r).meta ≡ hand_out (node_name bp7 p) r.meta =
          ground arith in
        subst (Balanced total) (sym handed)
          (hand_out-Balanced total (node_name bp7 p) r.meta new_node left b)
  ]

  -- What a peer can make of a round: nothing, or one of the two phases under its conditions.
  pub offer_cases {ℓ} :
      (P : Round E → Type ℓ) (local_node : String) (bp : BundlePack E) (p : DtnPeer E) (r : Round E)
      → P r
      → (any (λ n. n == node_name bp7 p) r.meta.nodes ≡ false
          → r.meta.remaining_copies < 2
          → P (wait_phase bp7 agents bp p r))
      → (any (λ n. n == node_name bp7 p) r.meta.nodes ≡ false
          → 2 ≤ r.meta.remaining_copies
          → P (spray_phase bp7 agents p r))
      → P (offer bp7 agents local_node bp p r)
  unfolding offer
  offer_cases P local_node bp p r same waits sprays = elim (Option-cases (bp7.node_id p.eid)) [
    | inl e ↦ go r (ground arith) same
    | inr (id, e) ↦
        elim (Bool-cases (id == local_node || any (λ n. n == node_name bp7 p) r.meta.nodes)) [
          | inl skip ↦ go r (ground arith) same
          | inr serve ↦ elim (Bool-cases (ltb r.meta.remaining_copies 2)) [
            | inl few ↦
                go (wait_phase bp7 agents bp p r) (ground arith)
                  (waits (ground arith) (ground arith))
            | inr many ↦
                go (spray_phase bp7 agents p r) (ground arith)
                  (sprays (ground arith) (ground arith))
          ]
        ]
  ]
    where
      go :
          (t : Round E)
          → offer bp7 agents local_node bp p r ≡ t
          → P t
          → P (offer bp7 agents local_node bp p r)
      go t e k = subst P (sym e) k

  offer-Balanced :
      (total : ℕ) (local_node : String) (bp : BundlePack E) (p : DtnPeer E) (r : Round E)
      → Balanced total r.meta
      → Balanced total (offer bp7 agents local_node bp p r).meta
  offer-Balanced total local_node bp p r b =
      offer_cases (λ t. Balanced total t.meta) local_node bp p r b
        (λ _ _. subst (Balanced total) (sym (wait_phase-meta bp p r)) b)
        (λ fresh many. spray_phase-Balanced total p r fresh many b)

  pub offer_all-Balanced :
      (total : ℕ) (local_node : String) (bp : BundlePack E) (peers : List (DtnPeer E)) (r : Round E)
      → Balanced total r.meta
      → Balanced total (offer_all bp7 agents local_node bp peers r).meta
  unfolding offer_all
  offer_all-Balanced total local_node bp [] r b = b
  offer_all-Balanced total local_node bp (p ∷ peers) r b =
      offer_all-Balanced total local_node bp peers (offer bp7 agents local_node bp p r)
        (offer-Balanced total local_node bp p r b)
