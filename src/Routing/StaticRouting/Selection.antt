-- ===== src/Routing/StaticRouting/Selection.antt =====
-- Which route the loop of core/dtn7/src/routing/static_routing.rs takes.
use dtn7_rs.Prelude.{
  ◌≡◌, ◌⊎◌, refl, ap, sym, subst, arith, Bool, true, false, not, String, none, some, List, [], ◌∷◌,
  ◌++◌, ◌==◌, string_eq, eq_iff, All, In, Option-cases, Bool-cases, inl, inr,
}
use dtn7_rs.Bp7.{Bp7}
use dtn7_rs.BundlePack.{BundlePack}
use dtn7_rs.Peer.{DtnPeer, ClaInstance, ClaSenderTask, first_cla}
use dtn7_rs.Routing.{Senders}
use dtn7_rs.Routing.StaticRouting.{StaticRouteEntry, via_peer, applies, static_senders}

module _ {E B : Type 0} (bp7 : Bp7 E B) (glob_match : String → String → Bool)
    (clas : List ClaInstance) (bp : BundlePack E) (peers : List (DtnPeer E)) where
  -- A route that does not apply, or whose next hop is no peer that can be sent to.
  abbrev pub IsUseless : StaticRouteEntry → Type 0
  IsUseless route =
      (applies bp7 glob_match bp route ≡ false)
      ⊎ All (λ p. (first_cla clas p ≡ none) ⊎ ((bp7.eid_to_string p.eid == route.via) ≡ false))
          peers

  -- The bundle goes over this task to a peer that is the next hop of the first route that is of use.
  abbrev pub IsTaken : List StaticRouteEntry → ClaSenderTask E → Type 0
  IsTaken routes cla =
      (before : List StaticRouteEntry) × (route : StaticRouteEntry) × (rest : List StaticRouteEntry)
      × (p : DtnPeer E) × (routes ≡ before ++ route ∷ rest)
      × All IsUseless before
      × (applies bp7 glob_match bp route ≡ true)
      × In p peers
      × (bp7.eid_to_string p.eid ≡ route.via)
      × (first_cla clas p ≡ some cla)

  abbrev pub Answer : List StaticRouteEntry → Senders E → Type 0
  Answer routes answer =
      ((answer ≡ ([], false)) × All IsUseless routes)
      ⊎ ((cla : ClaSenderTask E) × (answer ≡ (cla ∷ [], not (bp7.is_non_singleton bp.destination)))
          × IsTaken routes cla)

module _ {E B : Type 0} (bp7 : Bp7 E B) (clas : List ClaInstance) where
  via_peer-none :
      (via : String) (peers : List (DtnPeer E))
      → via_peer bp7 clas via peers ≡ none
      → All (λ p. (first_cla clas p ≡ none) ⊎ ((bp7.eid_to_string p.eid == via) ≡ false)) peers
  unfolding via_peer
  via_peer-none via [] h = tt
  via_peer-none via (q ∷ peers) h = elim (Option-cases (first_cla clas q)) [
    | inl e ↦ (inl e, via_peer-none via peers (ground arith))
    | inr (t, e) ↦ (inr (ground arith), via_peer-none via peers (ground arith))
  ]

  via_peer-some :
      (via : String) (peers : List (DtnPeer E)) (cla : ClaSenderTask E)
      → via_peer bp7 clas via peers ≡ some cla
      → (p : DtnPeer E) × In p peers
        × (bp7.eid_to_string p.eid ≡ via)
        × (first_cla clas p ≡ some cla)
  unfolding via_peer
  via_peer-some via [] cla h = absurd (ground arith)
  via_peer-some via (q ∷ peers) cla h = elim (Option-cases (first_cla clas q)) [
    | inl e ↦ let (p, i, n, c) = via_peer-some via peers cla (ground arith) in (p, inr i, n, c)
    | inr (t, e) ↦ elim (Bool-cases (bp7.eid_to_string q.eid == via)) [
      | inl hit ↦ (q, inl refl, (eq_iff (bp7.eid_to_string q.eid) via).0 hit, ground arith)
      | inr miss ↦ let (p, i, n, c) = via_peer-some via peers cla (ground arith) in (p, inr i, n, c)
    ]
  ]

module _ {E B : Type 0} (bp7 : Bp7 E B) (glob_match : String → String → Bool)
    (clas : List ClaInstance) (bp : BundlePack E) (peers : List (DtnPeer E)) where
  -- A route that is of no use does not matter.
  skip :
      (route : StaticRouteEntry) (routes : List StaticRouteEntry) (answer : Senders E)
      → IsUseless bp7 glob_match clas bp peers route
      → Answer bp7 glob_match clas bp peers routes answer
      → Answer bp7 glob_match clas bp peers (route ∷ routes) answer
  skip route routes answer u (inl (e, us)) = inl (e, (u, us))
  skip route routes answer u (inr (cla, e, (before, r, rest, p, q, us, a, i, n, c))) =
      inr (cla, e, (route ∷ before, r, rest, p, ap (λ rs. route ∷ rs) q, (u, us), a, i, n, c))

  -- The static agent answers for a bundle either with no task, and then no route applies and
  -- leads to a peer that can be sent to; or with one task, to a peer that is the next hop of the
  -- first route of that kind, with deletion afterwards exactly for a bundle to a single endpoint.
  pub static_senders-Answer :
      (routes : List StaticRouteEntry)
      → Answer bp7 glob_match clas bp peers routes
          (static_senders bp7 glob_match clas bp peers routes)
  unfolding static_senders
  static_senders-Answer [] = inl (refl, tt)
  static_senders-Answer (route ∷ routes) =
      let answer = static_senders bp7 glob_match clas bp peers in
      let later = skip route routes (answer routes) in
      let rest = static_senders-Answer routes in
      elim (Bool-cases (applies bp7 glob_match bp route)) [
        | inl hit ↦ elim (Option-cases (via_peer bp7 clas route.via peers)) [
          | inl e ↦
              let same : answer (route ∷ routes) ≡ answer routes = ground arith in
              subst (Answer bp7 glob_match clas bp peers (route ∷ routes)) (sym same)
                (later (inr (via_peer-none bp7 clas route.via peers e)) rest)
          | inr (cla, e) ↦
              let (p, i, n, c) = via_peer-some bp7 clas route.via peers cla e in
              let taken : answer (route ∷ routes)
                  ≡ (cla ∷ [], not (bp7.is_non_singleton bp.destination)) =
                ground arith in
              inr (cla, taken, ([], route, routes, p, refl, tt, hit, i, n, c))
        ]
        | inr miss ↦
            let same : answer (route ∷ routes) ≡ answer routes = ground arith in
            subst (Answer bp7 glob_match clas bp peers (route ∷ routes)) (sym same)
              (later (inl miss) rest)
      ]
