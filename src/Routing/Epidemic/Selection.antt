-- ===== src/Routing/Epidemic/Selection.antt =====
-- Whom the epidemic agent of core/dtn7/src/routing/epidemic.rs selects, against a description without
-- a loop.
use dtn7_rs.Prelude.{
  String, ◌≡◌, inl, inr, refl, ◌∙◌, Bool, true, false, ◌&&◌, Option, none, some, List, [], ◌∷◌,
  ◌++◌, arith, string_eq, find, filter_map, is_some, subst, In-filter_map-to, Option-cases,
  Bool-cases, In, if◌then◌else◌,
}
use mathlib.Core.List.{append-nil, append_assoc}
use dtn7_rs.Bp7.{Bp7}
use dtn7_rs.BundlePack.{BundlePack}
use dtn7_rs.Peer.{DtnPeer, ClaInstance, ClaSenderTask, node_name, first_cla}
use dtn7_rs.Routing.Epidemic.{Core, contains, is_destination, select}

module _ {E B : Type 0} (bp7 : Bp7 E B) (clas : List ClaInstance) (core : Core)
    (bp : BundlePack E) where
  -- A peer that can be sent to and does not have the bundle.
  pub candidate : DtnPeer E → Option (String × ClaSenderTask E)
  candidate p = elim (first_cla clas p) [
    | none ↦ none
    | some cla ↦ if contains bp.id (node_name bp7 p) core then none else some (node_name bp7 p, cla)
  ]

  pub is_direct : DtnPeer E → Bool
  is_direct p = is_some (candidate p) && is_destination bp7 bp p

  -- The destination alone if it is a candidate, and otherwise every candidate.
  pub choice : List (DtnPeer E) → List (String × ClaSenderTask E) × Bool
  choice peers = elim (find is_direct peers) [
    | some p ↦ (filter_map candidate (p ∷ []), true)
    | none ↦ (filter_map candidate peers, false)
  ]

  prefixed :
      List (String × ClaSenderTask E)
      → List (String × ClaSenderTask E) × Bool
      → List (String × ClaSenderTask E) × Bool
  prefixed selected (chosen, true) = (chosen, true)
  prefixed selected (chosen, false) = (selected ++ chosen, false)

  select-prefixed :
      (peers : List (DtnPeer E)) (selected : List (String × ClaSenderTask E))
      → select bp7 clas core bp peers selected ≡ prefixed selected (choice peers)
  unfolding select choice prefixed is_direct candidate
  select-prefixed [] selected = ground (arith, append-nil selected)
  select-prefixed (p ∷ peers) selected = elim (Option-cases (first_cla clas p)) [
    | inl e ↦ ground (arith, select-prefixed peers selected)
    | inr (cla, e) ↦ elim (Bool-cases (is_destination bp7 bp p)) [
      | inl direct ↦ ground (arith, select-prefixed peers selected)
      | inr relay ↦
          let more : List (String × ClaSenderTask E) = (node_name bp7 p, cla) ∷ [] in
          ground (
            arith,
            select-prefixed peers selected,
            select-prefixed peers (selected ++ more),
            append_assoc selected more (filter_map candidate peers),
          )
    ]
  ]

  -- The loop of the epidemic agent picks the destination alone if it can be sent to and does not
  -- have the bundle, and otherwise every peer of that kind, in order; it asks for deletion
  -- exactly in the first case.
  pub select-eq-choice :
      (peers : List (DtnPeer E)) → select bp7 clas core bp peers [] ≡ choice peers
  select-eq-choice peers = select-prefixed peers [] ∙ bare (choice peers)
    where
      bare : (r : List (String × ClaSenderTask E) × Bool) → prefixed [] r ≡ r
      bare (chosen, true) = unfold prefixed in refl
      bare (chosen, false) = unfold prefixed in refl

  fresh-choice :
      (peers : List (DtnPeer E)) (name : String) (cla : ClaSenderTask E)
      → In (name, cla) (filter_map candidate peers)
      → contains bp.id name core ≡ false
  unfolding candidate
  fresh-choice peers name cla i =
      let (p, _, e) = In-filter_map-to candidate (name, cla) peers i in ground arith

  -- Whoever is selected did not have the bundle.
  pub selected_fresh :
      (peers : List (DtnPeer E)) (name : String) (cla : ClaSenderTask E)
      → In (name, cla) (select bp7 clas core bp peers []).0
      → contains bp.id name core ≡ false
  selected_fresh peers name cla i =
      either (subst (λ r. In (name, cla) r.0) (select-eq-choice peers) i)
    where
      either : In (name, cla) (choice peers).0 → contains bp.id name core ≡ false
      either j = elim (Option-cases (find is_direct peers)) [
        | inl e ↦ fresh-choice peers name cla (unfold choice in ground arith)
        | inr (p, e) ↦
            let one : In (name, cla) (filter_map candidate (p ∷ [])) =
              unfold choice in ground arith in
            fresh-choice (p ∷ []) name cla one
      ]
