-- ===== src/Routing/SprayAndWait/Copies.antt =====
-- The books of all bundles through a history of core/dtn7/src/routing/sprayandwait.rs.
use text.Mathlib.Text.{starts_with}
use dtn7_rs.Prelude.{
  ℕ, String, ◌≡◌, inl, inr, refl, sym, ◌∙◌, subst, false, some, List, [], ◌∷◌, arith, ◌==◌,
  string_eq, eq_iff, Option-cases, Bool-cases, if◌then◌else◌,
}
use dtn7_rs.Map
use dtn7_rs.Map.{lookup, contains_key}
use dtn7_rs.Map.Laws.{lookup-insert, lookup-modify}
use dtn7_rs.Bp7.{Bp7}
use dtn7_rs.BundlePack.{BundlePack}
use dtn7_rs.Peer.{DtnPeer, ClaInstance}
use dtn7_rs.Routing.{
  RoutingNotification, sending_failed, sending_succeeded, incoming_bundle,
  incoming_bundle_without_previous_node, encountered_peer, dropped_peer,
}
use dtn7_rs.Routing.SprayAndWait.{
  SaWBundleData, Core, new, handle_new_bundle, take_back, handle_notification, Round, offer_all,
  handle_sender_for_bundle,
}
use dtn7_rs.Routing.SprayAndWait.Books.{
  budget, Balanced, IsBalanced, take_back-Balanced, offer_all-Balanced,
}

-- What reaches the agent: requests, with the peers and agents of their moment, and notifications.
pub data Cmd (E B : Type 0) : Type 0 where
  asks : BundlePack E → List (DtnPeer E) → List ClaInstance → Cmd E B
  notifies : RoutingNotification E B → Cmd E B

module _ {E B : Type 0} (bp7 : Bp7 E B) where
  unfoldable pub step : Cmd E B → Core → Core
  step (asks bp peers agents) core = (handle_sender_for_bundle bp7 agents bp peers core).0
  step (notifies n) core = handle_notification bp7 n core

  unfoldable pub run : List (Cmd E B) → Core → Core
  run [] core = core
  run (cmd ∷ cmds) core = run cmds (step cmd core)

with_history-IsBalanced :
    (bid : String) (m : SaWBundleData) (core : Core)
    → IsBalanced core
    → Balanced (budget core bid) m
    → IsBalanced (record core { history = Map.insert bid m core.history })
with_history-IsBalanced bid m core v own = record {
  books = λ b meta h. elim (Bool-cases (bid == b)) [
    | inl same ↦
        let written : m ≡ meta = ground (arith, lookup-insert bid b m core.history) in
        let here : bid ≡ b = (eq_iff bid b).0 same in
        subst (Balanced (budget core b)) written (subst (λ k. Balanced (budget core k) m) here own)
    | inr other ↦ v.books b meta (ground (arith, lookup-insert bid b m core.history))
  ];
}

handle_new_bundle-IsBalanced :
    (bid : String) (core : Core) → IsBalanced core → IsBalanced (handle_new_bundle bid core)
unfolding handle_new_bundle
handle_new_bundle-IsBalanced bid core v = elim (Bool-cases (contains_key bid core.history)) [
  | inl old ↦ go core (ground arith) v
  | inr new ↦ elim (Bool-cases (starts_with bid core.local_node)) [
    | inl own ↦ go (grown core.l) (ground arith) (grown-IsBalanced core.l (ground arith))
    | inr foreign ↦ go (grown 1) (ground arith) (grown-IsBalanced 1 (ground arith))
  ]
]
  where
    grown : ℕ → Core
    grown n = record core {
      history = Map.insert bid (record { remaining_copies = n; nodes = [] }) core.history;
    }

    grown-IsBalanced : (n : ℕ) → budget core bid ≡ n → IsBalanced (grown n)
    grown-IsBalanced n e =
        with_history-IsBalanced bid _ core v
          (record { sum = omega (arith, e); some_left = ground arith; once = tt })

    go :
        (t : Core)
        → handle_new_bundle bid core ≡ t
        → IsBalanced t
        → IsBalanced (handle_new_bundle bid core)
    go t e k = subst IsBalanced (sym e) k

failed-IsBalanced :
    (bid name : String) (core : Core)
    → IsBalanced core
    → IsBalanced (record core { history = Map.modify bid (take_back name) core.history })
failed-IsBalanced bid name core v = record {
  books = λ b meta h. elim (Option-cases (lookup b core.history)) [
    | inl e ↦ absurd (ground (arith, lookup-modify bid b (take_back name) core.history))
    | inr (old, e) ↦ elim (Bool-cases (bid == b)) [
      | inl same ↦
          let written : take_back name old ≡ meta =
            ground (arith, lookup-modify bid b (take_back name) core.history) in
          subst (Balanced (budget core b)) written
            (take_back-Balanced (budget core b) name old (v.books b old e))
      | inr other ↦
          v.books b meta (ground (arith, lookup-modify bid b (take_back name) core.history))
    ]
  ];
}

module _ {E B : Type 0} (bp7 : Bp7 E B) where
  sender-IsBalanced :
      (agents : List ClaInstance) (bp : BundlePack E) (peers : List (DtnPeer E)) (core : Core)
      → IsBalanced core
      → IsBalanced (handle_sender_for_bundle bp7 agents bp peers core).0
  unfolding handle_sender_for_bundle
  sender-IsBalanced agents bp peers core v = elim (Option-cases (lookup bp.id core.history)) [
    | inl e ↦ go core (ground arith) v
    | inr (meta, e) ↦
        let start : Round E = record { meta = meta; clas = []; delete_afterwards = false } in
        let r = offer_all bp7 agents core.local_node bp peers start in
        go (record core { history = Map.insert bp.id r.meta core.history }) (ground arith)
          (with_history-IsBalanced bp.id r.meta core v (
            offer_all-Balanced bp7 agents (budget core bp.id) core.local_node bp peers start
              (v.books bp.id meta e)))
  ]
    where
      go :
          (t : Core)
          → (handle_sender_for_bundle bp7 agents bp peers core).0 ≡ t
          → IsBalanced t
          → IsBalanced (handle_sender_for_bundle bp7 agents bp peers core).0
      go t e k = subst IsBalanced (sym e) k

  step-IsBalanced : (cmd : Cmd E B) (core : Core) → IsBalanced core → IsBalanced (step bp7 cmd core)
  unfolding step handle_notification
  step-IsBalanced (asks bp peers agents) core v = sender-IsBalanced agents bp peers core v
  step-IsBalanced (notifies (sending_failed bid name)) core v = failed-IsBalanced bid name core v
  step-IsBalanced (notifies (incoming_bundle b)) core v =
      handle_new_bundle-IsBalanced (bp7.bundle_id b) core v
  step-IsBalanced (notifies (incoming_bundle_without_previous_node bid name)) core v =
      handle_new_bundle-IsBalanced bid core v
  step-IsBalanced (notifies (sending_succeeded bid name)) core v = v
  step-IsBalanced (notifies (encountered_peer e)) core v = v
  step-IsBalanced (notifies (dropped_peer e)) core v = v

  run-IsBalanced :
      (cmds : List (Cmd E B)) (core : Core) → IsBalanced core → IsBalanced (run bp7 cmds core)
  unfolding run
  run-IsBalanced [] core v = v
  run-IsBalanced (cmd ∷ cmds) core v =
      run-IsBalanced cmds (step bp7 cmd core) (step-IsBalanced cmd core v)

  step_fixed :
      (cmd : Cmd E B) (core : Core)
      → ((step bp7 cmd core).l ≡ core.l) × ((step bp7 cmd core).local_node ≡ core.local_node)
  unfolding step handle_notification handle_new_bundle handle_sender_for_bundle
  step_fixed (asks bp peers agents) core = ground arith
  step_fixed (notifies n) core = ground arith

  run_fixed :
      (cmds : List (Cmd E B)) (core : Core)
      → ((run bp7 cmds core).l ≡ core.l) × ((run bp7 cmds core).local_node ≡ core.local_node)
  unfolding run
  run_fixed [] core = (refl, refl)
  run_fixed (cmd ∷ cmds) core =
      let (l, n) = run_fixed cmds (step bp7 cmd core) in
      let (l', n') = step_fixed cmd core in (l ∙ l', n ∙ n')

  -- From the start of the spray-and-wait agent, whatever it is asked and told: for every bundle
  -- that it knows, the copies left and the nodes that have one add up to what the bundle started
  -- with (`l` for a bundle of this host, one for any other), a copy stays here if there was one,
  -- and no node is listed twice.
  pub copies-Balanced :
      (l : ℕ) (local_node : String) (cmds : List (Cmd E B)) (bid : String) (meta : SaWBundleData)
      → lookup bid (run bp7 cmds (new l local_node)).history ≡ some meta
      → Balanced (if starts_with bid local_node then l else 1) meta
  unfolding new lookup
  copies-Balanced l local_node cmds bid meta h =
      let core = new l local_node in
      let balanced = run-IsBalanced cmds core (record { books = λ b m e. absurd (ground arith) }) in
      let (same_l, same_node) = run_fixed cmds core in
      subst (λ t. Balanced t meta) (ground (arith, same_l, same_node)) (balanced.books bid meta h)
