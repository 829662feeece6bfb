-- ===== src/Routing/Epidemic/NoResend.antt =====
-- Histories of the epidemic agent of core/dtn7/src/routing/epidemic.rs.
use dtn7_rs.Prelude.{
  String, ◌≡◌, ◌≢◌, inl, inr, ap, true, false, ◌&&◌, ◌||◌, List, [], ◌∷◌, arith, ◌==◌, string_eq,
  eq_iff, ==_refl, In, All, unwrap_or, Option-cases, Bool-cases, if◌then◌else◌,
}
use dtn7_rs.Map.{lookup}
use dtn7_rs.Map.Laws.{lookup-insert, lookup-modify}
use dtn7_rs.HashSet
use dtn7_rs.HashSet.{contains-insert, contains-remove}
use dtn7_rs.Bp7.{Bp7}
use dtn7_rs.BundlePack.{BundlePack}
use dtn7_rs.Peer.{DtnPeer, ClaInstance, ClaSenderTask}
use dtn7_rs.Routing.{
  RoutingNotification, sending_failed, sending_succeeded, incoming_bundle,
  incoming_bundle_without_previous_node, encountered_peer, dropped_peer,
}
use dtn7_rs.Routing.Epidemic.{
  Core, add, contains, remove_sent, add_previous, add_all, select, senders_for_bundle,
  note_incoming, notify,
}
use dtn7_rs.Routing.Epidemic.Selection.{selected_fresh}

contains-add :
    (b c n m : String) (core : Core)
    → contains c m (add b n core)
      ≡ (if b == c then n == m || contains c m core else contains c m core)
unfolding contains add
contains-add b c n m core = ground (
  arith,
  eq_iff b c,
  lookup-insert b c (HashSet.insert n (unwrap_or (lookup b core.history) [])) core.history,
  contains-insert n m (unwrap_or (lookup b core.history) []),
)

contains-remove_sent :
    (b c n m : String) (core : Core)
    → contains c m (remove_sent b n core)
      ≡ (if b == c then (if n == m then false else contains c m core) else contains c m core)
unfolding contains remove_sent
contains-remove_sent b c n m core = elim (Option-cases (lookup c core.history)) [
  | inl e ↦ ground (arith, lookup-modify b c (HashSet.remove n) core.history)
  | inr (xs, e) ↦
      ground (arith, lookup-modify b c (HashSet.remove n) core.history, contains-remove n m xs)
]

module _ (c m : String) where
  add_keeps :
      (b n : String) (core : Core) → contains c m core ≡ true → contains c m (add b n core) ≡ true
  add_keeps b n core h = ground (arith, contains-add b c n m core)

  add_previous_keeps :
      (b n : String) (core : Core)
      → contains c m core ≡ true
      → contains c m (add_previous b n core) ≡ true
  unfolding add_previous
  add_previous_keeps b n core h = ground (arith, add_keeps b n core h)

  add_all_keeps :
      {E : Type 0} (b : String) (selected : List (String × ClaSenderTask E)) (core : Core)
      → contains c m core ≡ true
      → contains c m (add_all b selected core) ≡ true
  unfolding add_all
  add_all_keeps b [] core h = h
  add_all_keeps b ((n, t) ∷ selected) core h =
      add_all_keeps b selected (add b n core) (add_keeps b n core h)

  -- Whoever is selected is recorded.
  add_all_records :
      {E : Type 0} (selected : List (String × ClaSenderTask E)) (t : ClaSenderTask E) (core : Core)
      → In (m, t) selected
      → contains c m (add_all c selected core) ≡ true
  unfolding add_all
  add_all_records [] t core i = absurd i
  add_all_records ((n, u) ∷ selected) t core (inl e) =
      add_all_keeps c selected (add c n core)
        (ground (arith, contains-add c c n m core, ==_refl c, ==_refl m, ap (λ s. s.0) e))
  add_all_records ((n, u) ∷ selected) t core (inr i) = add_all_records selected t (add c n core) i

-- What reaches the agent after a request: other requests, each with the peers and agents of its
-- moment, and notifications.
pub data Cmd (E B : Type 0) : Type 0 where
  asks : BundlePack E → List (DtnPeer E) → List ClaInstance → Cmd E B
  notifies : RoutingNotification E B → Cmd E B

module _ {E B : Type 0} (bp7 : Bp7 E B) where
  pub step : Cmd E B → Core → Core
  step (asks bp peers clas) core = (senders_for_bundle bp7 clas bp peers core).0
  step (notifies n) core = notify bp7 n core

  pub run : List (Cmd E B) → Core → Core
  run [] core = core
  run (cmd ∷ cmds) core = run cmds (step cmd core)

  module _ (c m : String) where
    step_keeps :
        (cmd : Cmd E B) (core : Core)
        → cmd ≢ notifies (sending_failed c m)
        → contains c m core ≡ true
        → contains c m (step cmd core) ≡ true
    unfolding step senders_for_bundle notify note_incoming
    step_keeps (asks bp peers clas) core h k =
        add_all_keeps c m bp.id (select bp7 clas core bp peers []).0 core k
    step_keeps (notifies (sending_failed b n)) core h k = elim (Bool-cases (b == c && n == m)) [
      | inl same ↦ absurd (h (ground (arith, eq_iff b c, eq_iff n m)))
      | inr other ↦ ground (arith, contains-remove_sent b c n m core)
    ]
    step_keeps (notifies (sending_succeeded b n)) core h k = k
    step_keeps (notifies (incoming_bundle b)) core h k = elim (Option-cases (bp7.previous_node b)) [
      | inl e ↦ ground arith
      | inr (eid, e) ↦ elim (Option-cases (bp7.node eid)) [
        | inl f ↦ ground arith
        | inr (name, f) ↦ ground (arith, add_previous_keeps c m (bp7.bundle_id b) name core k)
      ]
    ]
    step_keeps (notifies (incoming_bundle_without_previous_node b n)) core h k =
        add_previous_keeps c m b n core k
    step_keeps (notifies (encountered_peer e)) core h k = k
    step_keeps (notifies (dropped_peer e)) core h k = k

    run_keeps :
        (cmds : List (Cmd E B)) (core : Core)
        → All (λ cmd. cmd ≢ notifies (sending_failed c m)) cmds
        → contains c m core ≡ true
        → contains c m (run cmds core) ≡ true
    unfolding run
    run_keeps [] core a k = k
    run_keeps (cmd ∷ cmds) core a k = run_keeps cmds (step cmd core) a.1 (step_keeps cmd core a.0 k)

  -- A node that the epidemic agent selected for a bundle is not selected for it again, whatever
  -- peers are known and whatever reaches the agent in between, as long as no transmission of the
  -- bundle to it is reported as failed.
  pub no_resend :
      (clas clas' : List ClaInstance) (bp bp' : BundlePack E) (peers peers' : List (DtnPeer E))
      (core : Core) (name : String) (t t' : ClaSenderTask E) (cmds : List (Cmd E B))
      → bp'.id ≡ bp.id
      → In (name, t) (select bp7 clas core bp peers []).0
      → All (λ cmd. cmd ≢ notifies (sending_failed bp.id name)) cmds
      → let later = run cmds (senders_for_bundle bp7 clas bp peers core).0 in
        ¬ In (name, t') (select bp7 clas' later bp' peers' []).0
  unfolding senders_for_bundle
  no_resend clas clas' bp bp' peers peers' core name t t' cmds same i quiet j =
      let first = add_all bp.id (select bp7 clas core bp peers []).0 core in
      let had = run_keeps bp.id name cmds first quiet (add_all_records bp.id name _ t core i) in
      let lacks = selected_fresh bp7 clas' (run cmds first) bp' peers' name t' j in
      ground (arith, had, lacks, same)
