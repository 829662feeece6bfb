-- ===== src/Peer/Sender.antt =====
-- Which sender `first_cla` of core/dtn7/src/core/peer.rs chooses.
use dtn7_rs.Prelude.{
  ℕ, String, ◌≡◌, ◌≢◌, inl, inr, refl, true, Option, none, some, List, [], ◌∷◌, arith, ◌==◌,
  string_eq, eq_iff, In, unwrap_or, Option-cases, Bool-cases, ◌&&◌,
}
use dtn7_rs.Peer.{DtnPeer, ClaInstance, ClaSenderTask, with_port, cla_for, cla_among, first_cla}

module _ {E : Type 0} (p : DtnPeer E) (clas : List ClaInstance) where
  -- The task that sends to `p` over the agent `c`, as the entry `cla` of the peer's list asks.
  abbrev pub task : String × Option ℕ → ClaInstance → ClaSenderTask E
  task cla c = record {
    tx = c.channel;
    dest = with_port p.addr (unwrap_or cla.1 c.port);
    cla_name = c.name;
    next_hop = p.eid;
  }

  -- An agent that serves an entry: it bears its name and accepts bundles.
  abbrev pub Serves : String × Option ℕ → ClaInstance → Type 0
  Serves cla c = (cla.0 ≡ c.name) × (c.accepting ≡ true)

  cla_for_sound :
      (cla : String × Option ℕ) (cs : List ClaInstance) (t : ClaSenderTask E)
      → cla_for p cla cs ≡ some t
      → (c : ClaInstance) × In c cs × Serves cla c × (t ≡ task cla c)
  unfolding cla_for
  cla_for_sound cla [] t h = absurd (ground arith)
  cla_for_sound cla (c ∷ cs) t h = elim (Bool-cases (cla.0 == c.name && c.accepting)) [
    | inl hit ↦ (c, inl refl, ground (arith, eq_iff cla.0 c.name), ground arith)
    | inr miss ↦ let (d, i, s, e) = cla_for_sound cla cs t (ground arith) in (d, inr i, s, e)
  ]

  cla_for_complete :
      (cla : String × Option ℕ) (cs : List ClaInstance) (c : ClaInstance)
      → In c cs
      → Serves cla c
      → cla_for p cla cs ≢ none
  unfolding cla_for
  cla_for_complete cla [] c i s = absurd i
  cla_for_complete cla (d ∷ cs) c i s =
      ground (arith, eq_iff cla.0 d.name, cla_for_complete cla cs c)

  among_sound :
      (entries : List (String × Option ℕ)) (t : ClaSenderTask E)
      → cla_among p entries clas ≡ some t
      → (cla : String × Option ℕ) × (c : ClaInstance) × In cla entries
        × In c clas
        × Serves cla c
        × (t ≡ task cla c)
  unfolding cla_among
  among_sound [] t h = absurd (ground arith)
  among_sound (cla ∷ entries) t h = elim (Option-cases (cla_for p cla clas)) [
    | inl miss ↦
        let (e, c, i, j, s, q) = among_sound entries t (ground arith) in (e, c, inr i, j, s, q)
    | inr (u, hit) ↦
        let (c, j, s, q) = cla_for_sound cla clas t (ground arith) in (cla, c, inl refl, j, s, q)
  ]

  among_complete :
      (entries : List (String × Option ℕ)) (cla : String × Option ℕ) (c : ClaInstance)
      → In cla entries
      → In c clas
      → Serves cla c
      → cla_among p entries clas ≢ none
  unfolding cla_among
  among_complete [] cla c i j s = absurd i
  among_complete (e ∷ entries) cla c (inl same) j s =
      let here = cla_for_complete e clas c j (rw same s) in ground (arith, here)
  among_complete (e ∷ entries) cla c (inr i) j s =
      ground (arith, among_complete entries cla c i j s)

  -- A sender that is chosen for a peer goes to the peer, over an agent that accepts bundles and
  -- bears a name from the peer's list, to the port of the list or else the agent's own.
  pub first_cla_sound :
      (t : ClaSenderTask E)
      → first_cla clas p ≡ some t
      → (cla : String × Option ℕ) × (c : ClaInstance) × In cla p.cla_list
        × In c clas
        × Serves cla c
        × (t ≡ task cla c)
  unfolding first_cla
  first_cla_sound t h = among_sound p.cla_list t h

  -- A sender is chosen for a peer whenever some agent accepts bundles and bears a name from the
  -- peer's list.
  pub first_cla_complete :
      (cla : String × Option ℕ) (c : ClaInstance)
      → In cla p.cla_list
      → In c clas
      → Serves cla c
      → (t : ClaSenderTask E) × (first_cla clas p ≡ some t)
  unfolding first_cla
  first_cla_complete cla c i j s = elim (Option-cases (cla_among p p.cla_list clas)) [
    | inl e ↦ absurd (among_complete p.cla_list cla c i j s e)
    | inr (t, e) ↦ (t, e)
  ]
