-- ===== src/Bpsec/Policy/Receiver.antt =====
-- How often `receiver_actions` of core/dtn7/src/core/bpsec/policy.rs handles a block and reports a
-- target.
use dtn7_rs.Prelude.{
  ℕ, ◌+◌, ◌≡◌, refl, Bool, false, not, ◌&&◌, ◌||◌, List, [], ◌∷◌, filter, any, arith, ◌==◌, nat_eq,
  subst,
}
use dtn7_rs.HashSet.{contains, contains-insert}
use dtn7_rs.Bpsec.Config.{SecurityRule, SecurityOperation, operation_eq, demand_eq}
use dtn7_rs.Bpsec.Policy.{
  SecurityAction, SecurityBlock, Inspection, target_numbers, protecting, handling, handle_block,
  handle_blocks, is_protected, report_target, report_targets, inspect, verify, accept, decrypt,
  missing,
}
use dtn7_rs.Bpsec.Policy.Counting.{bit, count, count-append, demands}

abbrev pub handles : ℕ → SecurityAction → Bool
handles n a = elim (a.kind) [
  | verify k ↦ k == n
  | accept k ↦ k == n
  | decrypt k ↦ k == n
  | _ ↦ false
]

abbrev pub misses : SecurityOperation → ℕ → SecurityAction → Bool
misses o t a = elim (a.kind) [ missing u ↦ a.rule.operation == o && u == t | _ ↦ false ]

-- A rule is about a block with the number.
abbrev pub about : List SecurityBlock → ℕ → SecurityRule → Bool
about existing n rule = any (λ b. b.number == n) (filter (protecting rule) existing)

and_false : (x : Bool) → (x && false) ≡ false
and_false x = ground arith

or_false : (x : Bool) → (x || false) ≡ x
or_false x = ground arith

factored : (x y z : Bool) → ((x && y) || (x && z)) ≡ (x && (y || z))
factored x y z = ground arith

module _ (existing : List SecurityBlock) (n : ℕ) (o : SecurityOperation) (t : ℕ) where
  -- What a block to be handled, and a target to be reported, do to the variables.
  pub record Inspected (a b : Bool) (i j : Inspection) : Type 0 where
    pub handled_count :
        count (handles n) j.decryptions + count (handles n) j.verifications
        ≡ (count (handles n) i.decryptions + count (handles n) i.verifications)
          + bit (a && not (contains n i.handled))
    pub handled_lem : contains n j.handled ≡ contains n i.handled || a
    pub missing_count :
        count (misses o t) j.missing_actions
        ≡ count (misses o t) i.missing_actions
          + bit (b && not (is_protected existing o t) && not (contains (o, t) i.reported_missing))
    pub reported_lem :
        contains (o, t) j.reported_missing
        ≡ contains (o, t) i.reported_missing || (b && not (is_protected existing o t))
    pub missing_apart : count (handles n) j.missing_actions ≡ count (handles n) i.missing_actions
    pub handled_apart :
        count (misses o t) j.decryptions + count (misses o t) j.verifications
        ≡ count (misses o t) i.decryptions + count (misses o t) i.verifications

  Inspected-refl : (i : Inspection) → Inspected false false i i
  Inspected-refl i = record {
    handled_count = omega arith;
    handled_lem = ground arith;
    missing_count = omega arith;
    reported_lem = ground arith;
    missing_apart = refl;
    handled_apart = refl;
  }

  Inspected-trans :
      (a b c d : Bool) (i j k : Inspection)
      → Inspected a b i j
      → Inspected c d j k
      → Inspected (a || c) (b || d) i k
  Inspected-trans a b c d i j k g h = record {
    handled_count = ground (arith, g.handled_count, h.handled_count, g.handled_lem);
    handled_lem = ground (arith, g.handled_lem, h.handled_lem);
    missing_count = ground (arith, g.missing_count, h.missing_count, g.reported_lem);
    reported_lem = ground (arith, g.reported_lem, h.reported_lem);
    missing_apart = omega (arith, g.missing_apart, h.missing_apart);
    handled_apart = omega (arith, g.handled_apart, h.handled_apart);
  }

  handled-Inspected :
      (rule : SecurityRule) (k : ℕ) (i : Inspection)
      → Inspected (k == n) false i (handle_block rule k i)
  handled-Inspected rule k i =
      let same = nat_eq.same_iff k n in
      let added = contains-insert k n i.handled in
      let action : SecurityAction = record {
        rule = rule;
        kind = handling rule.operation rule.role k;
      } in
      record {
        handled_count = ground (
          arith,
          same,
          count-append (handles n) i.decryptions (action ∷ []),
          count-append (handles n) i.verifications (action ∷ []),
        );
        handled_lem = ground (arith, same, added);
        missing_count = ground arith;
        reported_lem = ground arith;
        missing_apart = ground arith;
        handled_apart = ground (
          arith,
          count-append (misses o t) i.decryptions (action ∷ []),
          count-append (misses o t) i.verifications (action ∷ []),
        );
      }

  reported-Inspected :
      (rule : SecurityRule) (u : ℕ) (i : Inspection)
      → Inspected false (rule.operation == o && u == t) i (report_target existing rule u i)
  reported-Inspected rule u i =
      let same = operation_eq.same_iff rule.operation o in
      let same' = nat_eq.same_iff u t in
      let added = contains-insert (rule.operation, u) (o, t) i.reported_missing in
      let action : SecurityAction = record { rule = rule; kind = missing u } in
      record {
        handled_count = ground arith;
        handled_lem = ground arith;
        missing_count =
            ground (arith, same, same', count-append (misses o t) i.missing_actions (action ∷ []));
        reported_lem = ground (arith, same, same', added);
        missing_apart = ground (arith, count-append (handles n) i.missing_actions (action ∷ []));
        handled_apart = ground arith;
      }

  handle_blocks-Inspected :
      (rule : SecurityRule) (blocks : List SecurityBlock) (i : Inspection)
      → Inspected (any (λ b. b.number == n) blocks) false i (handle_blocks rule blocks i)
  unfolding handle_blocks
  handle_blocks-Inspected rule [] i = Inspected-refl i
  handle_blocks-Inspected rule (block ∷ blocks) i =
      Inspected-trans (block.number == n) false (any (λ b. b.number == n) blocks) false i
        (handle_block rule block.number i) _ (handled-Inspected rule block.number i)
        (handle_blocks-Inspected rule blocks (handle_block rule block.number i))

  report_targets-Inspected :
      (rule : SecurityRule) (ts : List ℕ) (i : Inspection)
      → Inspected false (rule.operation == o && contains t ts) i (report_targets existing rule ts i)
  unfolding report_targets contains
  report_targets-Inspected rule [] i = rw (and_false (rule.operation == o)) (Inspected-refl i)
  report_targets-Inspected rule (u ∷ ts) i =
      let j = report_target existing rule u i in
      subst (λ b. Inspected false b i (report_targets existing rule ts j))
        (factored (rule.operation == o) (u == t) (contains t ts))
        (Inspected-trans false (rule.operation == o && u == t) false
          (rule.operation == o && contains t ts) i j _ (reported-Inspected rule u i)
          (report_targets-Inspected rule ts j))

  pub inspect-Inspected :
      (rules : List SecurityRule) (i : Inspection)
      → Inspected
          (any (about existing n) rules)
          (any (demands o t) rules)
          i
          (inspect existing rules i)
  unfolding inspect
  inspect-Inspected [] i = Inspected-refl i
  inspect-Inspected (rule ∷ rules) i =
      let j = handle_blocks rule (filter (protecting rule) existing) i in
      let k = report_targets existing rule (target_numbers rule) j in
      Inspected-trans (about existing n rule) (demands o t rule) (any (about existing n) rules)
        (any (demands o t) rules) i k _
        (subst (λ x. Inspected x (demands o t rule) i k) (or_false (about existing n rule))
          (Inspected-trans (about existing n rule) false false (demands o t rule) i j k
            (handle_blocks-Inspected rule (filter (protecting rule) existing) i)
            (report_targets-Inspected rule (target_numbers rule) j)))
        (inspect-Inspected rules k)
