-- ===== src/Bpsec/Policy/Inspecting.antt =====
-- The actions of a receiver, and their order: core/dtn7/src/core/bpsec/policy.rs.
use dtn7_rs.Prelude.{
  ℕ, ◌+◌, ◌≤◌, ◌≡◌, Bool, true, false, not, ◌&&◌, List, ◌++◌, filter, any, All, In, arith, ◌==◌,
  nat_eq, if◌then◌else◌,
}
use dtn7_rs.HashSet.{contains}
use dtn7_rs.Bpsec.Config.{SecurityRule, SecurityOperation, bib, bcb, operation_eq}
use dtn7_rs.Bpsec.Policy
use dtn7_rs.Bpsec.Policy.{
  ActionKind, SecurityAction, SecurityBlock, is_protected, inspect, uninspected, accepts_primary,
  receiver_actions, verify, accept, decrypt, missing,
}
use dtn7_rs.Bpsec.Policy.Counting.{
  bit, count, count-append, count-split, demands, All-append, All-filter, All-to, IsRanked,
  IsRanked-append, IsRanked-level,
}
use dtn7_rs.Bpsec.Policy.Receiver.{handles, misses, about, inspect-Inspected}
use dtn7_rs.Bpsec.Policy.Warrants.{
  is_acceptor, MissFor, DecryptFor, VerifyFor, AllWarranted, inspect-AllWarranted,
}

module _ (rules : List SecurityRule) (existing : List SecurityBlock) where
  -- What is missing, then the BCBs, then the BIBs, of which one that is accepted and has the primary
  -- block comes last.
  abbrev pub rank : SecurityAction → ℕ
  rank a = elim (a.kind) [
    | missing u ↦ 0
    | decrypt n ↦ 1
    | accept n ↦ if accepts_primary existing (accept n) then 3 else 2
    | _ ↦ 2
  ]

  -- A rule of the list asks for the action, in the role that it has.
  abbrev pub IsWarranted : SecurityAction → Type 0
  IsWarranted a = elim (a.kind) [
    | missing u ↦
        In a.rule rules
        × (demands a.rule.operation u a.rule ≡ true)
        × (is_protected existing a.rule.operation u ≡ false)
    | decrypt n ↦
        In a.rule rules × ((a.rule.operation == bcb) ≡ true) × (about existing n a.rule ≡ true)
    | verify n ↦
        In a.rule rules
        × ((a.rule.operation == bib) ≡ true)
        × (is_acceptor a.rule.role ≡ false)
        × (about existing n a.rule ≡ true)
    | accept n ↦
        In a.rule rules
        × ((a.rule.operation == bib) ≡ true)
        × (is_acceptor a.rule.role ≡ true)
        × (about existing n a.rule ≡ true)
    | _ ↦ ⊥
  ]

  pub record IsInspection (actions : List SecurityAction) : Type 0 where
    pub handled_once : (n : ℕ) → count (handles n) actions ≡ bit (any (about existing n) rules)
    pub reported_once :
        (o : SecurityOperation) (t : ℕ)
        → count (misses o t) actions
          ≡ bit (any (demands o t) rules && not (is_protected existing o t))
    pub warranted : All IsWarranted actions
    pub ordered : IsRanked rank actions

  abbrev end : Policy.Inspection
  end = inspect existing rules uninspected

  abbrev last : SecurityAction → Bool
  last a = accepts_primary existing a.kind

  abbrev sooner : List SecurityAction
  sooner = filter (λ a. not (last a)) end.verifications

  abbrev later : List SecurityAction
  later = filter last end.verifications

  end-AllWarranted : AllWarranted rules existing end
  end-AllWarranted =
      inspect-AllWarranted rules existing rules uninspected (λ r i. i)
        (record {
          missing_warranted = tt;
          decryptions_warranted = tt;
          verifications_warranted = tt;
        })

  All-sooner : All (λ a. VerifyFor rules existing a × (not (last a) ≡ true)) sooner
  All-sooner =
      All-filter (VerifyFor rules existing) (λ a. not (last a)) end.verifications
        end-AllWarranted.verifications_warranted

  All-later : All (λ a. VerifyFor rules existing a × (last a ≡ true)) later
  All-later =
      All-filter (VerifyFor rules existing) last end.verifications
        end-AllWarranted.verifications_warranted

  MissFor-IsWarranted : (a : SecurityAction) → MissFor rules existing a → IsWarranted a
  MissFor-IsWarranted a h = ground arith

  DecryptFor-IsWarranted : (a : SecurityAction) → DecryptFor rules existing a → IsWarranted a
  DecryptFor-IsWarranted a h = ground arith

  VerifyFor-IsWarranted : (a : SecurityAction) → VerifyFor rules existing a → IsWarranted a
  VerifyFor-IsWarranted a h = ground arith

  warranted_lem : All IsWarranted (end.missing_actions ++ (end.decryptions ++ (sooner ++ later)))
  warranted_lem =
      All-append IsWarranted end.missing_actions (end.decryptions ++ (sooner ++ later))
        (All-to (MissFor rules existing) IsWarranted end.missing_actions MissFor-IsWarranted
          end-AllWarranted.missing_warranted)
        (All-append IsWarranted end.decryptions (sooner ++ later)
          (All-to (DecryptFor rules existing) IsWarranted end.decryptions DecryptFor-IsWarranted
            end-AllWarranted.decryptions_warranted)
          (All-append IsWarranted sooner later
            (All-to (λ a. VerifyFor rules existing a × (not (last a) ≡ true)) IsWarranted sooner
              (λ a h. VerifyFor-IsWarranted a h.0) All-sooner)
            (All-to (λ a. VerifyFor rules existing a × (last a ≡ true)) IsWarranted later
              (λ a h. VerifyFor-IsWarranted a h.0) All-later)))

  rank-missing : (a : SecurityAction) → MissFor rules existing a → rank a ≡ 0
  rank-missing a h = ground arith

  rank-decrypt : (a : SecurityAction) → DecryptFor rules existing a → rank a ≡ 1
  rank-decrypt a h = ground arith

  rank-sooner :
      (a : SecurityAction) → VerifyFor rules existing a × (not (last a) ≡ true) → rank a ≡ 2
  unfolding accepts_primary
  rank-sooner a h = ground arith

  rank-later : (a : SecurityAction) → VerifyFor rules existing a × (last a ≡ true) → rank a ≡ 3
  unfolding accepts_primary
  rank-later a h = ground arith

  -- A list of one rank in front of ranked lists of no lower one.
  in_front :
      (n : ℕ) (P : SecurityAction → Type 0) (xs ys : List SecurityAction)
      → All P xs
      → ((a : SecurityAction) → P a → rank a ≡ n)
      → All (λ a. n ≤ rank a) ys × IsRanked rank ys
      → (m : ℕ) → m ≤ n
      → All (λ a. m ≤ rank a) (xs ++ ys) × IsRanked rank (xs ++ ys)
  in_front n P xs ys h f k m le =
      let level = All-to P (λ a. rank a ≡ n) xs f h in
      (
        All-append (λ a. m ≤ rank a) xs ys
            (All-to (λ a. rank a ≡ n) (λ a. m ≤ rank a) xs (λ a e. omega (arith, e, le)) level)
            (All-to (λ a. n ≤ rank a) (λ a. m ≤ rank a) ys (λ a e. omega (arith, e, le)) k.0),
        IsRanked-append rank n xs ys level k.0 k.1,
      )

  ordered_lem : IsRanked rank (end.missing_actions ++ (end.decryptions ++ (sooner ++ later)))
  ordered_lem =
      let levels =
        All-to (λ a. VerifyFor rules existing a × (last a ≡ true)) (λ a. rank a ≡ 3) later
          rank-later All-later in
      let tail : All (λ a. 2 ≤ rank a) later × IsRanked rank later = (
        All-to (λ a. rank a ≡ 3) (λ a. 2 ≤ rank a) later (λ a e. omega (arith, e)) levels,
        IsRanked-level rank 3 later levels,
      ) in
      (in_front 0 (MissFor rules existing) end.missing_actions
        (end.decryptions ++ (sooner ++ later)) end-AllWarranted.missing_warranted rank-missing
        (in_front 1 (DecryptFor rules existing) end.decryptions (sooner ++ later)
          end-AllWarranted.decryptions_warranted rank-decrypt
          (in_front 2 (λ a. VerifyFor rules existing a × (not (last a) ≡ true)) sooner later
            All-sooner rank-sooner tail 1 (omega arith))
          0 (omega arith))
        0 (omega arith)).1

  abbrev all_actions : List SecurityAction
  all_actions = end.missing_actions ++ (end.decryptions ++ (sooner ++ later))

  count_parts :
      (p : SecurityAction → Bool)
      → count p all_actions
        ≡ count p end.missing_actions + (count p end.decryptions + count p end.verifications)
  count_parts p = omega (
    arith,
    count-append p end.missing_actions (end.decryptions ++ (sooner ++ later)),
    count-append p end.decryptions (sooner ++ later),
    count-split p last end.verifications,
  )

  handled_lem : (n : ℕ) → count (handles n) all_actions ≡ bit (any (about existing n) rules)
  unfolding contains
  handled_lem n =
      let g = inspect-Inspected existing n bib 0 rules uninspected in
      ground (arith, count_parts (handles n), g.handled_count, g.missing_apart)

  reported_lem :
      (o : SecurityOperation) (t : ℕ)
      → count (misses o t) all_actions
        ≡ bit (any (demands o t) rules && not (is_protected existing o t))
  unfolding contains
  reported_lem o t =
      let g = inspect-Inspected existing 0 o t rules uninspected in
      ground (arith, count_parts (misses o t), g.missing_count, g.handled_apart)

  -- Inspected.
  pub receiver_actions-IsInspection : IsInspection (receiver_actions rules existing)
  unfolding receiver_actions
  receiver_actions-IsInspection = record {
    handled_once = handled_lem;
    reported_once = reported_lem;
    warranted = warranted_lem;
    ordered = ordered_lem;
  }
