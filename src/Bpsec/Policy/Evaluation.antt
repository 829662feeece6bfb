-- ===== src/Bpsec/Policy/Evaluation.antt =====
-- `evaluate` of core/dtn7/src/core/bpsec/policy.rs, at each step of the processing.
use dtn7_rs.Prelude.{List, All, In, In-filter, arith}
use dtn7_rs.Node.{ProcessingStep, transmit_step, receive_step, forward_step}
use dtn7_rs.Bpsec.Config.{SecurityRule}
use dtn7_rs.Bpsec.Policy.{
  Library, SecuredBundle, SecurityAction, matching, security_blocks, evaluate,
}
use dtn7_rs.Bpsec.Policy.Counting.{All-to}
use dtn7_rs.Bpsec.Policy.Planned.{IsPlanned, IsDemanded, source_actions-IsPlanned}
use dtn7_rs.Bpsec.Policy.Inspecting.{IsInspection, IsWarranted, receiver_actions-IsInspection}

module _ (lib : Library) (rules : List SecurityRule) (bundle : SecuredBundle) where
  -- For a bundle that a local application sends or that is forwarded, and the rules for sources
  -- that match it: a target is signed, and only once, exactly if a rule demands it, no BCB of the
  -- bundle encrypts it and no readable BIB protects it; it is encrypted, and only once, exactly
  -- if a rule demands it and no BCB encrypts it. Each action has a matching rule that demands it,
  -- and there is no other action; the primary block is signed first, and all signing comes before
  -- all encryption.
  pub evaluate-IsPlanned :
      IsPlanned
        (matching lib rules transmit_step bundle)
        (security_blocks lib bundle)
        (evaluate lib rules transmit_step bundle)
      × IsPlanned
          (matching lib rules forward_step bundle)
          (security_blocks lib bundle)
          (evaluate lib rules forward_step bundle)
  unfolding evaluate
  evaluate-IsPlanned = (
    source_actions-IsPlanned (matching lib rules transmit_step bundle) (security_blocks lib bundle),
    source_actions-IsPlanned (matching lib rules forward_step bundle) (security_blocks lib bundle),
  )

  -- For a bundle that is received, and the rules for verifiers and acceptors that match it: a
  -- block number is handled, and only once, exactly if some matching rule is about a readable
  -- security block with that number; a target is reported as missing for an operation, and only
  -- once, exactly if a matching rule demands it and the bundle does not have it, a BIB of an
  -- encrypted target aside. Each action has a matching rule that asks for it in its role, and
  -- there is no other action; what is missing comes first, then decryption, then the BIBs, and
  -- last the accepting of a BIB of the primary block.
  pub evaluate-IsInspection :
      IsInspection
        (matching lib rules receive_step bundle)
        (security_blocks lib bundle)
        (evaluate lib rules receive_step bundle)
  unfolding evaluate
  evaluate-IsInspection =
      receiver_actions-IsInspection (matching lib rules receive_step bundle)
        (security_blocks lib bundle)

  demanded-In :
      (at : ProcessingStep) (a : SecurityAction)
      → IsDemanded (matching lib rules at bundle) a
      → In a.rule rules
  demanded-In at a d =
      let i : In a.rule (matching lib rules at bundle) = ground (arith, d) in
      ((In-filter _ a.rule rules).0 i).0

  warranted-In :
      (at : ProcessingStep) (a : SecurityAction)
      → IsWarranted (matching lib rules at bundle) (security_blocks lib bundle) a
      → In a.rule rules
  warranted-In at a d =
      let i : In a.rule (matching lib rules at bundle) = ground (arith, d) in
      ((In-filter _ a.rule rules).0 i).0

  -- Every action is one of the rules'.
  pub evaluate-In :
      (at : ProcessingStep) → All (λ a. In a.rule rules) (evaluate lib rules at bundle)
  evaluate-In transmit_step =
      All-to (IsDemanded (matching lib rules transmit_step bundle)) (λ a. In a.rule rules) _
        (demanded-In transmit_step) evaluate-IsPlanned.0.demanded
  evaluate-In forward_step =
      All-to (IsDemanded (matching lib rules forward_step bundle)) (λ a. In a.rule rules) _
        (demanded-In forward_step) evaluate-IsPlanned.1.demanded
  evaluate-In receive_step =
      All-to (IsWarranted (matching lib rules receive_step bundle) (security_blocks lib bundle))
        (λ a. In a.rule rules) _ (warranted-In receive_step) evaluate-IsInspection.warranted
