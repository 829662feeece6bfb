-- ===== src/Bpsec/Enforcement/Closed.antt =====
-- What becomes of a bundle whose rules drop it on failure: core/dtn7/src/core/bpsec/enforcement.rs.
use dtn7_rs.Prelude.{
  String, ◌≡◌, not, Option, none, some, List, [], ◌∷◌, any, filter, is_empty, string_eq,
  if◌then◌else◌,
}
use dtn7_rs.Map.{Map}
use dtn7_rs.Extensions.{StatusReportReason}
use dtn7_rs.Node
use dtn7_rs.Node.{ProcessingStep, Verdict}
use dtn7_rs.Bpsec.Config.{SecurityRule, FailureAction}
use dtn7_rs.Bpsec.Policy.{Library, SecurityAction}
use dtn7_rs.Bpsec.Enforcement.Performed.{and_then, performed}
use dtn7_rs.Bpsec.Enforcement.{
  Operations, Subject, Enforcing, is_decryption, is_bcb_action, evaluated,
}

abbrev pub Drops : SecurityRule → Type 0
Drops rule = rule.on_failure ≡ FailureAction.drop

module _ {E K B G : Type 0} (ops : Operations E K B G) (lib : Library) (keys : Map String K)
    (node : E) where
  -- Every action has to succeed.
  unfoldable pub strict_each : List SecurityAction → Subject B G → Option (Subject B G)
  strict_each [] s = some s
  strict_each (a ∷ actions) s = elim (performed ops lib keys node a s) [
    | none ↦ none
    | some t ↦ strict_each actions t
  ]

  abbrev with_crc : Subject B G → Option (Subject B G)
  with_crc (b, g) = some (ops.calculate_crc b, g)

  abbrev hidden_actions : List SecurityRule → ProcessingStep → Subject B G → List SecurityAction
  hidden_actions rules at s =
      filter (λ a. not (is_bcb_action ops lib keys node a))
        (evaluated ops lib keys node rules at s.0)

  -- The bundle behind all that the rules demand, if all of it succeeds.
  abbrev pub strict : List SecurityRule → ProcessingStep → Subject B G → Option (Subject B G)
  strict rules at s =
      let actions = evaluated ops lib keys node rules at s.0 in
      if is_empty actions
      then some s
      else if any (is_decryption ops lib keys node) actions
      then and_then (strict_each (filter (is_bcb_action ops lib keys node) actions) s)
          (λ t. and_then (strict_each (hidden_actions rules at t) t) with_crc)
      else and_then (strict_each actions s) with_crc

  abbrev Follows : Option (Subject B G) → Option Verdict × Enforcing B G → Type 0
  Follows (some t) (v, e) = (v ≡ none) × (e.subject ≡ t)
  Follows none (v, e) = (r : StatusReportReason) × (v ≡ some (Node.drop r))

  abbrev pub Ends : Option (Subject B G) → Verdict × Enforcing B G → Type 0
  Ends (some t) (v, e) = (v ≡ Node.accept) × (e.subject ≡ t)
  Ends none (v, e) = (r : StatusReportReason) × (v ≡ Node.drop r)
