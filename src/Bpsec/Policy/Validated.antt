-- ===== src/Bpsec/Policy/Validated.antt =====
-- What the policy asks for when the rules are valid: core/dtn7/src/core/bpsec/config.rs and policy.rs.
use dtn7_rs.Prelude.{
  ℕ, String, ◌≡◌, true, false, none, List, [], ◌∷◌, In, All, arith, string_eq, In-filter, inl, inr,
  refl, subst, map, ◌==◌, nat_eq,
}
use dtn7_rs.HashSet.{contains, insert}
use dtn7_rs.Node.{transmit_step, receive_step, forward_step, ProcessingStep}
use dtn7_rs.Bpsec.Config.{SecurityRule, SecurityRole, bcb, operation_eq, SecurityTarget}
use dtn7_rs.Bpsec.Config.Validation.{
  BpsecConfig, removes, validate_rule, validate_rules, validate, target_eq,
}
use dtn7_rs.Bpsec.Policy.{
  ActionKind, Library, SecuredBundle, SecurityAction, matching, security_blocks, evaluate,
  target_number, sign, encrypt, verify, accept, decrypt, missing, applies_at,
}
use dtn7_rs.Bpsec.Policy.Counting.{demands, All-to}
use dtn7_rs.Bpsec.Policy.Planned.{IsDemanded}
use dtn7_rs.Bpsec.Policy.Inspecting.{IsWarranted}
use dtn7_rs.Bpsec.Policy.Evaluation.{evaluate-IsPlanned, evaluate-IsInspection}

validate_rules-In :
    (names : List String) (rules : List SecurityRule)
    → validate_rules names rules ≡ none
    → (r : SecurityRule) → In r rules
    → validate_rule r ≡ none
unfolding validate_rules
validate_rules-In names [] h r i = absurd i
validate_rules-In names (rule ∷ rules) h r i =
    let ok : validate_rule rule ≡ none = ground (arith, h) in
    let rest : validate_rules (insert rule.name names) rules ≡ none = ground (arith, h) in
    elim i [
      | inl e ↦ subst (λ x. validate_rule x ≡ none) e ok
      | inr j ↦ validate_rules-In (insert rule.name names) rules rest r j
    ]

valid_rule :
    (config : BpsecConfig) (r : SecurityRule)
    → validate config ≡ none
    → In r config.rules
    → validate_rule r ≡ none
unfolding validate
valid_rule config r h i = validate_rules-In [] config.rules (ground (arith, h)) r i

contains-primary :
    (ts : List SecurityTarget)
    → contains 0 (map target_number ts) ≡ contains SecurityTarget.primary ts
unfolding contains
contains-primary [] = refl
contains-primary (SecurityTarget.primary ∷ ts) = refl
contains-primary (SecurityTarget.payload ∷ ts) = contains-primary ts

-- A valid rule never has the primary block encrypted.
bcb_spares_primary : (r : SecurityRule) → validate_rule r ≡ none → demands bcb 0 r ≡ false
unfolding validate_rule
bcb_spares_primary r h = ground (arith, h, contains-primary r.targets)

-- Only BIBs are removed after a failure, and not by sources.
removes_bibs :
    (r : SecurityRule)
    → validate_rule r ≡ none
    → (r.operation == bcb) ≡ true
    → removes r.on_failure ≡ false
unfolding validate_rule
removes_bibs r h o = ground (arith, h)

sources_keep :
    (r : SecurityRule) (at : ProcessingStep)
    → validate_rule r ≡ none
    → applies_at r.role at ≡ true
    → applies_at SecurityRole.source at ≡ true
    → removes r.on_failure ≡ false
unfolding validate_rule applies_at
sources_keep r at h k l = ground (arith, h, k, l)

-- An action of one of the rules that never encrypts the primary block, and whose failure never
-- removes anything but a BIB that is verified or accepted.
abbrev pub IsSafe : List SecurityRule → SecurityAction → Type 0
IsSafe rules a = In a.rule rules × elim (a.kind) [
  | sign t ↦ removes a.rule.on_failure ≡ false
  | encrypt t ↦ ((t == 0) ≡ false) × (removes a.rule.on_failure ≡ false)
  | decrypt n ↦ removes a.rule.on_failure ≡ false
  | _ ↦ Unit
]

module _ (lib : Library) (config : BpsecConfig) (valid : validate config ≡ none)
    (bundle : SecuredBundle) where
  abbrev rules_at : ProcessingStep → List SecurityRule
  rules_at at = matching lib config.rules at bundle

  found :
      (at : ProcessingStep) (r : SecurityRule)
      → In r (rules_at at)
      → In r config.rules × (validate_rule r ≡ none) × (applies_at r.role at ≡ true)
  found at r i =
      let (j, m) = (In-filter _ r config.rules).0 i in
      (j, valid_rule config r valid j, ground (arith, m))

  safe_encryption :
      (r : SecurityRule) (t : ℕ)
      → validate_rule r ≡ none
      → demands bcb t r ≡ true
      → ((t == 0) ≡ false) × (removes r.on_failure ≡ false)
  safe_encryption r t h d =
      ground (arith, nat_eq.same_iff t 0, bcb_spares_primary r h, removes_bibs r h, d)

  demanded-IsSafe :
      (at : ProcessingStep)
      → applies_at SecurityRole.source at ≡ true
      → (a : SecurityAction) → IsDemanded (rules_at at) a
      → IsSafe config.rules a
  demanded-IsSafe at l a d = go a.rule a.kind d
    where
      go :
          (r : SecurityRule) (k : ActionKind)
          → IsDemanded (rules_at at) (record { rule = r; kind = k })
          → IsSafe config.rules (record { rule = r; kind = k })
      go r (sign t) (i, d) =
          let (j, ok, applies) = found at r i in (j, sources_keep r at ok applies l)
      go r (encrypt t) (i, d) = let (j, ok, applies) = found at r i in (j, safe_encryption r t ok d)
      go r (verify n) d = absurd d
      go r (accept n) d = absurd d
      go r (decrypt n) d = absurd d
      go r (missing n) d = absurd d

  warranted-IsSafe :
      (a : SecurityAction)
      → IsWarranted (rules_at receive_step) (security_blocks lib bundle) a
      → IsSafe config.rules a
  warranted-IsSafe a d = go a.rule a.kind d
    where
      go :
          (r : SecurityRule) (k : ActionKind)
          → IsWarranted
              (rules_at receive_step)
              (security_blocks lib bundle)
              (record { rule = r; kind = k })
          → IsSafe config.rules (record { rule = r; kind = k })
      go r (missing t) (i, _, _) = ((found receive_step r i).0, tt)
      go r (decrypt n) (i, o, _) =
          let (j, ok, applies) = found receive_step r i in (j, removes_bibs r ok o)
      go r (verify n) (i, _, _, _) = ((found receive_step r i).0, tt)
      go r (accept n) (i, _, _, _) = ((found receive_step r i).0, tt)
      go r (sign n) d = absurd d
      go r (encrypt n) d = absurd d

  -- With a configuration that is valid, at every step and for every bundle: each action is one of
  -- a configured rule, no action encrypts the primary block, and no rule whose action signs,
  -- encrypts or decrypts has its operation removed on a failure.
  pub evaluate-IsSafe :
      (at : ProcessingStep) → All (IsSafe config.rules) (evaluate lib config.rules at bundle)
  unfolding applies_at
  evaluate-IsSafe transmit_step =
      All-to (IsDemanded (rules_at transmit_step)) (IsSafe config.rules) _
        (demanded-IsSafe transmit_step refl) (evaluate-IsPlanned lib config.rules bundle).0.demanded
  evaluate-IsSafe forward_step =
      All-to (IsDemanded (rules_at forward_step)) (IsSafe config.rules) _
        (demanded-IsSafe forward_step refl) (evaluate-IsPlanned lib config.rules bundle).1.demanded
  evaluate-IsSafe receive_step =
      All-to (IsWarranted (rules_at receive_step) (security_blocks lib bundle))
        (IsSafe config.rules) _ warranted-IsSafe
        (evaluate-IsInspection lib config.rules bundle).warranted
