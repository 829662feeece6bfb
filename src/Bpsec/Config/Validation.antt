-- ===== src/Bpsec/Config/Validation.antt =====
-- The validation of security rules in core/dtn7/src/core/bpsec/config.rs.
use dtn7_rs.Prelude.{
  String, Bool, true, false, not, ◌&&◌, Option, none, some, List, [], ◌∷◌, length, ◌==◌, ◌≡◌,
  is_empty, is_some, nat_eq, string_eq, if◌then◌else◌, ◌↔◌, Eq, arith,
}
use dtn7_rs.HashSet.{contains, insert}
use dtn7_rs.Bpsec.Config.{
  SecurityRule, SecurityRole, bib, bcb, SecurityTarget, FailureAction, operation_eq,
}

-- Why a rule, or the configuration, is refused.
pub data ConfigError : Type 0 where
  no_key_directory : ConfigError
  repeated_name : ConfigError
  no_targets : ConfigError
  repeated_target : ConfigError
  aes_variant_of_bib : ConfigError
  wrapped_key_of_bib : ConfigError
  sha_variant_of_bcb : ConfigError
  primary_encrypted : ConfigError
  bcb_verified : ConfigError
  bcb_removed : ConfigError
  source_removes : ConfigError

-- `[bpsec]` of the configuration file; the directory of the keys is only asked for.
pub record BpsecConfig : Type 0 where
  pub keys : Option String
  pub rules : List SecurityRule

abbrev pub is_primary : SecurityTarget → Bool
is_primary SecurityTarget.primary = true
is_primary SecurityTarget.payload = false

abbrev same_target : SecurityTarget → SecurityTarget → Bool
same_target SecurityTarget.primary t = is_primary t
same_target SecurityTarget.payload t = not (is_primary t)

pub same_target_iff : (a b : SecurityTarget) → (same_target a b ≡ true) ↔ (a ≡ b)
same_target_iff a b = ground arith

instance abbrev pub target_eq : Eq SecurityTarget
target_eq = record { same = same_target; same_iff = same_target_iff }

abbrev pub is_verifier : SecurityRole → Bool
is_verifier SecurityRole.verifier = true
is_verifier _ = false

abbrev pub is_source : SecurityRole → Bool
is_source SecurityRole.source = true
is_source _ = false

abbrev pub removes : FailureAction → Bool
removes FailureAction.remove_operation = true
removes _ = false

-- `iter().collect()` into a `HashSet`
unfoldable pub unique : List SecurityTarget → List SecurityTarget
unique [] = []
unique (t ∷ ts) = insert t (unique ts)

-- The guarded arms of the `match`, in their order.
abbrev pub operation_error : SecurityRule → Option ConfigError
operation_error rule = elim (rule.operation) [
  | bib ↦
      if is_some rule.context.aes_variant
      then some aes_variant_of_bib
      else if rule.context.wrapped_key
      then some wrapped_key_of_bib
      else none
  | bcb ↦
      if is_some rule.context.sha_variant
      then some sha_variant_of_bcb
      else if contains SecurityTarget.primary rule.targets
      then some primary_encrypted
      else if is_verifier rule.role
      then some bcb_verified
      else if removes rule.on_failure
      then some bcb_removed
      else none
]

abbrev pub role_error : SecurityRule → Option ConfigError
role_error rule =
    if is_source rule.role && removes rule.on_failure then some source_removes else none

abbrev pub or_else : Option ConfigError → Option ConfigError → Option ConfigError
or_else none e = e
or_else (some x) e = some x

unfoldable pub validate_rule : SecurityRule → Option ConfigError
validate_rule rule =
    if is_empty rule.targets
    then some no_targets
    else if not (length (unique rule.targets) == length rule.targets)
    then some repeated_target
    else or_else (operation_error rule) (role_error rule)

-- The loop over the rules, with the names seen so far.
unfoldable pub validate_rules : List String → List SecurityRule → Option ConfigError
validate_rules names [] = none
validate_rules names (rule ∷ rules) =
    let rest = validate_rules (insert rule.name names) rules in
    if contains rule.name names then some repeated_name else or_else (validate_rule rule) rest

unfoldable pub validate : BpsecConfig → Option ConfigError
validate config =
    if not (is_empty config.rules) && not (is_some config.keys)
    then some no_key_directory
    else validate_rules [] config.rules
