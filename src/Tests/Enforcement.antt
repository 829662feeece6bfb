-- ===== src/Tests/Enforcement.antt =====
-- Runs of the enforcement: core/dtn7/src/core/bpsec/enforcement.rs and config.rs.
use dtn7_rs.Prelude.{
  ℕ, ◌+◌, ◌≡◌, refl, String, true, none, some, [], ◌∷◌, All, string_eq, nat_eq, ◌==◌, filter, not,
}
use dtn7_rs.HashSet.{contains, insert}
use dtn7_rs.Extensions.{other_reason}
use dtn7_rs.Node.{transmit_step}
use dtn7_rs.Bpsec.Config.Validation.{BpsecConfig, validate, validate_rules, validate_rule, unique}
use dtn7_rs.Bpsec.Policy.{SecuredBundle, evaluate}
use dtn7_rs.Bpsec.Policy.Validated.{IsSafe, evaluate-IsSafe}
use dtn7_rs.Bpsec.Enforcement.{Operations, Enforcing, succeeded}
use dtn7_rs.Tests.Policy.{lib, rules, plain, secret}

abbrev config : BpsecConfig
config = record { keys = some "/etc/dtn7/keys"; rules = rules }

config_valid : validate config ≡ none
unfolding validate validate_rules validate_rule unique contains insert
config_valid = refl

evaluate-IsSafe_example : All (IsSafe rules) (evaluate lib rules transmit_step plain)
evaluate-IsSafe_example = evaluate-IsSafe lib config config_valid plain transmit_step

-- A new security block of a type, with a number and a target.
abbrev add_block : ℕ → ℕ → ℕ → SecuredBundle → SecuredBundle
add_block block_type number target b = record b {
  canonicals =
      record {
        block_type = block_type;
        block_number = number;
        security_targets = some (target ∷ []);
      }
      ∷ b.canonicals;
}

abbrev without_block : ℕ → SecuredBundle → SecuredBundle
without_block number b = record b {
  canonicals = filter (λ c. not (c.block_number == number)) b.canonicals;
}

-- Every key fits; a source of random bytes is a number.
abbrev ops : Operations String String SecuredBundle ℕ
ops = record {
  view = λ b. b;
  sign = λ target key node variant b. (succeeded tt, add_block 11 (10 + target) target b);
  verify = λ number key b. succeeded true;
  accept = λ number key b. (succeeded true, without_block number b);
  encrypt =
      λ target key iv node variant wrapped b. (succeeded tt, add_block 12 (20 + target) target b);
  decrypt = λ number key b. (succeeded tt, without_block number b);
  remove_block = without_block;
  calculate_crc = λ b. b;
  wrap_key = λ key content_key. succeeded content_key;
  iv_len = 12;
  random_bytes = λ n g. ("random", g + 1);
  missing_security_operation = other_reason 15;
  failed_security_operation = other_reason 16;
}

-- The payload of this bundle is encrypted, and its primary block is not signed.
abbrev arriving : Enforcing SecuredBundle ℕ
arriving = record { subject = (secret, 0); statistics = [] }
