-- ===== src/Tests/Policy.antt =====
-- Runs of the security policy: core/dtn7/src/core/bpsec/policy.rs.
use dtn7_rs.Prelude.{◌≡◌, refl, false, none, some, List, [], ◌∷◌, string_eq, ◌==◌}
use dtn7_rs.HashSet.{contains, insert}
use dtn7_rs.Node.{transmit_step, receive_step, forward_step}
use dtn7_rs.Bpsec.Config.{SecurityRule, SecurityRole, SecurityTarget, bib, bcb, FailureAction}
use dtn7_rs.Bpsec.Policy.{
  Library, SecuredBundle, matching, security_blocks, evaluate, sign, encrypt, applies_at,
  matches_bundle, targets_of, protect, protect_targets, source_actions, inspect, handle_blocks,
  report_targets, receiver_actions, is_protected, accepts_primary, decrypt, missing,
}
use dtn7_rs.Bpsec.Policy.Planned.{IsPlanned}
use dtn7_rs.Bpsec.Policy.Inspecting.{IsInspection}
use dtn7_rs.Bpsec.Policy.Evaluation.{evaluate-IsPlanned, evaluate-IsInspection}

-- "**" matches everything, and any other glob itself.
abbrev pub lib : Library
lib = record {
  glob_match = λ glob s. glob == "**";
  integrity_block = 11;
  confidentiality_block = 12;
}

abbrev pub signing : SecurityRule
signing = record {
  name = "sign";
  role = SecurityRole.source;
  source = "**";
  destination = "**";
  operation = bib;
  targets = SecurityTarget.payload ∷ SecurityTarget.primary ∷ [];
  key = "k1";
  context = record { sha_variant = none; aes_variant = none; wrapped_key = false };
  on_failure = FailureAction.drop;
}

abbrev pub encrypting : SecurityRule
encrypting = record signing {
  name = "encrypt";
  operation = bcb;
  targets = SecurityTarget.payload ∷ [];
}

abbrev pub verifying : SecurityRule
verifying = record signing { name = "verify"; role = SecurityRole.verifier }

abbrev pub decrypting : SecurityRule
decrypting = record encrypting { name = "decrypt"; role = SecurityRole.acceptor }

abbrev pub rules : List SecurityRule
rules = encrypting ∷ signing ∷ verifying ∷ decrypting ∷ []

abbrev pub plain : SecuredBundle
plain = record {
  source = "dtn://a/";
  destination = "dtn://b/";
  canonicals = record { block_type = 1; block_number = 1; security_targets = none } ∷ [];
}

-- The payload is encrypted.
abbrev pub secret : SecuredBundle
secret = record plain {
  canonicals =
      record { block_type = 12; block_number = 2; security_targets = some (1 ∷ []) }
      ∷ plain.canonicals;
}

-- The primary block is signed first.
plain_sent :
    evaluate lib rules transmit_step plain
    ≡ record { rule = signing; kind = sign 0 }
      ∷ record { rule = signing; kind = sign 1 }
      ∷ record { rule = encrypting; kind = encrypt 1 }
      ∷ []
unfolding evaluate applies_at matches_bundle targets_of protect protect_targets source_actions
    security_blocks contains insert
plain_sent = refl

secret_received :
    evaluate lib rules receive_step secret
    ≡ record { rule = verifying; kind = missing 0 }
      ∷ record { rule = decrypting; kind = decrypt 2 }
      ∷ []
unfolding evaluate applies_at matches_bundle targets_of inspect handle_blocks report_targets
    receiver_actions is_protected accepts_primary security_blocks contains insert
secret_received = refl

evaluate-IsPlanned_example :
    IsPlanned
      (matching lib rules transmit_step plain)
      (security_blocks lib plain)
      (evaluate lib rules transmit_step plain)
    × IsPlanned
        (matching lib rules forward_step plain)
        (security_blocks lib plain)
        (evaluate lib rules forward_step plain)
evaluate-IsPlanned_example = evaluate-IsPlanned lib rules plain

evaluate-IsInspection_example :
    IsInspection
      (matching lib rules receive_step secret)
      (security_blocks lib secret)
      (evaluate lib rules receive_step secret)
evaluate-IsInspection_example = evaluate-IsInspection lib rules secret
