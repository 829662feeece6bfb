-- ===== src/Bpsec/Enforcement.antt =====
-- core/dtn7/src/core/bpsec/enforcement.rs: the security actions are carried out. The operations of
-- bp7 are an interface, and so are random bytes, whose source is part of the state.
pub mod Performed
pub mod Closed
use dtn7_rs.Prelude.{
  ℕ, String, Bool, true, false, not, Option, none, some, List, [], ◌∷◌, ◌++◌, length, any, filter,
  is_empty, string_eq, ◌==◌, if◌then◌else◌,
}
use dtn7_rs.Map.{Map, lookup}
use dtn7_rs.Extensions.{StatusReportReason}
use dtn7_rs.Node
use dtn7_rs.Node.{ProcessingStep, Verdict}
use dtn7_rs.Bpsec.Config
use dtn7_rs.Bpsec.Config.{
  SecurityRule, SecurityContext, SecurityOperation, bcb, operation_eq, FailureAction, ShaVariant,
  AesVariant, sha384, aes128, aes256,
}
use dtn7_rs.Bpsec.Statistics
use dtn7_rs.Bpsec.Statistics.{Event, Statistics, record_n, record_one}
use dtn7_rs.Bpsec.Policy.{
  Library, SecuredBundle, SecurityAction, ActionKind, evaluate, bibs_of, sign, encrypt, verify,
  accept, decrypt,
}

-- A result of bp7. Of an error only the reason for a status report is asked.
pub data Attempted (A : Type 0) : Type 0 where
  succeeded : A → Attempted A
  rejected : StatusReportReason → Attempted A

-- `bp7::bpsec` over the types `E` of endpoint IDs, `K` of byte strings, `B` of bundles and `G` of the
-- sources of random bytes, with what the policy reads of a bundle, and two reasons.
pub record Operations (E K B G : Type 0) : Type 0 where
  pub view : B → SecuredBundle
  pub sign : ℕ → K → E → ShaVariant → B → Attempted (Unit {0}) × B
  pub verify : ℕ → K → B → Attempted Bool
  pub accept : ℕ → K → B → Attempted Bool × B
  pub encrypt : ℕ → K → K → E → AesVariant → Option K → B → Attempted (Unit {0}) × B
  pub decrypt : ℕ → K → B → Attempted (Unit {0}) × B
  pub remove_block : ℕ → B → B
  pub calculate_crc : B → B
  pub wrap_key : K → K → Attempted K
  pub iv_len : ℕ
  pub random_bytes : ℕ → G → K × G
  pub missing_security_operation : StatusReportReason
  pub failed_security_operation : StatusReportReason

-- Why a security action failed.
pub data Failure : Type 0 where
  missing : Failure
  not_verified : Failure
  unknown_key : String → Failure
  bpsec : StatusReportReason → Failure

pub data Applied : Type 0 where
  ok : ℕ → Applied
  err : Failure → Applied

abbrev pub failure_event : Failure → Event
failure_event Failure.missing = Event.missing
failure_event _ = Event.failed

abbrev pub success_event : ActionKind → Option Event
success_event (sign _) = some Event.signed
success_event (verify _) = some Event.verified
success_event (accept _) = some Event.accepted
success_event (encrypt _) = some Event.encrypted
success_event (decrypt _) = some Event.decrypted
success_event (ActionKind.missing _) = none

abbrev unwrap_or : {A : Type 0} → A → Option A → A
unwrap_or a none = a
unwrap_or a (some b) = b

abbrev pub sha_variant : SecurityContext → ShaVariant
sha_variant context = unwrap_or sha384 context.sha_variant

abbrev pub aes_variant : SecurityRule → AesVariant
aes_variant rule = unwrap_or aes256 rule.context.aes_variant

abbrev pub key_len : AesVariant → ℕ
key_len aes128 = 16
key_len aes256 = 32

-- The bundle, and where random bytes come from.
abbrev pub Subject : Type 0 → Type 0 → Type 0
Subject B G = B × G

-- What enforcement works on.
pub record Enforcing (B G : Type 0) : Type 0 where
  pub subject : Subject B G
  pub statistics : Statistics

module _ {E K B G : Type 0} (ops : Operations E K B G) (lib : Library) (keys : Map String K)
    (node : E) where
  abbrev pub failure_reason : Failure → StatusReportReason
  failure_reason Failure.missing = ops.missing_security_operation
  failure_reason (bpsec reason) = reason
  failure_reason _ = ops.failed_security_operation

  -- A result of bp7 on the bundle, as the number of blocks.
  abbrev counted : Attempted (Unit {0}) × B → G → Applied × Subject B G
  counted (succeeded _, b) g = (ok 1, (b, g))
  counted (rejected reason, b) g = (err (bpsec reason), (b, g))

  abbrev verified : Attempted Bool → Subject B G → Applied × Subject B G
  verified (succeeded true) s = (ok 1, s)
  verified (succeeded false) s = (err not_verified, s)
  verified (rejected reason) s = (err (bpsec reason), s)

  abbrev accepted : Attempted Bool × B → G → Applied × Subject B G
  accepted (result, b) g = verified result (b, g)

  -- With a key or without one, and a fresh IV.
  abbrev encrypt_with :
      SecurityRule → ℕ → K → Option K → Subject B G → Attempted (Unit {0}) × Subject B G
  encrypt_with rule block key wrapped (b, g) =
      let (iv, g') = ops.random_bytes ops.iv_len g in
      let (result, b') = ops.encrypt block key iv node (aes_variant rule) wrapped b in
      (result, (b', g'))

  abbrev wrapped_with :
      SecurityRule → ℕ → K → Attempted K → Subject B G → Attempted (Unit {0}) × Subject B G
  wrapped_with rule block key (succeeded wrapped) s = encrypt_with rule block key (some wrapped) s
  wrapped_with rule block key (rejected reason) s = (rejected reason, s)

  unfoldable pub encrypt_block :
      SecurityRule → ℕ → K → Subject B G → Attempted (Unit {0}) × Subject B G
  encrypt_block rule block key (b, g) =
      if rule.context.wrapped_key
      then (let (content_key, g') = ops.random_bytes (key_len (aes_variant rule)) g in
          wrapped_with rule block key (ops.wrap_key key content_key) (b, g'))
      else encrypt_with rule block key none (b, g)

  -- `?` after each of the blocks.
  unfoldable pub encrypt_blocks :
      SecurityRule → List ℕ → K → Subject B G → Attempted (Unit {0}) × Subject B G
  encrypt_blocks rule [] key s = (succeeded tt, s)
  encrypt_blocks rule (block ∷ blocks) key s =
      let (result, t) = encrypt_block rule block key s in
      elim result [
        | succeeded _ ↦ encrypt_blocks rule blocks key t
        | rejected reason ↦ (rejected reason, t)
      ]

  -- The copy takes the place of the bundle if all blocks are encrypted.
  abbrev replaced : ℕ → B → Attempted (Unit {0}) × Subject B G → Applied × Subject B G
  replaced n b (succeeded _, t) = (ok n, t)
  replaced n b (rejected reason, (_, g)) = (err (bpsec reason), (b, g))

  abbrev one_encrypted : Attempted (Unit {0}) × Subject B G → Applied × Subject B G
  one_encrypted (result, (b, g)) = counted (result, b) g

  unfoldable pub encrypt_target : SecurityRule → ℕ → K → Subject B G → Applied × Subject B G
  encrypt_target rule target key (b, g) =
      let bibs = bibs_of lib (ops.view b) target in
      if is_empty bibs
      then one_encrypted (encrypt_block rule target key (b, g))
      else replaced (length (bibs ++ target ∷ [])) b
          (encrypt_blocks rule (bibs ++ target ∷ []) key (b, g))

  -- The action with the key of its rule.
  abbrev apply_with : SecurityRule → ActionKind → K → Subject B G → Applied × Subject B G
  apply_with rule (sign target) key (b, g) =
      counted (ops.sign target key node (sha_variant rule.context) b) g
  apply_with rule (verify number) key (b, g) = verified (ops.verify number key b) (b, g)
  apply_with rule (accept number) key (b, g) = accepted (ops.accept number key b) g
  apply_with rule (encrypt target) key s = encrypt_target rule target key s
  apply_with rule (decrypt number) key (b, g) = counted (ops.decrypt number key b) g
  apply_with rule (ActionKind.missing _) key s = (err Failure.missing, s)

  abbrev apply_keyed : SecurityRule → ActionKind → Option K → Subject B G → Applied × Subject B G
  apply_keyed rule (ActionKind.missing _) _ s = (err Failure.missing, s)
  apply_keyed rule kind none s = (err (unknown_key rule.key), s)
  apply_keyed rule kind (some key) s = apply_with rule kind key s

  unfoldable pub apply : SecurityAction → Subject B G → Applied × Subject B G
  apply a s = apply_keyed a.rule a.kind (lookup a.rule.key keys) s

  abbrev pub remove_operation : ActionKind → B → B
  remove_operation (verify number) b = ops.remove_block number b
  remove_operation (accept number) b = ops.remove_block number b
  remove_operation _ b = b

  abbrev recorded : String → Option Event → ℕ → Statistics → Statistics
  recorded name none n statistics = statistics
  recorded name (some event) n statistics = record_n name event n statistics

  -- What follows a failure. A verdict ends the enforcement.
  abbrev fail_by :
      FailureAction → SecurityAction → Failure → Enforcing B G → Option Verdict × Enforcing B G
  fail_by FailureAction.drop a failure e = (
    some (Node.drop (failure_reason failure)),
    record e { statistics = record_one a.rule.name Event.dropped e.statistics },
  )
  fail_by FailureAction.remove_operation a failure e =
      (none, record e { subject = (remove_operation a.kind e.subject.0, e.subject.1) })
  fail_by FailureAction.log a failure e = (none, e)

  abbrev settle :
      SecurityAction → Applied × Subject B G → Statistics → Option Verdict × Enforcing B G
  settle a (ok blocks, s) statistics = (
    none,
    record {
      subject = s;
      statistics = recorded a.rule.name (success_event a.kind) blocks statistics;
    },
  )
  settle a (err failure, s) statistics = fail_by a.rule.on_failure a failure (record {
    subject = s;
    statistics = record_one a.rule.name (failure_event failure) statistics;
  })

  unfoldable pub carry_out : SecurityAction → Enforcing B G → Option Verdict × Enforcing B G
  carry_out a e = settle a (apply a e.subject) e.statistics

  unfoldable pub carry_each : List SecurityAction → Enforcing B G → Option Verdict × Enforcing B G
  carry_each [] e = (none, e)
  carry_each (a ∷ actions) e =
      let (verdict, f) = carry_out a e in
      elim verdict [ none ↦ carry_each actions f | some v ↦ (some v, f) ]

  abbrev pub is_decryption : SecurityAction → Bool
  is_decryption a = elim (a.kind) [ decrypt _ ↦ true | _ ↦ false ]

  abbrev pub is_bcb_action : SecurityAction → Bool
  is_bcb_action a = a.rule.operation == bcb

  abbrev pub evaluated : List SecurityRule → ProcessingStep → B → List SecurityAction
  evaluated rules at b = evaluate lib rules at (ops.view b)

  -- The end of `enforce`, behind the actions.
  abbrev finish : Option Verdict × Enforcing B G → Verdict × Enforcing B G
  finish (some v, e) = (v, e)
  finish (none, e) =
      (Node.accept, record e { subject = (ops.calculate_crc e.subject.0, e.subject.1) })

  -- The actions that become visible by the decryption.
  abbrev revealed :
      List SecurityRule
      → ProcessingStep
      → Option Verdict × Enforcing B G
      → Option Verdict × Enforcing B G
  revealed rules at (some v, e) = (some v, e)
  revealed rules at (none, e) =
      carry_each (filter (λ a. not (is_bcb_action a)) (evaluated rules at e.subject.0)) e

  unfoldable pub enforce :
      List SecurityRule → ProcessingStep → Enforcing B G → Verdict × Enforcing B G
  enforce rules at e =
      let actions = evaluated rules at e.subject.0 in
      if is_empty actions
      then (Node.accept, e)
      else if any is_decryption actions
      then finish (revealed rules at (carry_each (filter is_bcb_action actions) e))
      else finish (carry_each actions e)
