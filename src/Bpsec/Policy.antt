-- ===== src/Bpsec/Policy.antt =====
-- core/dtn7/src/core/bpsec/policy.rs: which security operations a bundle needs at a step of its processing. Glob matching, the texts of the
-- endpoint IDs and the decoding of security blocks come from outside.
pub mod Counting
pub mod Source
pub mod Demands
pub mod Planned
pub mod Receiver
pub mod Warrants
pub mod Inspecting
pub mod Evaluation
pub mod Validated
use dtn7_rs.Prelude.{
  ℕ, String, ◌≡◌, ◌↔◌, Bool, true, false, not, ◌&&◌, ◌||◌, Option, none, some, List, [], ◌∷◌, ◌++◌,
  map, any, filter, filter_map, arith, Eq, ◌==◌, nat_eq, if◌then◌else◌,
}
use dtn7_rs.HashSet.{contains, insert}
use dtn7_rs.Bpsec.Config.{
  SecurityRole, SecurityOperation, bib, bcb, SecurityTarget, SecurityRule, operation_eq, demand_eq,
}
use dtn7_rs.Node.{ProcessingStep, transmit_step, receive_step, forward_step}

abbrev pub primary_block_number : ℕ
primary_block_number = 0

abbrev pub payload_block_number : ℕ
payload_block_number = 1

-- What the crates outside provide: the matching of globs, and two block types.
pub record Library : Type 0 where
  pub glob_match : String → String → Bool
  pub integrity_block : ℕ
  pub confidentiality_block : ℕ

pub data ActionKind : Type 0 where
  sign encrypt verify accept decrypt missing : ℕ → ActionKind

pub record SecurityAction : Type 0 where
  pub rule : SecurityRule
  pub kind : ActionKind

pub record SecurityBlock : Type 0 where
  pub number : ℕ
  pub operation : SecurityOperation
  pub targets : List ℕ
  pub encrypts_bibs : Bool

-- A canonical block of which the data is decoded as a security block, which may fail.
pub record SecuredBlock : Type 0 where
  pub block_type : ℕ
  pub block_number : ℕ
  pub security_targets : Option (List ℕ)

-- What the policy reads of a bundle.
pub record SecuredBundle : Type 0 where
  pub source : String
  pub destination : String
  pub canonicals : List SecuredBlock

unfoldable pub applies_at : SecurityRole → ProcessingStep → Bool
applies_at SecurityRole.source receive_step = false
applies_at SecurityRole.source _ = true
applies_at _ receive_step = true
applies_at _ _ = false

unfoldable pub matches_bundle : Library → SecurityRule → SecuredBundle → Bool
matches_bundle lib rule bundle =
    lib.glob_match rule.source bundle.source && lib.glob_match rule.destination bundle.destination

abbrev pub target_number : SecurityTarget → ℕ
target_number SecurityTarget.primary = primary_block_number
target_number SecurityTarget.payload = payload_block_number

abbrev pub target_numbers : SecurityRule → List ℕ
target_numbers rule = map target_number rule.targets

-- `flat_map` over the blocks of an operation, as a list.
unfoldable pub targets_of : List SecurityBlock → SecurityOperation → List ℕ
targets_of [] operation = []
targets_of (block ∷ blocks) operation =
    let rest = targets_of blocks operation in
    if block.operation == operation then block.targets ++ rest else rest

-- A stable sort by a Boolean key, `false` first.
abbrev pub sort_by_key : (SecurityAction → Bool) → List SecurityAction → List SecurityAction
sort_by_key key actions = filter (λ a. not (key a)) actions ++ filter key actions

-- The variables of `source_actions`.
pub record Protection : Type 0 where
  pub signed : List ℕ
  pub encrypted : List ℕ
  pub signs : List SecurityAction
  pub encryptions : List SecurityAction

abbrev pub sign_target : List ℕ → SecurityRule → ℕ → Protection → Protection
sign_target already_encrypted rule target p =
    if not (contains target already_encrypted) && not (contains target p.signed)
    then record p {
      signed = insert target p.signed;
      signs = p.signs ++ record { rule = rule; kind = sign target } ∷ [];
    }
    else p

abbrev pub encrypt_target : SecurityRule → ℕ → Protection → Protection
encrypt_target rule target p =
    if not (contains target p.encrypted)
    then record p {
      encrypted = insert target p.encrypted;
      encryptions = p.encryptions ++ record { rule = rule; kind = encrypt target } ∷ [];
    }
    else p

unfoldable pub protect_targets :
    List ℕ → SecurityOperation → SecurityRule → List ℕ → Protection → Protection
protect_targets already_encrypted operation rule [] p = p
protect_targets already_encrypted bib rule (target ∷ targets) p =
    protect_targets already_encrypted bib rule targets (sign_target already_encrypted rule target p)
protect_targets already_encrypted bcb rule (target ∷ targets) p =
    protect_targets already_encrypted bcb rule targets (encrypt_target rule target p)

unfoldable pub protect : List ℕ → List SecurityRule → Protection → Protection
protect already_encrypted [] p = p
protect already_encrypted (rule ∷ rules) p =
    protect already_encrypted rules
      (protect_targets already_encrypted rule.operation rule (target_numbers rule) p)

abbrev pub signs_primary : ActionKind → Bool
signs_primary (sign target) = target == primary_block_number
signs_primary _ = false

abbrev pub unprotected : List SecurityBlock → Protection
unprotected existing = record {
  signed = targets_of existing bib;
  encrypted = targets_of existing bcb;
  signs = [];
  encryptions = [];
}

unfoldable pub source_actions : List SecurityRule → List SecurityBlock → List SecurityAction
source_actions rules existing =
    let p = protect (targets_of existing bcb) rules (unprotected existing) in
    sort_by_key (λ a. not (signs_primary a.kind)) p.signs ++ p.encryptions

-- The variables of `receiver_actions`.
pub record Inspection : Type 0 where
  pub handled : List ℕ
  pub reported_missing : List (SecurityOperation × ℕ)
  pub missing_actions : List SecurityAction
  pub decryptions : List SecurityAction
  pub verifications : List SecurityAction

-- The security blocks that a rule is about.
abbrev pub protecting : SecurityRule → SecurityBlock → Bool
protecting rule block =
    block.operation == rule.operation
    && (block.encrypts_bibs || any (λ t. contains t (target_numbers rule)) block.targets)

abbrev pub handling : SecurityOperation → SecurityRole → ℕ → ActionKind
handling bcb _ number = decrypt number
handling bib SecurityRole.acceptor number = accept number
handling bib _ number = verify number

abbrev pub put_action : SecurityRule → ℕ → Inspection → Inspection
put_action rule number i =
    let action : SecurityAction = record {
      rule = rule;
      kind = handling rule.operation rule.role number;
    } in
    if rule.operation == bcb
    then record i { decryptions = i.decryptions ++ action ∷ [] }
    else record i { verifications = i.verifications ++ action ∷ [] }

abbrev pub handle_block : SecurityRule → ℕ → Inspection → Inspection
handle_block rule number i =
    if contains number i.handled
    then i
    else put_action rule number (record i { handled = insert number i.handled })

unfoldable pub handle_blocks : SecurityRule → List SecurityBlock → Inspection → Inspection
handle_blocks rule [] i = i
handle_blocks rule (block ∷ blocks) i = handle_blocks rule blocks (handle_block rule block.number i)

-- Whether a target has the operation of a rule, or may have it behind an encryption.
unfoldable pub is_protected : List SecurityBlock → SecurityOperation → ℕ → Bool
is_protected existing operation target =
    any (λ b. b.operation == operation && contains target b.targets) existing
    || (operation == bib && contains target (targets_of existing bcb))

abbrev pub report_target : List SecurityBlock → SecurityRule → ℕ → Inspection → Inspection
report_target existing rule target i =
    if not (is_protected existing rule.operation target)
      && not (contains (rule.operation, target) i.reported_missing)
    then record i {
      reported_missing = insert (rule.operation, target) i.reported_missing;
      missing_actions = i.missing_actions ++ record { rule = rule; kind = missing target } ∷ [];
    }
    else i

unfoldable pub report_targets : List SecurityBlock → SecurityRule → List ℕ → Inspection → Inspection
report_targets existing rule [] i = i
report_targets existing rule (target ∷ targets) i =
    report_targets existing rule targets (report_target existing rule target i)

unfoldable pub inspect : List SecurityBlock → List SecurityRule → Inspection → Inspection
inspect existing [] i = i
inspect existing (rule ∷ rules) i = inspect existing rules (
    report_targets existing rule (target_numbers rule)
      (handle_blocks rule (filter (protecting rule) existing) i))

unfoldable pub accepts_primary : List SecurityBlock → ActionKind → Bool
accepts_primary existing (accept number) =
    any (λ b. b.number == number && contains primary_block_number b.targets) existing
accepts_primary existing _ = false

abbrev pub uninspected : Inspection
uninspected = record {
  handled = [];
  reported_missing = [];
  missing_actions = [];
  decryptions = [];
  verifications = [];
}

unfoldable pub receiver_actions : List SecurityRule → List SecurityBlock → List SecurityAction
receiver_actions rules existing =
    let i = inspect existing rules uninspected in
    i.missing_actions
    ++ (i.decryptions ++ sort_by_key (λ a. accepts_primary existing a.kind) i.verifications)

module _ (lib : Library) where
  abbrev pub operation_of : ℕ → Option SecurityOperation
  operation_of t =
      if t == lib.integrity_block
      then some bib
      else if t == lib.confidentiality_block
      then some bcb
      else none

  -- The numbers of the BIBs, decodable or not.
  abbrev pub bib_numbers : List SecuredBlock → List ℕ
  bib_numbers blocks =
      map (λ b. b.block_number) (filter (λ b. b.block_type == lib.integrity_block) blocks)

  abbrev pub decoded_as :
      List ℕ → ℕ → Option SecurityOperation → Option (List ℕ) → Option SecurityBlock
  decoded_as bibs number (some operation) (some targets) = some (record {
    number = number;
    operation = operation;
    targets = targets;
    encrypts_bibs = operation == bcb && any (λ t. contains t bibs) targets;
  })
  decoded_as bibs number _ _ = none

  abbrev pub decode_block : List ℕ → SecuredBlock → Option SecurityBlock
  decode_block bibs block =
      decoded_as bibs block.block_number (operation_of block.block_type) block.security_targets

  unfoldable pub security_blocks : SecuredBundle → List SecurityBlock
  security_blocks bundle =
      let decoded = filter_map (decode_block (bib_numbers bundle.canonicals)) bundle.canonicals in
      filter (λ b. b.operation == bcb || not (contains b.number (targets_of decoded bcb))) decoded

  unfoldable pub bibs_of : SecuredBundle → ℕ → List ℕ
  bibs_of bundle target =
      map (λ b. b.number)
        (filter (λ b. b.operation == bib && contains target b.targets) (security_blocks bundle))

  abbrev pub matching : List SecurityRule → ProcessingStep → SecuredBundle → List SecurityRule
  matching rules at bundle = filter (λ r. applies_at r.role at && matches_bundle lib r bundle) rules

  abbrev pub actions_at :
      ProcessingStep → List SecurityRule → List SecurityBlock → List SecurityAction
  actions_at receive_step rules existing = receiver_actions rules existing
  actions_at _ rules existing = source_actions rules existing

  unfoldable pub evaluate : List SecurityRule → ProcessingStep → SecuredBundle → List SecurityAction
  evaluate rules at bundle = actions_at at (matching rules at bundle) (security_blocks bundle)
