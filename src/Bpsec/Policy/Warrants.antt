-- ===== src/Bpsec/Policy/Warrants.antt =====
-- Every action of `receiver_actions` of core/dtn7/src/core/bpsec/policy.rs has a rule that asks for it.
use dtn7_rs.Prelude.{
  ℕ, ◌≡◌, refl, Bool, true, false, List, [], ◌∷◌, filter, any, All, In, arith, ◌==◌, nat_eq, inl,
  inr, Bool-cases,
}
use dtn7_rs.HashSet.{contains, insert}
use dtn7_rs.Bpsec.Config.{SecurityRule, SecurityRole, bib, bcb, operation_eq, demand_eq}
use dtn7_rs.Bpsec.Policy.{
  SecurityAction, SecurityBlock, Inspection, target_numbers, protecting, handling, put_action,
  handle_block, handle_blocks, is_protected, report_target, report_targets, inspect, verify, accept,
  decrypt, missing,
}
use dtn7_rs.Bpsec.Policy.Counting.{demands, All-append}
use dtn7_rs.Bpsec.Policy.Demands.{All-demanded}
use dtn7_rs.Bpsec.Policy.Receiver.{about}

abbrev pub is_acceptor : SecurityRole → Bool
is_acceptor SecurityRole.acceptor = true
is_acceptor _ = false

module _ (rules : List SecurityRule) (existing : List SecurityBlock) where
  abbrev pub MissFor : SecurityAction → Type 0
  MissFor a = elim (a.kind) [
    | missing u ↦
        In a.rule rules
        × (demands a.rule.operation u a.rule ≡ true)
        × (is_protected existing a.rule.operation u ≡ false)
    | _ ↦ ⊥
  ]

  abbrev pub DecryptFor : SecurityAction → Type 0
  DecryptFor a = elim (a.kind) [
    | decrypt n ↦
        In a.rule rules × ((a.rule.operation == bcb) ≡ true) × (about existing n a.rule ≡ true)
    | _ ↦ ⊥
  ]

  abbrev pub VerifyFor : SecurityAction → Type 0
  VerifyFor a = elim (a.kind) [
    | verify n ↦
        In a.rule rules
        × ((a.rule.operation == bib) ≡ true)
        × (is_acceptor a.rule.role ≡ false)
        × (about existing n a.rule ≡ true)
    | accept n ↦
        In a.rule rules
        × ((a.rule.operation == bib) ≡ true)
        × (is_acceptor a.rule.role ≡ true)
        × (about existing n a.rule ≡ true)
    | _ ↦ ⊥
  ]

  pub record AllWarranted (i : Inspection) : Type 0 where
    pub missing_warranted : All MissFor i.missing_actions
    pub decryptions_warranted : All DecryptFor i.decryptions
    pub verifications_warranted : All VerifyFor i.verifications

  decrypt-For :
      (rule : SecurityRule) (k : ℕ)
      → In rule rules
      → about existing k rule ≡ true
      → (rule.operation == bcb) ≡ true
      → DecryptFor (record { rule = rule; kind = handling rule.operation rule.role k })
  decrypt-For rule k i h o = ground arith

  verify-For :
      (rule : SecurityRule) (k : ℕ)
      → In rule rules
      → about existing k rule ≡ true
      → (rule.operation == bcb) ≡ false
      → VerifyFor (record { rule = rule; kind = handling rule.operation rule.role k })
  verify-For rule k i h o = ground arith

  put_action-AllWarranted :
      (rule : SecurityRule) (k : ℕ) (i : Inspection)
      → In rule rules
      → about existing k rule ≡ true
      → AllWarranted i
      → AllWarranted (put_action rule k i)
  put_action-AllWarranted rule k i here h w = elim (Bool-cases (rule.operation == bcb)) [
    | inl e ↦ rw e (record {
      missing_warranted = w.missing_warranted;
      decryptions_warranted =
          All-append DecryptFor i.decryptions
            (record { rule = rule; kind = handling rule.operation rule.role k } ∷ [])
            w.decryptions_warranted (decrypt-For rule k here h e, tt);
      verifications_warranted = w.verifications_warranted;
    })
    | inr e ↦ rw e (record {
      missing_warranted = w.missing_warranted;
      decryptions_warranted = w.decryptions_warranted;
      verifications_warranted =
          All-append VerifyFor i.verifications
            (record { rule = rule; kind = handling rule.operation rule.role k } ∷ [])
            w.verifications_warranted (verify-For rule k here h e, tt);
    })
  ]

  handle_block-AllWarranted :
      (rule : SecurityRule) (k : ℕ) (i : Inspection)
      → In rule rules
      → about existing k rule ≡ true
      → AllWarranted i
      → AllWarranted (handle_block rule k i)
  handle_block-AllWarranted rule k i here h w =
      let marked : Inspection = record i { handled = insert k i.handled } in
      let put = put_action-AllWarranted rule k marked here h (record {
        missing_warranted = w.missing_warranted;
        decryptions_warranted = w.decryptions_warranted;
        verifications_warranted = w.verifications_warranted;
      }) in
      elim (Bool-cases (contains k i.handled)) [ inl e ↦ rw e w | inr e ↦ rw e put ]

  handle_blocks-AllWarranted :
      (rule : SecurityRule) (blocks : List SecurityBlock) (i : Inspection)
      → In rule rules
      → All (λ b. about existing b.number rule ≡ true) blocks
      → AllWarranted i
      → AllWarranted (handle_blocks rule blocks i)
  unfolding handle_blocks
  handle_blocks-AllWarranted rule [] i here h w = w
  handle_blocks-AllWarranted rule (b ∷ blocks) i here h w =
      handle_blocks-AllWarranted rule blocks (handle_block rule b.number i) here h.1
        (handle_block-AllWarranted rule b.number i here h.0 w)

  report_target-AllWarranted :
      (rule : SecurityRule) (u : ℕ) (i : Inspection)
      → In rule rules
      → demands rule.operation u rule ≡ true
      → AllWarranted i
      → AllWarranted (report_target existing rule u i)
  report_target-AllWarranted rule u i here h w =
      elim (Bool-cases (is_protected existing rule.operation u)) [
        | inl e ↦ rw e w
        | inr e ↦ elim (Bool-cases (contains (rule.operation, u) i.reported_missing)) [
          | inl f ↦ rw (e, f) w
          | inr f ↦
              rw (e, f)
                (record {
                  missing_warranted =
                      All-append MissFor i.missing_actions
                        (record { rule = rule; kind = missing u } ∷ []) w.missing_warranted
                        ((here, h, e), tt);
                  decryptions_warranted = w.decryptions_warranted;
                  verifications_warranted = w.verifications_warranted;
                })
        ]
      ]

  report_targets-AllWarranted :
      (rule : SecurityRule) (ts : List ℕ) (i : Inspection)
      → In rule rules
      → All (λ u. demands rule.operation u rule ≡ true) ts
      → AllWarranted i
      → AllWarranted (report_targets existing rule ts i)
  unfolding report_targets
  report_targets-AllWarranted rule [] i here h w = w
  report_targets-AllWarranted rule (u ∷ ts) i here h w =
      report_targets-AllWarranted rule ts (report_target existing rule u i) here h.1
        (report_target-AllWarranted rule u i here h.0 w)

  -- Each of the blocks has a number among the blocks.
  numbered :
      (blocks others : List SecurityBlock)
      → ((n : ℕ) → any (λ b. b.number == n) blocks ≡ true → any (λ b. b.number == n) others ≡ true)
      → All (λ b. any (λ c. c.number == b.number) others ≡ true) blocks
  numbered [] others f = tt
  numbered (b ∷ blocks) others f = (
    f b.number (ground (arith, nat_eq.same_iff b.number b.number)),
    numbered blocks others (λ n h. f n (ground (arith, h))),
  )

  pub inspect-AllWarranted :
      (some_rules : List SecurityRule) (i : Inspection)
      → ((r : SecurityRule) → In r some_rules → In r rules)
      → AllWarranted i
      → AllWarranted (inspect existing some_rules i)
  unfolding inspect
  inspect-AllWarranted [] i sub w = w
  inspect-AllWarranted (rule ∷ some_rules) i sub w =
      let blocks = filter (protecting rule) existing in
      let here = sub rule (inl refl) in
      inspect-AllWarranted some_rules _ (λ r h. sub r (inr h))
        (report_targets-AllWarranted rule (target_numbers rule) (handle_blocks rule blocks i) here
          (All-demanded rule)
          (handle_blocks-AllWarranted rule blocks i here (numbered blocks blocks (λ n h. h)) w))
