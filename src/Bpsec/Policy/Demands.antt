-- ===== src/Bpsec/Policy/Demands.antt =====
-- Every action of `source_actions` of core/dtn7/src/core/bpsec/policy.rs has a rule that demands it.
use dtn7_rs.Prelude.{
  ℕ, ◌≡◌, refl, true, not, ◌&&◌, List, [], ◌∷◌, All, arith, nat_eq, inl, inr, Bool-cases, In,
  ==_refl,
}
use dtn7_rs.HashSet.{contains}
use dtn7_rs.Bpsec.Config.{SecurityRule, SecurityOperation, bib, bcb, operation_eq}
use dtn7_rs.Bpsec.Policy.{
  SecurityAction, Protection, target_numbers, sign_target, encrypt_target, protect_targets, protect,
  sign, encrypt,
}
use dtn7_rs.Bpsec.Policy.Counting.{demands, All-append, All-to}

-- The actions are of the expected kind, and a rule of the list demands them.
abbrev pub SignFor : List SecurityRule → SecurityAction → Type 0
SignFor rules a = elim (a.kind) [ sign u ↦ In a.rule rules × (demands bib u a.rule ≡ true) | _ ↦ ⊥ ]

abbrev pub EncryptFor : List SecurityRule → SecurityAction → Type 0
EncryptFor rules a = elim (a.kind) [
  | encrypt u ↦ In a.rule rules × (demands bcb u a.rule ≡ true)
  | _ ↦ ⊥
]

pub record AllDemanded (rules : List SecurityRule) (p : Protection) : Type 0 where
  pub signs_demanded : All (SignFor rules) p.signs
  pub encryptions_demanded : All (EncryptFor rules) p.encryptions

All-contained :
    (ts us : List ℕ)
    → ((u : ℕ) → contains u ts ≡ true → contains u us ≡ true)
    → All (λ u. contains u us ≡ true) ts
unfolding contains
All-contained [] us f = tt
All-contained (t ∷ ts) us f =
    (f t (ground (arith, ==_refl t)), All-contained ts us (λ u h. f u (ground (arith, h))))

-- A rule has each of its targets.
pub All-demanded :
    (rule : SecurityRule) → All (λ u. demands rule.operation u rule ≡ true) (target_numbers rule)
All-demanded rule =
    All-to (λ u. contains u (target_numbers rule) ≡ true)
      (λ u. demands rule.operation u rule ≡ true) (target_numbers rule)
      (λ u e. ground (arith, e, operation_eq.same_iff rule.operation rule.operation))
      (All-contained (target_numbers rule) (target_numbers rule) (λ u e. e))

module _ (hidden : List ℕ) (all_rules : List SecurityRule) where
  sign_target-AllDemanded :
      (rule : SecurityRule) (u : ℕ) (p : Protection)
      → In rule all_rules
      → demands bib u rule ≡ true
      → AllDemanded all_rules p
      → AllDemanded all_rules (sign_target hidden rule u p)
  sign_target-AllDemanded rule u p i d h =
      let more =
        All-append (SignFor all_rules) p.signs (record { rule = rule; kind = sign u } ∷ [])
          h.signs_demanded ((i, d), tt) in
      elim (Bool-cases (not (contains u hidden) && not (contains u p.signed))) [
        | inl e ↦
            rw e (record { signs_demanded = more; encryptions_demanded = h.encryptions_demanded })
        | inr e ↦ rw e h
      ]

  encrypt_target-AllDemanded :
      (rule : SecurityRule) (u : ℕ) (p : Protection)
      → In rule all_rules
      → demands bcb u rule ≡ true
      → AllDemanded all_rules p
      → AllDemanded all_rules (encrypt_target rule u p)
  encrypt_target-AllDemanded rule u p i d h =
      let more =
        All-append (EncryptFor all_rules) p.encryptions
          (record { rule = rule; kind = encrypt u } ∷ []) h.encryptions_demanded ((i, d), tt) in
      elim (Bool-cases (not (contains u p.encrypted))) [
        | inl e ↦ rw e (record { signs_demanded = h.signs_demanded; encryptions_demanded = more })
        | inr e ↦ rw e h
      ]

  protect_targets-AllDemanded :
      (o : SecurityOperation) (rule : SecurityRule) (ts : List ℕ) (p : Protection)
      → In rule all_rules
      → All (λ u. demands o u rule ≡ true) ts
      → AllDemanded all_rules p
      → AllDemanded all_rules (protect_targets hidden o rule ts p)
  unfolding protect_targets
  protect_targets-AllDemanded o rule [] p i d h = h
  protect_targets-AllDemanded bib rule (u ∷ ts) p i d h =
      protect_targets-AllDemanded bib rule ts (sign_target hidden rule u p) i d.1
        (sign_target-AllDemanded rule u p i d.0 h)
  protect_targets-AllDemanded bcb rule (u ∷ ts) p i d h =
      protect_targets-AllDemanded bcb rule ts (encrypt_target rule u p) i d.1
        (encrypt_target-AllDemanded rule u p i d.0 h)

  pub protect-AllDemanded :
      (rules : List SecurityRule) (p : Protection)
      → ((r : SecurityRule) → In r rules → In r all_rules)
      → AllDemanded all_rules p
      → AllDemanded all_rules (protect hidden rules p)
  unfolding protect
  protect-AllDemanded [] p sub h = h
  protect-AllDemanded (rule ∷ rules) p sub h =
      protect-AllDemanded rules _ (λ r i. sub r (inr i))
        (protect_targets-AllDemanded rule.operation rule (target_numbers rule) p
          (sub rule (inl refl)) (All-demanded rule) h)
