-- ===== src/Bpsec/Policy/Source.antt =====
-- What `source_actions` of core/dtn7/src/core/bpsec/policy.rs demands.
use dtn7_rs.Prelude.{
  ℕ, ◌+◌, ◌≡◌, refl, Bool, false, not, ◌&&◌, ◌||◌, List, [], ◌∷◌, any, arith, ◌==◌, nat_eq,
}
use dtn7_rs.HashSet.{contains, contains-insert}
use dtn7_rs.Bpsec.Config.{SecurityRule, SecurityOperation, bib, bcb, operation_eq}
use dtn7_rs.Bpsec.Policy.{
  SecurityAction, Protection, target_numbers, sign_target, encrypt_target, protect_targets, protect,
  sign, encrypt,
}
use dtn7_rs.Bpsec.Policy.Counting.{bit, count, count-append, demands}

abbrev pub signs : ℕ → SecurityAction → Bool
signs t a = elim (a.kind) [ sign u ↦ u == t | _ ↦ false ]

abbrev pub encrypts : ℕ → SecurityAction → Bool
encrypts t a = elim (a.kind) [ encrypt u ↦ u == t | _ ↦ false ]

module _ (hidden : List ℕ) (t : ℕ) where
  -- What demands for a target, to be signed and to be encrypted, do to the variables.
  pub record Grown (a b : Bool) (p q : Protection) : Type 0 where
    pub signs_count :
        count (signs t) q.signs
        ≡ count (signs t) p.signs + bit (a && not (contains t hidden) && not (contains t p.signed))
    pub signed_lem : contains t q.signed ≡ contains t p.signed || (a && not (contains t hidden))
    pub encrypts_count :
        count (encrypts t) q.encryptions
        ≡ count (encrypts t) p.encryptions + bit (b && not (contains t p.encrypted))
    pub encrypted_lem : contains t q.encrypted ≡ contains t p.encrypted || b
    pub signs_apart : count (encrypts t) q.signs ≡ count (encrypts t) p.signs
    pub encryptions_apart : count (signs t) q.encryptions ≡ count (signs t) p.encryptions

  Grown-refl : (p : Protection) → Grown false false p p
  Grown-refl p = record {
    signs_count = omega arith;
    signed_lem = ground arith;
    encrypts_count = omega arith;
    encrypted_lem = ground arith;
    signs_apart = refl;
    encryptions_apart = refl;
  }

  Grown-trans :
      (a b c d : Bool) (p q r : Protection)
      → Grown a b p q
      → Grown c d q r
      → Grown (a || c) (b || d) p r
  Grown-trans a b c d p q r g h = record {
    signs_count = ground (arith, g.signs_count, h.signs_count, g.signed_lem);
    signed_lem = ground (arith, g.signed_lem, h.signed_lem);
    encrypts_count = ground (arith, g.encrypts_count, h.encrypts_count, g.encrypted_lem);
    encrypted_lem = ground (arith, g.encrypted_lem, h.encrypted_lem);
    signs_apart = omega (arith, g.signs_apart, h.signs_apart);
    encryptions_apart = omega (arith, g.encryptions_apart, h.encryptions_apart);
  }

  signed-Grown :
      (rule : SecurityRule) (u : ℕ) (p : Protection)
      → Grown (u == t) false p (sign_target hidden rule u p)
  signed-Grown rule u p =
      let same = nat_eq.same_iff u t in
      let added = contains-insert u t p.signed in
      let more = count-append (signs t) p.signs (record { rule = rule; kind = sign u } ∷ []) in
      let apart = count-append (encrypts t) p.signs (record { rule = rule; kind = sign u } ∷ []) in
      record {
        signs_count = ground (arith, same, more);
        signed_lem = ground (arith, same, added);
        encrypts_count = ground arith;
        encrypted_lem = ground arith;
        signs_apart = ground (arith, apart);
        encryptions_apart = ground arith;
      }

  encrypted-Grown :
      (rule : SecurityRule) (u : ℕ) (p : Protection)
      → Grown false (u == t) p (encrypt_target rule u p)
  encrypted-Grown rule u p =
      let same = nat_eq.same_iff u t in
      let added = contains-insert u t p.encrypted in
      let more =
        count-append (encrypts t) p.encryptions (record { rule = rule; kind = encrypt u } ∷ []) in
      let apart =
        count-append (signs t) p.encryptions (record { rule = rule; kind = encrypt u } ∷ []) in
      record {
        signs_count = ground arith;
        signed_lem = ground arith;
        encrypts_count = ground (arith, same, more);
        encrypted_lem = ground (arith, same, added);
        signs_apart = ground arith;
        encryptions_apart = ground (arith, apart);
      }

  protect_targets-Grown :
      (o : SecurityOperation) (rule : SecurityRule) (ts : List ℕ) (p : Protection)
      → Grown
          (o == bib && contains t ts)
          (o == bcb && contains t ts)
          p
          (protect_targets hidden o rule ts p)
  unfolding protect_targets contains
  protect_targets-Grown bib rule [] p = Grown-refl p
  protect_targets-Grown bcb rule [] p = Grown-refl p
  protect_targets-Grown bib rule (u ∷ ts) p =
      Grown-trans (u == t) false (contains t ts) false p (sign_target hidden rule u p) _
        (signed-Grown rule u p) (protect_targets-Grown bib rule ts (sign_target hidden rule u p))
  protect_targets-Grown bcb rule (u ∷ ts) p =
      Grown-trans false (u == t) false (contains t ts) p (encrypt_target rule u p) _
        (encrypted-Grown rule u p) (protect_targets-Grown bcb rule ts (encrypt_target rule u p))

  pub protect-Grown :
      (rules : List SecurityRule) (p : Protection)
      → Grown (any (demands bib t) rules) (any (demands bcb t) rules) p (protect hidden rules p)
  unfolding protect
  protect-Grown [] p = Grown-refl p
  protect-Grown (rule ∷ rules) p =
      let q = protect_targets hidden rule.operation rule (target_numbers rule) p in
      Grown-trans (demands bib t rule) (demands bcb t rule) (any (demands bib t) rules)
        (any (demands bcb t) rules) p q _
        (protect_targets-Grown rule.operation rule (target_numbers rule) p) (protect-Grown rules q)
