-- ===== src/Bpsec/Policy/Planned.antt =====
-- The actions of a security source, and their order: core/dtn7/src/core/bpsec/policy.rs.
use mathlib.Core.List.{append_assoc}
use dtn7_rs.Prelude.{
  ℕ, ◌≤◌, ◌≡◌, Bool, true, not, ◌&&◌, List, ◌++◌, filter, All, any, arith, ◌==◌, nat_eq,
  if◌then◌else◌, In,
}
use dtn7_rs.HashSet.{contains}
use dtn7_rs.Bpsec.Config.{SecurityRule, bib, bcb, operation_eq}
use dtn7_rs.Bpsec.Policy.{
  SecurityAction, SecurityBlock, Protection, targets_of, protect, signs_primary, unprotected,
  source_actions, sign, encrypt,
}
use dtn7_rs.Bpsec.Policy.Source.{signs, encrypts, Grown, protect-Grown}
use dtn7_rs.Bpsec.Policy.Demands.{SignFor, EncryptFor, AllDemanded, protect-AllDemanded}
use dtn7_rs.Bpsec.Policy.Counting.{
  bit, count, count-append, count-split, demands, All-append, All-filter, All-to, IsRanked,
  IsRanked-append, IsRanked-level,
}

-- The BIB of the primary block first, then the other BIBs, then the BCBs.
abbrev pub rank : SecurityAction → ℕ
rank a = elim (a.kind) [ sign u ↦ if u == 0 then 0 else 1 | _ ↦ 2 ]

abbrev pub IsDemanded : List SecurityRule → SecurityAction → Type 0
IsDemanded rules a = elim (a.kind) [
  | sign u ↦ In a.rule rules × (demands bib u a.rule ≡ true)
  | encrypt u ↦ In a.rule rules × (demands bcb u a.rule ≡ true)
  | _ ↦ ⊥
]

-- What a list of actions is for rules and the security blocks that a bundle has.
pub record IsPlanned (rules : List SecurityRule) (existing : List SecurityBlock)
    (actions : List SecurityAction) : Type 0 where
  pub signed_once :
      (t : ℕ)
      → count (signs t) actions
        ≡ bit (
            any (demands bib t) rules
            && not (contains t (targets_of existing bcb))
            && not (contains t (targets_of existing bib)))
  pub encrypted_once :
      (t : ℕ)
      → count (encrypts t) actions
        ≡ bit (any (demands bcb t) rules && not (contains t (targets_of existing bcb)))
  pub demanded : All (IsDemanded rules) actions
  pub ordered : IsRanked rank actions

module _ (rules : List SecurityRule) (existing : List SecurityBlock) where
  abbrev end : Protection
  end = protect (targets_of existing bcb) rules (unprotected existing)

  abbrev late : SecurityAction → Bool
  late a = not (signs_primary a.kind)

  end-AllDemanded : AllDemanded rules end
  end-AllDemanded =
      protect-AllDemanded (targets_of existing bcb) rules rules (unprotected existing) (λ r i. i)
        (record { signs_demanded = tt; encryptions_demanded = tt })

  end-Grown :
      (t : ℕ)
      → Grown
          (targets_of existing bcb)
          t
          (any (demands bib t) rules)
          (any (demands bcb t) rules)
          (unprotected existing)
          end
  end-Grown t = protect-Grown (targets_of existing bcb) t rules (unprotected existing)

  abbrev first_signs : List SecurityAction
  first_signs = filter (λ a. not (late a)) end.signs

  abbrev other_signs : List SecurityAction
  other_signs = filter late end.signs

  All-first : All (λ a. SignFor rules a × (not (late a) ≡ true)) first_signs
  All-first =
      All-filter (SignFor rules) (λ a. not (late a)) end.signs end-AllDemanded.signs_demanded

  All-other : All (λ a. SignFor rules a × (late a ≡ true)) other_signs
  All-other = All-filter (SignFor rules) late end.signs end-AllDemanded.signs_demanded

  rank-first : (a : SecurityAction) → SignFor rules a × (not (late a) ≡ true) → rank a ≡ 0
  rank-first a h = ground arith

  rank-other : (a : SecurityAction) → SignFor rules a × (late a ≡ true) → rank a ≡ 1
  rank-other a h = ground arith

  rank-encrypt : (a : SecurityAction) → EncryptFor rules a → rank a ≡ 2
  rank-encrypt a h = ground arith

  SignFor-IsDemanded : (a : SecurityAction) → SignFor rules a → IsDemanded rules a
  SignFor-IsDemanded a h = ground arith

  EncryptFor-IsDemanded : (a : SecurityAction) → EncryptFor rules a → IsDemanded rules a
  EncryptFor-IsDemanded a h = ground arith

  demanded_lem : All (IsDemanded rules) ((first_signs ++ other_signs) ++ end.encryptions)
  demanded_lem =
      All-append (IsDemanded rules) (first_signs ++ other_signs) end.encryptions
        (All-append (IsDemanded rules) first_signs other_signs
          (All-to (λ a. SignFor rules a × (not (late a) ≡ true)) (IsDemanded rules) first_signs
            (λ a h. SignFor-IsDemanded a h.0) All-first)
          (All-to (λ a. SignFor rules a × (late a ≡ true)) (IsDemanded rules) other_signs
            (λ a h. SignFor-IsDemanded a h.0) All-other))
        (All-to (EncryptFor rules) (IsDemanded rules) end.encryptions EncryptFor-IsDemanded
          end-AllDemanded.encryptions_demanded)

  others_ranked : All (λ a. rank a ≡ 1) other_signs
  others_ranked =
      All-to (λ a. SignFor rules a × (late a ≡ true)) (λ a. rank a ≡ 1) other_signs rank-other
        All-other

  encryptions_ranked : All (λ a. rank a ≡ 2) end.encryptions
  encryptions_ranked =
      All-to (EncryptFor rules) (λ a. rank a ≡ 2) end.encryptions rank-encrypt
        end-AllDemanded.encryptions_demanded

  ordered_lem : IsRanked rank ((first_signs ++ other_signs) ++ end.encryptions)
  ordered_lem = rw (append_assoc first_signs other_signs end.encryptions) (
      IsRanked-append rank 0 first_signs (other_signs ++ end.encryptions)
        (All-to (λ a. SignFor rules a × (not (late a) ≡ true)) (λ a. rank a ≡ 0) first_signs
          rank-first All-first)
        (All-append (λ a. 0 ≤ rank a) other_signs end.encryptions
          (All-to (λ a. rank a ≡ 1) (λ a. 0 ≤ rank a) other_signs (λ a e. omega arith)
            others_ranked)
          (All-to (λ a. rank a ≡ 2) (λ a. 0 ≤ rank a) end.encryptions (λ a e. omega arith)
            encryptions_ranked))
        (IsRanked-append rank 1 other_signs end.encryptions others_ranked
          (All-to (λ a. rank a ≡ 2) (λ a. 1 ≤ rank a) end.encryptions (λ a e. omega (arith, e))
            encryptions_ranked)
          (IsRanked-level rank 2 end.encryptions encryptions_ranked)))

  -- Planned.
  pub source_actions-IsPlanned : IsPlanned rules existing (source_actions rules existing)
  unfolding source_actions
  source_actions-IsPlanned = record {
    signed_once = λ t.
        let g = end-Grown t in
        ground (
          arith,
          count-append (signs t) (first_signs ++ other_signs) end.encryptions,
          count-split (signs t) late end.signs,
          g.signs_count,
          g.encryptions_apart,
        );
    encrypted_once = λ t.
        let g = end-Grown t in
        ground (
          arith,
          count-append (encrypts t) (first_signs ++ other_signs) end.encryptions,
          count-split (encrypts t) late end.signs,
          g.encrypts_count,
          g.signs_apart,
        );
    demanded = demanded_lem;
    ordered = ordered_lem;
  }
