-- ===== src/Bpsec/Enforcement/Performed.antt =====
-- When a security action succeeds, `apply` of core/dtn7/src/core/bpsec/enforcement.rs, and what it leaves.
use dtn7_rs.Prelude.{
  ℕ, String, ◌≡◌, refl, Bool, true, false, ◌++◌, length, Option, none, some, List, [], ◌∷◌,
  is_empty, string_eq, if◌then◌else◌, sym, subst,
}
use dtn7_rs.Map.{Map, lookup}
use dtn7_rs.Bpsec.Config.{SecurityRule}
use dtn7_rs.Bpsec.Policy.{
  Library, SecurityAction, ActionKind, bibs_of, sign, encrypt, verify, accept, decrypt,
}
use dtn7_rs.Bpsec.Enforcement.{
  Operations, Attempted, succeeded, rejected, Subject, Applied, ok, err, sha_variant, counted,
  verified, encrypt_block, encrypt_blocks, one_encrypted, replaced, encrypt_target, apply_with,
  apply_keyed, apply,
}

abbrev pub and_then : {A : Type 0} → Option A → (A → Option A) → Option A
and_then none f = none
and_then (some a) f = f a

module _ {E K B G : Type 0} (ops : Operations E K B G) (lib : Library) (keys : Map String K)
    (node : E) where
  abbrev pub success : Applied × Subject B G → Option (Subject B G)
  success (ok n, s) = some s
  success (err failure, s) = none

  abbrev when_done : Attempted (Unit {0}) × B → G → Option (Subject B G)
  when_done (succeeded _, b) g = some (b, g)
  when_done (rejected _, b) g = none

  -- A signature that does not match is no success.
  abbrev when_verified : Attempted Bool → Subject B G → Option (Subject B G)
  when_verified (succeeded true) s = some s
  when_verified _ s = none

  abbrev encrypted : Attempted (Unit {0}) × Subject B G → Option (Subject B G)
  encrypted (succeeded _, s) = some s
  encrypted (rejected _, s) = none

  -- All the blocks are encrypted, each in what the ones before it left.
  unfoldable pub each_encrypted : SecurityRule → List ℕ → K → Subject B G → Option (Subject B G)
  each_encrypted rule [] key s = some s
  each_encrypted rule (block ∷ blocks) key s =
      and_then (encrypted (encrypt_block ops lib keys node rule block key s))
        (λ t. each_encrypted rule blocks key t)

  abbrev with_key : SecurityRule → ActionKind → K → Subject B G → Option (Subject B G)
  with_key rule (sign target) key (b, g) =
      when_done (ops.sign target key node (sha_variant rule.context) b) g
  with_key rule (verify number) key (b, g) = when_verified (ops.verify number key b) (b, g)
  with_key rule (accept number) key (b, g) =
      let (result, b') = ops.accept number key b in when_verified result (b', g)
  with_key rule (encrypt target) key (b, g) =
      each_encrypted rule (bibs_of lib (ops.view b) target ++ target ∷ []) key (b, g)
  with_key rule (decrypt number) key (b, g) = when_done (ops.decrypt number key b) g
  with_key rule (ActionKind.missing _) key s = none

  -- What an action leaves if it succeeds: with the key of its rule, which has to be known, each of
  -- its calls of bp7 succeeds, and a signature matches. A missing operation never succeeds.
  unfoldable pub performed : SecurityAction → Subject B G → Option (Subject B G)
  performed a s = elim (lookup a.rule.key keys) [
    | none ↦ none
    | some key ↦ with_key a.rule a.kind key s
  ]

  success-counted :
      (r : Attempted (Unit {0}) × B) (g : G)
      → success (counted ops lib keys node r g) ≡ when_done r g
  success-counted (succeeded _, b) g = refl
  success-counted (rejected _, b) g = refl

  success-verified :
      (r : Attempted Bool) (s : Subject B G)
      → success (verified ops lib keys node r s) ≡ when_verified r s
  success-verified (succeeded true) s = refl
  success-verified (succeeded false) s = refl
  success-verified (rejected _) s = refl

  each_encrypted-eq :
      (rule : SecurityRule) (blocks : List ℕ) (key : K) (s : Subject B G)
      → encrypted (encrypt_blocks ops lib keys node rule blocks key s)
        ≡ each_encrypted rule blocks key s
  unfolding encrypt_blocks each_encrypted
  each_encrypted-eq rule [] key s = refl
  each_encrypted-eq rule (block ∷ blocks) key s =
      go (encrypt_block ops lib keys node rule block key s)
        (λ t. each_encrypted-eq rule blocks key t)
    where
      go :
          (r : Attempted (Unit {0}) × Subject B G)
          → ((t : Subject B G)
              → encrypted (encrypt_blocks ops lib keys node rule blocks key t)
                ≡ each_encrypted rule blocks key t)
          → encrypted (elim (r.0) [
            | succeeded _ ↦ encrypt_blocks ops lib keys node rule blocks key r.1
            | rejected reason ↦ (rejected reason, r.1)
          ])
            ≡ and_then (encrypted r) (λ t. each_encrypted rule blocks key t)
      go (succeeded _, t) ih = ih t
      go (rejected _, t) ih = refl

  success-encrypt_target :
      (rule : SecurityRule) (target : ℕ) (key : K) (b : B) (g : G)
      → success (encrypt_target ops lib keys node rule target key (b, g))
        ≡ each_encrypted rule (bibs_of lib (ops.view b) target ++ target ∷ []) key (b, g)
  unfolding encrypt_target each_encrypted
  success-encrypt_target rule target key b g = go (bibs_of lib (ops.view b) target)
    where
      one :
          (r : Attempted (Unit {0}) × Subject B G)
          → success (one_encrypted ops lib keys node r) ≡ and_then (encrypted r) (λ t. some t)
      one (succeeded _, (b', g')) = refl
      one (rejected _, (b', g')) = refl

      all :
          (n : ℕ) (r : Attempted (Unit {0}) × Subject B G)
          → success (replaced ops lib keys node n b r) ≡ encrypted r
      all n (succeeded _, t) = refl
      all n (rejected _, (b', g')) = refl

      go :
          (bibs : List ℕ)
          → success (
              if is_empty bibs
              then one_encrypted ops lib keys node
                  (encrypt_block ops lib keys node rule target key (b, g))
              else replaced ops lib keys node
                  (length (bibs ++ target ∷ []))
                  b
                  (encrypt_blocks ops lib keys node rule (bibs ++ target ∷ []) key (b, g)))
            ≡ each_encrypted rule (bibs ++ target ∷ []) key (b, g)
      go [] = one (encrypt_block ops lib keys node rule target key (b, g))
      go (bib ∷ bibs) =
          let blocks = (bib ∷ bibs) ++ target ∷ [] in
          subst (λ x. x ≡ each_encrypted rule blocks key (b, g))
            (sym (all (length blocks) (encrypt_blocks ops lib keys node rule blocks key (b, g))))
            (each_encrypted-eq rule blocks key (b, g))

  success-apply_with :
      (rule : SecurityRule) (kind : ActionKind) (key : K) (s : Subject B G)
      → success (apply_with ops lib keys node rule kind key s) ≡ with_key rule kind key s
  success-apply_with rule (sign target) key (b, g) =
      success-counted (ops.sign target key node (sha_variant rule.context) b) g
  success-apply_with rule (verify number) key (b, g) =
      success-verified (ops.verify number key b) (b, g)
  success-apply_with rule (accept number) key (b, g) =
      let r = ops.accept number key b in success-verified r.0 (r.1, g)
  success-apply_with rule (encrypt target) key (b, g) = success-encrypt_target rule target key b g
  success-apply_with rule (decrypt number) key (b, g) = success-counted (ops.decrypt number key b) g
  success-apply_with rule (ActionKind.missing _) key s = refl

  -- The actions of the code succeed as the description says.
  pub success-apply :
      (a : SecurityAction) (s : Subject B G) → success (apply ops lib keys node a s) ≡ performed a s
  unfolding apply performed
  success-apply a s = go a.kind (lookup a.rule.key keys)
    where
      go :
          (kind : ActionKind) (key : Option K)
          → success (apply_keyed ops lib keys node a.rule kind key s)
            ≡ elim key [ none ↦ none | some k ↦ with_key a.rule kind k s ]
      go (ActionKind.missing _) none = refl
      go (ActionKind.missing _) (some k) = refl
      go (sign _) none = refl
      go (verify _) none = refl
      go (accept _) none = refl
      go (encrypt _) none = refl
      go (decrypt _) none = refl
      go (sign target) (some k) = success-apply_with a.rule (sign target) k s
      go (verify number) (some k) = success-apply_with a.rule (verify number) k s
      go (accept number) (some k) = success-apply_with a.rule (accept number) k s
      go (encrypt target) (some k) = success-apply_with a.rule (encrypt target) k s
      go (decrypt number) (some k) = success-apply_with a.rule (decrypt number) k s
