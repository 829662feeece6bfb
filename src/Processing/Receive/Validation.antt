-- ===== src/Processing/Receive/Validation.antt =====
-- `validate_bundle` of core/dtn7/src/core/processing.rs.
use dtn7_rs.Prelude.{
  ◌≡◌, ◌≢◌, ◌⊎◌, ◌↔◌, refl, arith, true, false, not, none, List, [], ◌∷◌, Eq, All, filter, is_empty,
  Option-cases, inl, inr,
}
use dtn7_rs.Outcome.{ok}
use dtn7_rs.Bp7.{ValidationError}
use dtn7_rs.Node.{Context}
use dtn7_rs.Processing.Receive.{is_missing_primary_crc, validate_bundle}

-- Every error is a missing CRC.
abbrev pub OnlyMissingCrc : List ValidationError → Type 0
OnlyMissingCrc errors = All (λ e. is_missing_primary_crc e ≡ true) errors

other_errors-to :
    (errors : List ValidationError)
    → is_empty (filter (λ e. not (is_missing_primary_crc e)) errors) ≡ true
    → OnlyMissingCrc errors
other_errors-to [] h = tt
other_errors-to (e ∷ errors) h = (ground arith, other_errors-to errors (ground arith))

other_errors-from :
    (errors : List ValidationError)
    → OnlyMissingCrc errors
    → is_empty (filter (λ e. not (is_missing_primary_crc e)) errors) ≡ true
other_errors-from [] h = refl
other_errors-from (e ∷ errors) h = ground (arith, other_errors-from errors h.1)

-- Errors that are all missing CRCs are found among the missing CRCs.
missing_crc :
    (errors : List ValidationError)
    → OnlyMissingCrc errors
    → is_empty (filter is_missing_primary_crc errors) ≡ is_empty errors
missing_crc [] h = refl
missing_crc (e ∷ errors) h = ground (arith, h.0)

module _ {E B S A : Type 0} ⦃eq : Eq E⦄ (cx : Context E B S A) (b : B) where
  -- `validate_bundle` accepts exactly the bundles that have a destination node and in which the
  -- only errors are missing CRCs of the primary block, and with strict validation no errors at
  -- all.
  pub validate_bundle_iff : (validate_bundle cx b ≡ ok tt) ↔ (
      (cx.bp7.node (cx.bp7.destination b) ≢ none)
      × OnlyMissingCrc (cx.bp7.validate b)
      × ((is_empty (cx.bp7.validate b) ≡ true) ⊎ (cx.config.strict_validation ≡ false)))
  unfolding validate_bundle
  validate_bundle_iff = (to, from)
    where
      to :
          validate_bundle cx b ≡ ok tt
          → (cx.bp7.node (cx.bp7.destination b) ≢ none)
            × OnlyMissingCrc (cx.bp7.validate b)
            × ((is_empty (cx.bp7.validate b) ≡ true) ⊎ (cx.config.strict_validation ≡ false))
      to h =
          let only : OnlyMissingCrc (cx.bp7.validate b) =
            other_errors-to (cx.bp7.validate b) (ground (arith, h)) in
          (
            (λ e. ground (arith, h, e)),
            only,
            ground (arith, h, missing_crc (cx.bp7.validate b) only),
          )

      from :
          (cx.bp7.node (cx.bp7.destination b) ≢ none)
            × OnlyMissingCrc (cx.bp7.validate b)
            × ((is_empty (cx.bp7.validate b) ≡ true) ⊎ (cx.config.strict_validation ≡ false))
          → validate_bundle cx b ≡ ok tt
      from (node, only, mild) = elim (Option-cases (cx.bp7.node (cx.bp7.destination b))) [
        | inl e ↦ absurd (node e)
        | inr (name, e) ↦ ground (
          arith,
          e,
          mild,
          other_errors-from (cx.bp7.validate b) only,
          missing_crc (cx.bp7.validate b) only,
        )
      ]
