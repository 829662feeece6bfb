-- ===== src/Outcome.antt =====
-- `anyhow::Result`, and functions that change a shared state and may fail. What was written before
-- a failure stays written, so the state comes back beside the error too.
use dtn7_rs.Prelude.{String}

-- One constructor for each place where the source gives up, with the bundle ID it reports.
pub data Error : Type 0 where
  bundle_not_in_store : Error
  bundle_metadata_not_in_store : Error
  bundle_metadata_already_in_store : Error
  no_such_peer : Error
  bundle_not_found : String → Error
  no_valid_destination : String → Error
  invalid_bundle : String → Error
  missing_primary_crc : String → Error
  hop_count_exceeded : Error
  lifetime_exceeded : Error
  age_block_lifetime_exceeded : Error
  violates_security_policy : String → Error
  empty_administrative_record : Error
  routing_agent_gone : Error
  database_error : Error

pub data Result {ℓ} (A : Type ℓ) : Type ℓ where
  ok : A → Result A
  err : Error → Result A

abbrev pub Action {ℓ} : Type ℓ → Type ℓ → Type ℓ
Action S A = S → Result A × S

module _ {ℓ} {S A : Type ℓ} where
  abbrev pub pure : A → Action S A
  pure a s = (ok a, s)

  abbrev pub bail : Error → Action S A
  bail e s = (err e, s)

  -- What the state is after the action, whatever its result.
  abbrev pub after : Action S A → S → S
  after m s = (m s).1

module _ {ℓ} {S A B : Type ℓ} where
  abbrev pub proceed : Result A × S → (A → Action S B) → Result B × S
  proceed (ok a, s) f = f a s
  proceed (err e, s) f = (err e, s)

  infixl 5 ◌>>=◌ ◌>>◌
  abbrev pub ◌>>=◌ : Action S A → (A → Action S B) → Action S B
  ◌>>=◌ m f s = proceed (m s) f

  abbrev pub ◌>>◌ : Action S A → Action S B → Action S B
  m >> k = m >>= λ _. k

  -- `if let Err(err) = m { error!(…) }`: a failure is logged and dropped.
  abbrev pub ignoring : Action S A → Action S B → Action S B
  ignoring m k s = k (m s).1

  -- An invariant of both actions is one of their sequence.
  pub after-bind {κ} :
      (P : S → Type κ) (m : Action S A) (f : A → Action S B) (s : S)
      → P (after m s)
      → ((a : A) (t : S) → P t → P (after (f a) t))
      → P (after (m >>= f) s)
  after-bind P m f s h k = split (m s) h
    where
      split : (r : Result A × S) → P r.1 → P (proceed r f).1
      split (ok a, t) p = k a t p
      split (err e, t) p = p
