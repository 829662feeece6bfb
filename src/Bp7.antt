-- ===== src/Bp7.antt =====
-- The crate `bp7`, which the program calls and this repository does not hold: endpoint IDs, bundles
-- and what is read off them, as an interface. The types are `E` and `B`.
use dtn7_rs.Prelude.{ℕ, String, Bool, Option, List}

-- `bp7::error::Error`, of which only the case with a message is told apart.
pub data ValidationError : Type 0 where
  bundle_error : String → ValidationError
  other_error : String → ValidationError

-- A canonical block as far as `receive` looks at blocks of types it does not know.
pub record CanonicalBlock : Type 0 where
  pub block_type : ℕ
  pub block_number : ℕ
  pub block_status_report : Bool
  pub block_delete_bundle : Bool
  pub block_remove : Bool

pub record Bp7 (E B : Type 0) : Type 0 where
  -- `EndpointID::none()`, `node()`, `node_id()`, `to_string()`, `is_non_singleton()`
  pub none_eid : E
  pub node : E → Option String
  pub node_id : E → Option String
  pub eid_to_string : E → String
  pub is_non_singleton : E → Bool
  -- `Bundle::id()`, `to_cbor().len()`, `is_administrative_record()`, `previous_node()`
  pub bundle_id : B → String
  pub cbor_len : B → ℕ
  pub is_administrative_record : B → Bool
  pub previous_node : B → Option E
  -- fields of the primary block; times in milliseconds
  pub source : B → E
  pub destination : B → E
  pub report_to : B → E
  pub lifetime_millis : B → ℕ
  pub creation_dtntime : B → ℕ
  pub status_request_reception : B → Bool
  pub status_request_forward : B → Bool
  pub status_request_delivery : B → Bool
  pub status_request_deletion : B → Bool
  -- `validate()`: the errors found, none for a valid bundle
  pub validate : B → List ValidationError
  pub canonicals : B → List CanonicalBlock
  pub with_canonicals : List CanonicalBlock → B → B
