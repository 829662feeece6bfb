-- ===== src/Extensions.antt =====
-- The rest of the crate `bp7` that processing calls: extension blocks, status reports and
-- administrative records. Times are in milliseconds.
use dtn7_rs.Prelude.{ℕ, String, Bool, Option, List}
use dtn7_rs.BundlePack.{Clock}

pub data StatusReportReason : Type 0 where
  no_information lifetime_expired hop_limit_exceeded block_unintelligible : StatusReportReason
  other_reason : ℕ → StatusReportReason

pub data StatusInformationPos : Type 0 where
  received_bundle forwarded_bundle delivered_bundle deleted_bundle : StatusInformationPos

-- A status item of a report: whether the status is asserted, since when, and whether that time was
-- asked for.
pub record BundleStatusItem : Type 0 where
  pub asserted : Bool
  pub time : ℕ
  pub status_requested : Bool

-- A parsed administrative record: a status report with its status items and the ID of the bundle
-- that it is about, or a record of another kind.
pub data AdministrativeRecord : Type 0 where
  bundle_status_report : List BundleStatusItem → String → AdministrativeRecord
  other_record : AdministrativeRecord

pub record Extensions (E B : Type 0) : Type 0 where
  pub is_lifetime_exceeded : Clock → B → Bool
  -- the hop count block: whether there is one, `hop_count_increase`, `hop_count_exceeded`
  pub has_hop_count : B → Bool
  pub hop_count_increase : B → Bool × B
  pub hop_count_exceeded : B → Bool
  -- the bundle age block: whether there is one, its age if its data is one, `set_data`
  pub has_bundle_age : B → Bool
  pub bundle_age : B → Option ℕ
  pub set_bundle_age : ℕ → B → B
  -- the previous node block: whether there is one, `previous_node_update`, and adding a new one
  pub has_previous_node : B → Bool
  pub previous_node_update : E → B → B
  pub add_previous_node : E → B → B
  -- the payload of an administrative record, if it can be parsed
  pub administrative_record : B → Option AdministrativeRecord
  -- `MAX_STATUS_INFORMATION_POS`, and the number of `DELIVERED_BUNDLE` among the positions
  pub max_status_information_pos : ℕ
  pub delivered_bundle_pos : ℕ
  -- `new_status_report_bundle`
  pub new_status_report_bundle : Clock → B → E → StatusInformationPos → StatusReportReason → B
