-- ===== src/Cla/Tcp/Proto.antt =====
-- The messages of the TCP convergence layer, core/dtn7/src/cla/tcp/proto.rs. A `bitflags` type is a
-- record with a Boolean for each flag; a type with explicit numbers has its `as` cast and its
-- `from_u8`.
use dtn7_rs.Prelude.{
  ℕ, ◌+◌, ◌/◌, ◌%◌, Bool, not, ◌&&◌, Option, none, some, List, ◌==◌, nat_eq, if◌then◌else◌,
}

abbrev pub Bytes : Type 0
Bytes = List ℕ

-- One bit of a byte.
abbrev pub bit : Bool → ℕ → ℕ
bit b n = if b then n else 0

pub record ContactHeaderFlags : Type 0 where
  pub can_tls : Bool

pub data MessageType : Type 0 where
  xfer_segment xfer_ack xfer_refuse keepalive sess_term msg_reject sess_init : MessageType

abbrev pub message_code : MessageType → ℕ
message_code MessageType.xfer_segment = 1
message_code MessageType.xfer_ack = 2
message_code MessageType.xfer_refuse = 3
message_code MessageType.keepalive = 4
message_code MessageType.sess_term = 5
message_code MessageType.msg_reject = 6
message_code MessageType.sess_init = 7

abbrev pub message_type : ℕ → Option MessageType
message_type n =
    if n == 1
    then some MessageType.xfer_segment
    else if n == 2
    then some MessageType.xfer_ack
    else if n == 3
    then some MessageType.xfer_refuse
    else if n == 4
    then some MessageType.keepalive
    else if n == 5
    then some MessageType.sess_term
    else if n == 6
    then some MessageType.msg_reject
    else if n == 7
    then some MessageType.sess_init
    else none

pub data MsgRejectReasonCode : Type 0 where
  type_unknown unsupported unexpected : MsgRejectReasonCode

abbrev pub reject_code : MsgRejectReasonCode → ℕ
reject_code MsgRejectReasonCode.type_unknown = 1
reject_code MsgRejectReasonCode.unsupported = 2
reject_code MsgRejectReasonCode.unexpected = 3

abbrev pub reject_reason : ℕ → Option MsgRejectReasonCode
reject_reason n =
    if n == 1
    then some MsgRejectReasonCode.type_unknown
    else if n == 2
    then some MsgRejectReasonCode.unsupported
    else if n == 3
    then some MsgRejectReasonCode.unexpected
    else none

pub record XferSegmentFlags : Type 0 where
  pub start : Bool
  pub last : Bool

pub data XferRefuseReasonCode : Type 0 where
  unknown completed no_resources retransmit not_acceptable extension_failure : XferRefuseReasonCode

abbrev pub refuse_code : XferRefuseReasonCode → ℕ
refuse_code XferRefuseReasonCode.unknown = 0
refuse_code XferRefuseReasonCode.completed = 1
refuse_code XferRefuseReasonCode.no_resources = 2
refuse_code XferRefuseReasonCode.retransmit = 3
refuse_code XferRefuseReasonCode.not_acceptable = 4
refuse_code XferRefuseReasonCode.extension_failure = 5

abbrev pub refuse_reason : ℕ → Option XferRefuseReasonCode
refuse_reason n =
    if n == 0
    then some XferRefuseReasonCode.unknown
    else if n == 1
    then some XferRefuseReasonCode.completed
    else if n == 2
    then some XferRefuseReasonCode.no_resources
    else if n == 3
    then some XferRefuseReasonCode.retransmit
    else if n == 4
    then some XferRefuseReasonCode.not_acceptable
    else if n == 5
    then some XferRefuseReasonCode.extension_failure
    else none

pub record TransferExtensionItemFlags : Type 0 where
  pub critical : Bool

pub data TransferExtensionItemType : Type 0 where
  bundle_id : TransferExtensionItemType

abbrev pub item_code : TransferExtensionItemType → ℕ
item_code TransferExtensionItemType.bundle_id = 1

abbrev pub item_type : ℕ → Option TransferExtensionItemType
item_type n = if n == 1 then some TransferExtensionItemType.bundle_id else none

pub record TransferExtensionItem : Type 0 where
  pub flags : TransferExtensionItemFlags
  pub item : TransferExtensionItemType
  pub content : Bytes

pub record SessTermFlags : Type 0 where
  pub reply : Bool

pub data SessTermReasonCode : Type 0 where
  unknown idle_timeout version_mismatch busy contact_failure resource_exhaustion :
      SessTermReasonCode

abbrev pub term_code : SessTermReasonCode → ℕ
term_code SessTermReasonCode.unknown = 0
term_code SessTermReasonCode.idle_timeout = 1
term_code SessTermReasonCode.version_mismatch = 2
term_code SessTermReasonCode.busy = 3
term_code SessTermReasonCode.contact_failure = 4
term_code SessTermReasonCode.resource_exhaustion = 5

abbrev pub term_reason : ℕ → Option SessTermReasonCode
term_reason n =
    if n == 0
    then some SessTermReasonCode.unknown
    else if n == 1
    then some SessTermReasonCode.idle_timeout
    else if n == 2
    then some SessTermReasonCode.version_mismatch
    else if n == 3
    then some SessTermReasonCode.busy
    else if n == 4
    then some SessTermReasonCode.contact_failure
    else if n == 5
    then some SessTermReasonCode.resource_exhaustion
    else none

-- `node_id` is the UTF-8 of the string.
pub record SessInitData : Type 0 where
  pub keepalive : ℕ
  pub segment_mru : ℕ
  pub transfer_mru : ℕ
  pub node_id : Bytes

pub record XferSegData : Type 0 where
  pub flags : XferSegmentFlags
  pub tid : ℕ
  pub len : ℕ
  pub buf : Bytes
  pub extensions : List TransferExtensionItem

pub record XferAckData : Type 0 where
  pub flags : XferSegmentFlags
  pub tid : ℕ
  pub len : ℕ

pub record XferRefuseData : Type 0 where
  pub reason : XferRefuseReasonCode
  pub tid : ℕ

pub record SessTermData : Type 0 where
  pub flags : SessTermFlags
  pub reason : SessTermReasonCode

pub record MsgRejectData : Type 0 where
  pub reason : MsgRejectReasonCode
  pub header : ℕ

-- `bits()` and `from_bits_truncate` of the flags, which all have one bit but those of a segment.
abbrev pub segment_bits : XferSegmentFlags → ℕ
segment_bits f = bit f.last 1 + bit f.start 2

abbrev pub segment_flags : ℕ → XferSegmentFlags
segment_flags n = record { start = n / 2 % 2 == 1; last = n % 2 == 1 }

-- `is_empty()`
abbrev pub no_flags : XferSegmentFlags → Bool
no_flags f = not f.start && not f.last

abbrev pub lowest_bit : ℕ → Bool
lowest_bit n = n % 2 == 1
