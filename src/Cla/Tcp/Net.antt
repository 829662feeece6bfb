-- ===== src/Cla/Tcp/Net.antt =====
-- Packets of the TCP convergence layer and their bytes, core/dtn7/src/cla/tcp/net.rs. Sums that
-- `usize` or `u32` cannot hold wrap, as in a release build.
pub mod RoundTrip
pub mod Extensions
pub mod Totality
pub mod Rest
use dtn7_rs.Prelude.{
  ℕ, zero, suc, ◌+◌, ◌-◌, ◌%◌, ◌^◌, ◌≡◌, refl, Bool, true, false, not, ◌&&◌, Option, none, some,
  List, [], ◌∷◌, ◌++◌, length, ltb, leb, ◌==◌, nat_eq, if◌then◌else◌,
}
use dtn7_rs.Cla.Tcp.Proto
use dtn7_rs.Cla.Tcp.Proto.{
  Bytes, bit, MessageType, message_code, message_type, reject_code, reject_reason, refuse_code,
  refuse_reason, item_code, item_type, term_code, term_reason, segment_bits, segment_flags,
  lowest_bit, ContactHeaderFlags, SessInitData, SessTermData, XferSegmentFlags, XferSegData,
  XferAckData, XferRefuseData, MsgRejectData, TransferExtensionItem,
}
use dtn7_rs.Cla.Tcp.Wire.{
  Wire, Read, Parsed, ok, fail, ◌>>=◌, proceed, pure, bail, bail_if, known, read_u8, read_int,
  read_exact, u16, u32, u64, TcpClError, unknown_packet_type, unknown_reason_code,
  session_extension_items_unsupported, invalid_magic, unsupported_version,
  malformed_transfer_extension, segment_too_large, out_of_fuel,
}

pub data TcpClPacket : Type 0 where
  contact_header : ContactHeaderFlags → TcpClPacket
  sess_init : SessInitData → TcpClPacket
  sess_term : SessTermData → TcpClPacket
  xfer_seg : XferSegData → TcpClPacket
  xfer_ack : XferAckData → TcpClPacket
  xfer_refuse : XferRefuseData → TcpClPacket
  keep_alive : TcpClPacket
  msg_reject : MsgRejectData → TcpClPacket

abbrev pub minimum_extension_item_size : ℕ
minimum_extension_item_size = 5

abbrev pub segment_mru : ℕ
segment_mru = 64000

-- `checked_sub`
abbrev pub checked_sub : ℕ → ℕ → Option ℕ
checked_sub a b = if leb b a then some (a - b) else none

module _ (w : Wire) where
  -- The bytes of one extension item.
  abbrev pub item_bytes : TransferExtensionItem → Bytes
  item_bytes e =
      bit e.flags.critical 1 ∷ w.put u16 (item_code e.item)
      ++ (w.put u16 (length e.content % 2 ^ 16) ++ e.content)

  -- The loop over the extensions: the bytes written so far and their announced length.
  unfoldable pub write_extensions : List TransferExtensionItem → Bytes → ℕ → Bytes × ℕ
  write_extensions [] ext_data len = (ext_data, len)
  write_extensions (e ∷ es) ext_data len =
      write_extensions es (ext_data ++ item_bytes e)
        ((len + (minimum_extension_item_size + length e.content)) % 2 ^ 32)

  abbrev pub announce : Bytes × ℕ → Bytes
  announce (ext_data, len) = w.put u32 len ++ (if ltb 0 len then ext_data else [])

  unfoldable pub write_segment : XferSegData → Bytes
  write_segment d =
      segment_bits d.flags ∷ w.put u64 d.tid
      ++ ((if d.flags.start then announce (write_extensions d.extensions [] 0) else [])
          ++ (w.put u64 d.len ++ (if ltb 0 d.len then d.buf else [])))

  unfoldable pub write : TcpClPacket → Bytes
  unfolding write_segment
  write (sess_init d) =
      message_code MessageType.sess_init ∷ w.put u16 d.keepalive
      ++ (w.put u64 d.segment_mru
          ++ (w.put u64 d.transfer_mru
              ++ (w.put u16 (length d.node_id % 2 ^ 16) ++ (d.node_id ++ w.put u32 0))))
  write (sess_term d) =
      message_code MessageType.sess_term ∷ bit d.flags.reply 1 ∷ term_code d.reason ∷ []
  write (xfer_seg d) = message_code MessageType.xfer_segment ∷ write_segment d
  write (xfer_ack d) =
      message_code MessageType.xfer_ack ∷ segment_bits d.flags ∷ w.put u64 d.tid ++ w.put u64 d.len
  write (xfer_refuse d) =
      message_code MessageType.xfer_refuse ∷ refuse_code d.reason ∷ w.put u64 d.tid
  write keep_alive = message_code MessageType.keepalive ∷ []
  write (msg_reject d) = message_code MessageType.msg_reject ∷ reject_code d.reason ∷ d.header ∷ []
  write (contact_header f) = b'd' ∷ b't' ∷ b'n' ∷ b'!' ∷ 4 ∷ bit f.can_tls 1 ∷ []

  -- `for _ in 0..n { reader.read_u8() }`
  unfoldable pub skip : ℕ → Read (Unit {0})
  skip zero = pure tt
  skip (suc n) = do _ ← read_u8; skip n

  -- An item of an unknown type is left out.
  abbrev pub add_item : ℕ → ℕ → Bytes → List TransferExtensionItem → List TransferExtensionItem
  add_item flag code content es = elim (item_type code) [
    | none ↦ es
    | some t ↦
        es
        ++ record { flags = record { critical = lowest_bit flag }; item = t; content = content }
          ∷ []
  ]

  -- The `while` loop over the extension items and the bytes behind the last of them. Every round
  -- takes five from `ext_len`, so fuel above `ext_len` is enough.
  unfoldable pub parse_extensions :
      ℕ → ℕ → List TransferExtensionItem → Read (List TransferExtensionItem)
  parse_extensions zero ext_len es = bail out_of_fuel
  parse_extensions (suc fuel) ext_len es = elim (leb minimum_extension_item_size ext_len) [
    | true ↦ do
      flag ← read_u8
      code ← read_int w u16
      item_length ← read_int w u16
      left ←
          known (checked_sub ext_len (minimum_extension_item_size + item_length))
            malformed_transfer_extension
      content ← read_exact item_length
      parse_extensions fuel left (add_item flag code content es)
    | false ↦ do _ ← skip ext_len; pure es
  ]

  unfoldable pub read_extensions : Bool → Read (List TransferExtensionItem)
  unfolding parse_extensions skip
  read_extensions true = do
    ext_len ← read_int w u32
    if ext_len == 0 then pure [] else parse_extensions (suc ext_len) ext_len []
  read_extensions false = pure []

  unfoldable pub read_segment : Read TcpClPacket
  unfolding read_extensions
  read_segment = do
    bits ← read_u8
    let flags = segment_flags bits
    tid ← read_int w u64
    extensions ← read_extensions flags.start
    len ← read_int w u64
    _ ← bail_if (ltb segment_mru len) (segment_too_large len)
    buf ← read_exact len
    pure (
        xfer_seg
          (record { flags = flags; tid = tid; len = len; buf = buf; extensions = extensions }))

  unfoldable pub read_sess_init : Read TcpClPacket
  read_sess_init = do
    keepalive ← read_int w u16
    mru ← read_int w u64
    transfer_mru ← read_int w u64
    node_id_len ← read_int w u16
    node_buffer ← read_exact node_id_len
    ext_items ← read_int w u32
    _ ← bail_if (not (ext_items == 0)) session_extension_items_unsupported
    pure (
        sess_init (record {
          keepalive = keepalive;
          segment_mru = mru;
          transfer_mru = transfer_mru;
          node_id = w.utf8_lossy node_buffer;
        }))

  -- What follows the magic's first byte.
  unfoldable pub read_contact_header : Read TcpClPacket
  read_contact_header = do
    t ← read_u8
    n ← read_u8
    mark ← read_u8
    version ← read_u8
    flags ← read_u8
    _ ← bail_if (not (t == b't' && (n == b'n' && mark == b'!'))) invalid_magic
    _ ← bail_if (not (version == 4)) unsupported_version
    pure (contact_header (record { can_tls = lowest_bit flags }))

  unfoldable pub read_message : MessageType → Read TcpClPacket
  unfolding read_segment read_sess_init
  read_message MessageType.xfer_segment = read_segment
  read_message MessageType.xfer_ack = do
    bits ← read_u8
    tid ← read_int w u64
    len ← read_int w u64
    pure (xfer_ack (record { flags = segment_flags bits; tid = tid; len = len }))
  read_message MessageType.xfer_refuse = do
    rcode ← read_u8
    reason ← known (refuse_reason rcode) (unknown_reason_code rcode)
    tid ← read_int w u64
    pure (xfer_refuse (record { reason = reason; tid = tid }))
  read_message MessageType.keepalive = pure keep_alive
  read_message MessageType.sess_term = do
    bits ← read_u8
    rcode ← read_u8
    reason ← known (term_reason rcode) (unknown_reason_code rcode)
    pure (sess_term (record { flags = record { reply = lowest_bit bits }; reason = reason }))
  read_message MessageType.sess_init = read_sess_init
  read_message MessageType.msg_reject = do
    rcode ← read_u8
    header ← read_u8
    reason ← known (reject_reason rcode) (unknown_reason_code rcode)
    pure (msg_reject (record { reason = reason; header = header }))

  abbrev pub read_known : ℕ → Option MessageType → Read TcpClPacket
  unfolding read_contact_header read_message
  read_known code (some t) = read_message t
  read_known code none =
      if code == b'd' then read_contact_header else bail (unknown_packet_type code)

  unfoldable pub read : Read TcpClPacket
  unfolding read_known
  read = do code ← read_u8; read_known code (message_type code)
