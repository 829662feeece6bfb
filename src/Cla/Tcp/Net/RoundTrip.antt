-- ===== src/Cla/Tcp/Net/RoundTrip.antt =====
-- A packet that is written by `TcpClPacket::write` is read back by `TcpClPacket::read`.
use mathlib.Core.List.{append_assoc, append-nil}
use dtn7_rs.Prelude.{
  ℕ, zero, suc, ◌+◌, ◌%◌, ◌^◌, ◌≤◌, ◌<◌, ◌≡◌, refl, ap, ◌∙◌, Bool, true, false, some, List, [], ◌∷◌,
  ◌++◌, length, arith, All, ltb, leb, ◌==◌, nat_eq, if◌then◌else◌,
}
use dtn7_rs.Cla.Tcp.Proto.{
  Bytes, bit, item_type, item_code, segment_flags, lowest_bit, refuse_reason, refuse_code,
  term_reason, term_code, reject_reason, reject_code, SessInitData, XferSegData,
  TransferExtensionItem, TransferExtensionItemType, XferRefuseReasonCode, SessTermReasonCode,
  MsgRejectReasonCode,
}
use dtn7_rs.Cla.Tcp.Wire.{
  Wire, Width, Laws, ok, modulus, u16, u32, u64, read_int, read_exact, read_int-put,
  read_exact-append,
}
use dtn7_rs.Cla.Tcp.Net.{
  TcpClPacket, contact_header, sess_init, sess_term, xfer_seg, xfer_ack, xfer_refuse, keep_alive,
  msg_reject, segment_mru, minimum_extension_item_size, item_bytes, write_extensions, write_segment,
  announce, write, add_item, checked_sub, parse_extensions, read_extensions, read_segment, read,
  skip, read_sess_init, read_message, read_contact_header,
}

-- The announced length of extension items.
abbrev pub size : List TransferExtensionItem → ℕ
size [] = 0
size (e ∷ es) = minimum_extension_item_size + length e.content + size es

abbrev pub IsItem : TransferExtensionItem → Type 0
IsItem e = length e.content < 2 ^ 16

-- A packet that the fields of its message can hold.
abbrev pub IsPacket : Wire → TcpClPacket → Type 0
IsPacket w (sess_init d) =
    (d.keepalive < 2 ^ 16)
    × (d.segment_mru < 2 ^ 64)
    × (d.transfer_mru < 2 ^ 64)
    × (length d.node_id < 2 ^ 16)
    × (w.utf8_lossy d.node_id ≡ d.node_id)
IsPacket w (xfer_seg d) =
    (d.tid < 2 ^ 64)
    × (d.len ≡ length d.buf)
    × (d.len ≤ segment_mru)
    × All IsItem d.extensions
    × (size d.extensions < 2 ^ 32)
    × (d.flags.start ≡ false → d.extensions ≡ [])
IsPacket w (xfer_ack d) = (d.tid < 2 ^ 64) × (d.len < 2 ^ 64)
IsPacket w (xfer_refuse d) = d.tid < 2 ^ 64
IsPacket w _ = Unit

segment_flags-bits :
    (s l : Bool) → segment_flags (bit l 1 + bit s 2) ≡ record { start = s; last = l }
segment_flags-bits true true = refl
segment_flags-bits true false = refl
segment_flags-bits false true = refl
segment_flags-bits false false = refl

lowest_bit-bit : (b : Bool) → lowest_bit (bit b 1) ≡ b
lowest_bit-bit true = refl
lowest_bit-bit false = refl

item_type-code : (t : TransferExtensionItemType) → item_type (item_code t) ≡ some t
item_type-code TransferExtensionItemType.bundle_id = refl

item_code-lt : (t : TransferExtensionItemType) → item_code t < 2 ^ 16
item_code-lt TransferExtensionItemType.bundle_id = omega arith

refuse_reason-code : (r : XferRefuseReasonCode) → refuse_reason (refuse_code r) ≡ some r
refuse_reason-code XferRefuseReasonCode.unknown = refl
refuse_reason-code XferRefuseReasonCode.completed = refl
refuse_reason-code XferRefuseReasonCode.no_resources = refl
refuse_reason-code XferRefuseReasonCode.retransmit = refl
refuse_reason-code XferRefuseReasonCode.not_acceptable = refl
refuse_reason-code XferRefuseReasonCode.extension_failure = refl

term_reason-code : (r : SessTermReasonCode) → term_reason (term_code r) ≡ some r
term_reason-code SessTermReasonCode.unknown = refl
term_reason-code SessTermReasonCode.idle_timeout = refl
term_reason-code SessTermReasonCode.version_mismatch = refl
term_reason-code SessTermReasonCode.busy = refl
term_reason-code SessTermReasonCode.contact_failure = refl
term_reason-code SessTermReasonCode.resource_exhaustion = refl

reject_reason-code : (r : MsgRejectReasonCode) → reject_reason (reject_code r) ≡ some r
reject_reason-code MsgRejectReasonCode.type_unknown = refl
reject_reason-code MsgRejectReasonCode.unsupported = refl
reject_reason-code MsgRejectReasonCode.unexpected = refl

module _ (w : Wire) (laws : Laws w) where
  abbrev items : List TransferExtensionItem → Bytes
  items [] = []
  items (e ∷ es) = item_bytes w e ++ items es

  write_extensions_lem :
      (es : List TransferExtensionItem) (ext_data : Bytes) (len : ℕ)
      → len + size es < 2 ^ 32
      → write_extensions w es ext_data len ≡ (ext_data ++ items es, len + size es)
  unfolding write_extensions
  write_extensions_lem [] d len h = simp (append-nil) (ground arith)
  write_extensions_lem (e ∷ es) d len h =
      let same : (len + (5 + length e.content)) % 2 ^ 32 ≡ len + (5 + length e.content) =
        omega arith in
      rw
        (
          same,
          write_extensions_lem es (d ++ item_bytes w e) (len + (5 + length e.content))
              (omega arith),
          append_assoc d (item_bytes w e) (items es),
        )
        (ground arith)

  parse_step :
      (fuel n left flag code l : ℕ) (es : List TransferExtensionItem)
      (content s s' s'' rest : Bytes)
      → leb minimum_extension_item_size n ≡ true
      → read_int w u16 s ≡ ok code s'
      → read_int w u16 s' ≡ ok l s''
      → checked_sub n (minimum_extension_item_size + l) ≡ some left
      → read_exact l s'' ≡ ok content rest
      → parse_extensions w (suc fuel) n es (flag ∷ s)
        ≡ parse_extensions w fuel left (add_item w flag code content es) rest
  unfolding parse_extensions
  parse_step fuel n left flag code l es content s s' s'' rest big a b c d = ground arith

  add_item-code :
      (e : TransferExtensionItem) (es : List TransferExtensionItem)
      → add_item w (bit e.flags.critical 1) (item_code e.item) e.content es ≡ es ++ e ∷ []
  add_item-code e es = ground (arith, item_type-code e.item, lowest_bit-bit e.flags.critical)

  parse_item :
      (fuel n : ℕ) (es : List TransferExtensionItem) (e : TransferExtensionItem) (rest : Bytes)
      → IsItem e
      → parse_extensions w (suc fuel) (5 + length e.content + n) es (item_bytes w e ++ rest)
        ≡ parse_extensions w fuel n (es ++ e ∷ []) rest
  parse_item fuel n es e rest h =
      let l = length e.content in
      let fits : l % 2 ^ 16 ≡ l = omega arith in
      simp (fits, append_assoc)
        (parse_step fuel (5 + l + n) n (bit e.flags.critical 1) (item_code e.item) l es e.content _
            _ _ rest (ground arith)
            (read_int-put w laws u16 (item_code e.item) (w.put u16 l ++ (e.content ++ rest))
              (item_code-lt e.item))
            (read_int-put w laws u16 l (e.content ++ rest) h) (ground arith)
            (read_exact-append e.content rest)
          ∙ ap (λ es. parse_extensions w fuel n es rest) (add_item-code e es))

  parse_items :
      (fuel : ℕ) (xs es : List TransferExtensionItem) (rest : Bytes)
      → size xs < fuel
      → All IsItem xs
      → parse_extensions w fuel (size xs) es (items xs ++ rest) ≡ ok (es ++ xs) rest
  parse_items zero xs es rest h k = absurd (omega arith)
  parse_items (suc fuel) [] es rest h k = unfold parse_extensions skip in rw (append-nil es) refl
  parse_items (suc fuel) (x ∷ xs) es rest h k = rw (append_assoc (item_bytes w x) (items xs) rest) (
      parse_item fuel (size xs) es x (items xs ++ rest) k.0
      ∙ parse_items fuel xs (es ++ x ∷ []) rest (omega arith) k.1
      ∙ ap (λ l. ok l rest) (append_assoc es (x ∷ []) xs))

  abbrev got :
      (k : Width) (v : ℕ) (rest : Bytes)
      → v < modulus k
      → read_int w k (w.put k v ++ rest) ≡ ok v rest
  got = read_int-put w laws

  read_sess_init-written :
      (d : SessInitData) (rest : Bytes)
      → IsPacket w (sess_init d)
      → read_sess_init w (
          w.put u16 d.keepalive
          ++ (w.put u64 d.segment_mru
              ++ (w.put u64 d.transfer_mru
                  ++ (w.put u16 (length d.node_id) ++ (d.node_id ++ (w.put u32 0 ++ rest))))))
        ≡ ok (sess_init d) rest
  unfolding read_sess_init
  read_sess_init-written d rest h =
      let s5 = w.put u32 0 ++ rest in
      let s4 = w.put u16 (length d.node_id) ++ (d.node_id ++ s5) in
      let s3 = w.put u64 d.transfer_mru ++ s4 in
      ground (
        arith,
        got u16 d.keepalive (w.put u64 d.segment_mru ++ s3) h.0,
        got u64 d.segment_mru s3 h.1,
        got u64 d.transfer_mru s4 h.2,
        got u16 (length d.node_id) (d.node_id ++ s5) h.3,
        read_exact-append d.node_id s5,
        got u32 0 rest (omega arith),
        h.4,
      )

  read-sess_init :
      (d : SessInitData) (rest : Bytes)
      → IsPacket w (sess_init d)
      → read w (write w (sess_init d) ++ rest) ≡ ok (sess_init d) rest
  unfolding read write read_message
  read-sess_init d rest h =
      let fits : length d.node_id % 2 ^ 16 ≡ length d.node_id = omega arith in
      simp (fits, append_assoc) (read_sess_init-written d rest h)

  read_extensions-written :
      (start : Bool) (es : List TransferExtensionItem) (rest : Bytes)
      → All IsItem es
      → size es < 2 ^ 32
      → (start ≡ false → es ≡ [])
      → read_extensions w start
          ((if start then announce w (write_extensions w es [] 0) else []) ++ rest)
        ≡ ok es rest
  unfolding read_extensions
  read_extensions-written false es rest h k e = rw (e refl) refl
  read_extensions-written true [] rest h k e =
      unfold write_extensions in simp append_assoc (ground (arith, got u32 0 rest (omega arith)))
  read_extensions-written true (x ∷ xs) rest h k e =
      let n = size (x ∷ xs) in
      let written : write_extensions w (x ∷ xs) [] 0 ≡ (items (x ∷ xs), n) =
        write_extensions_lem (x ∷ xs) [] 0 (omega arith)
        ∙ ap (λ m. (items (x ∷ xs), m)) (omega arith) in
      let some_bytes : ltb 0 n ≡ true = ground arith in
      let not_zero : (n == 0) ≡ false = ground arith in
      let stream : announce w (items (x ∷ xs), n) ++ rest
          ≡ w.put u32 n ++ (items (x ∷ xs) ++ rest) =
        rw (some_bytes, append_assoc (w.put u32 n) (items (x ∷ xs)) rest) refl in
      rw (written, stream, got u32 n (items (x ∷ xs) ++ rest) k, not_zero)
        (parse_items (suc n) (x ∷ xs) [] rest (omega arith) h)

  body_lem : (len : ℕ) (buf : Bytes) → len ≡ length buf → (if ltb 0 len then buf else []) ≡ buf
  body_lem len [] h = ground arith
  body_lem len (b ∷ bs) h = ground arith

  read_segment-written :
      (d : XferSegData) (rest : Bytes)
      → IsPacket w (xfer_seg d)
      → read_segment w (write_segment w d ++ rest) ≡ ok (xfer_seg d) rest
  unfolding read_segment write_segment
  read_segment-written d rest h =
      let exts : Bytes =
        if d.flags.start then announce w (write_extensions w d.extensions [] 0) else [] in
      let s2 = w.put u64 d.len ++ (d.buf ++ rest) in
      simp (body_lem d.len d.buf h.1, append_assoc)
        (ground (
          arith,
          got u64 d.tid (exts ++ s2) h.0,
          segment_flags-bits d.flags.start d.flags.last,
          read_extensions-written d.flags.start d.extensions s2 h.3 h.4 h.5,
          got u64 d.len (d.buf ++ rest) (omega arith),
          read_exact-append d.buf rest,
          h.1,
          h.2,
        ))

  -- Reading what `write` wrote of a packet returns the packet, whatever follows, and leaves what
  -- follows. The numbers of the packet fit their fields, a segment is no longer than the segment
  -- limit and says its length, only a first segment has extensions, and a node ID is proper text.
  -- It holds for every encoding of integers that gives back what it was given.
  pub read-write :
      (p : TcpClPacket) (rest : Bytes) → IsPacket w p → read w (write w p ++ rest) ≡ ok p rest
  unfolding read write read_message read_contact_header
  read-write (contact_header f) rest h = ground (arith, lowest_bit-bit f.can_tls)
  read-write (sess_init d) rest h = read-sess_init d rest h
  read-write (sess_term d) rest h =
      ground (arith, lowest_bit-bit d.flags.reply, term_reason-code d.reason)
  read-write (xfer_seg d) rest h = read_segment-written d rest h
  read-write (xfer_ack d) rest h = simp append_assoc (
      ground (
        arith,
        segment_flags-bits d.flags.start d.flags.last,
        got u64 d.tid (w.put u64 d.len ++ rest) h.0,
        got u64 d.len rest h.1,
      ))
  read-write (xfer_refuse d) rest h =
      ground (arith, refuse_reason-code d.reason, got u64 d.tid rest h)
  read-write keep_alive rest h = refl
  read-write (msg_reject d) rest h = ground (arith, reject_reason-code d.reason)
