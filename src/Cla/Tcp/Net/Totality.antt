-- ===== src/Cla/Tcp/Net/Totality.antt =====
-- `TcpClPacket::read` on arbitrary bytes: its loops end, and what it accepts is within bounds.
use dtn7_rs.Prelude.{
  ℕ, ◌^◌, ◌<◌, ◌≡◌, sym, not, ◌&&◌, false, Option, none, some, [], arith, ltb, ◌==◌, nat_eq,
}
use dtn7_rs.Cla.Tcp.Proto.{
  Bytes, MessageType, message_type, refuse_reason, term_reason, reject_reason, segment_flags,
}
use dtn7_rs.Cla.Tcp.Wire.{
  Wire, Laws, u16, u32, u64, segment_too_large, session_extension_items_unsupported, invalid_magic,
  unsupported_version,
}
use dtn7_rs.Cla.Tcp.Ends.{
  Ends, Ends-proceed, choose-Ends, after_u8, after_int, after_exact, after_bail_if, after_known,
}
use dtn7_rs.Cla.Tcp.Net.{
  TcpClPacket, sess_init, segment_mru, read_segment, read, read_sess_init, read_message,
  read_contact_header, read_known,
}
use dtn7_rs.Cla.Tcp.Net.RoundTrip.{IsPacket}
use dtn7_rs.Cla.Tcp.Net.Rest.{LeavesRest, read-LeavesRest}
use dtn7_rs.Cla.Tcp.Net.Extensions.{Fit, read_extensions-Ends}

-- As `IsPacket`, but the repair of a node ID can make it longer than what was read.
abbrev pub IsRead : Wire → TcpClPacket → Type 0
IsRead w (sess_init d) =
    (d.keepalive < 2 ^ 16) × (d.segment_mru < 2 ^ 64) × (d.transfer_mru < 2 ^ 64)
IsRead w p = IsPacket w p

module _ (w : Wire) (laws : Laws w) where
  read_segment-Ends : (s : Bytes) → Ends (IsRead w) (read_segment w s)
  unfolding read_segment
  read_segment-Ends s = after_u8 _ _ s λ bits s. after_int _ w laws u64 _ s λ tid s tid_fits.
      Ends-proceed (λ es. Fit 0 es × ((segment_flags bits).start ≡ false → es ≡ [])) (IsRead w) _ _
        (read_extensions-Ends w laws (segment_flags bits).start s)
        λ es s ext. after_int _ w laws u64 _ s λ len s _.
          after_bail_if _ (ltb segment_mru len) (segment_too_large len) _ s tt λ s small.
            after_exact _ len _ s
              λ buf s e. (tid_fits, sym e, ground arith, ext.0.0, omega arith, ext.1)

  read_sess_init-Ends : (s : Bytes) → Ends (IsRead w) (read_sess_init w s)
  unfolding read_sess_init
  read_sess_init-Ends s = after_int _ w laws u16 _ s λ a s a_fits.
      after_int _ w laws u64 _ s λ b s b_fits. after_int _ w laws u64 _ s λ c s c_fits.
        after_int _ w laws u16 _ s λ n s _. after_exact _ n _ s λ _ s _.
          after_int _ w laws u32 _ s λ e s _.
            after_bail_if _ (not (e == 0)) session_extension_items_unsupported _ s tt
              λ s _. (a_fits, b_fits, c_fits)

  read_contact_header-Ends : (s : Bytes) → Ends (IsRead w) (read_contact_header w s)
  unfolding read_contact_header
  read_contact_header-Ends s = after_u8 _ _ s λ t s. after_u8 _ _ s λ n s. after_u8 _ _ s λ m s.
      after_u8 _ _ s λ v s. after_u8 _ _ s λ f s.
        after_bail_if _ (not (t == b't' && (n == b'n' && m == b'!'))) invalid_magic _ s tt
          λ s _. after_bail_if _ (not (v == 4)) unsupported_version _ s tt λ s _. tt

  read_message-Ends : (t : MessageType) (s : Bytes) → Ends (IsRead w) (read_message w t s)
  unfolding read_message
  read_message-Ends MessageType.xfer_segment s = read_segment-Ends s
  read_message-Ends MessageType.xfer_ack s =
      after_u8 _ _ s
        λ bits s. after_int _ w laws u64 _ s λ tid s h. after_int _ w laws u64 _ s λ len s k. (h, k)
  read_message-Ends MessageType.xfer_refuse s =
      after_u8 _ _ s
        λ c s. after_known _ (refuse_reason c) c _ s λ r s. after_int _ w laws u64 _ s λ tid s h. h
  read_message-Ends MessageType.keepalive s = tt
  read_message-Ends MessageType.sess_term s =
      after_u8 _ _ s λ b s. after_u8 _ _ s λ c s. after_known _ (term_reason c) c _ s λ r s. tt
  read_message-Ends MessageType.sess_init s = read_sess_init-Ends s
  read_message-Ends MessageType.msg_reject s =
      after_u8 _ _ s λ c s. after_u8 _ _ s λ h s. after_known _ (reject_reason c) c _ s λ r s. tt

  read_known-Ends :
      (code : ℕ) (t : Option MessageType) (s : Bytes) → Ends (IsRead w) (read_known w code t s)
  unfolding read_known
  read_known-Ends code (some t) s = read_message-Ends t s
  read_known-Ends code none s = choose-Ends _ (code == b'd') _ _ s (read_contact_header-Ends s) tt

  in_bounds : (s : Bytes) → Ends (IsRead w) (read w s)
  unfolding read
  in_bounds s = after_u8 _ _ s λ code s. read_known-Ends code (message_type code) s

  -- Reading a packet ends on every input with a packet or with an error of the program: the loop
  -- over the extensions never runs out of its fuel. The numbers of a packet that was read fit
  -- their fields, and what it leaves unread is a rest of the input. It holds for every encoding
  -- of integers that gives numbers that fit and takes its bytes off the front.
  pub read-Ends : (s : Bytes) → Ends (IsRead w) (read w s) × LeavesRest s (read w s)
  read-Ends s = (in_bounds s, read-LeavesRest w laws s)
