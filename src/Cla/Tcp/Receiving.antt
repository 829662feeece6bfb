-- ===== src/Cla/Tcp/Receiving.antt =====
-- What a session does with a packet: `receive`, `process_bundle` and `refuse_oversized_transfer` in
-- core/dtn7/src/cla/tcp/mod.rs.
use dtn7_rs.Prelude.{
  ℕ, ◌+◌, String, Bool, true, false, not, ◌&&◌, ◌||◌, Option, none, some, List, [], ◌∷◌, ◌++◌,
  length, any, is_empty, ltb, ◌==◌, nat_eq, if◌then◌else◌,
}
use dtn7_rs.Cla.Tcp.Proto.{
  Bytes, XferSegData, XferSegmentFlags, XferRefuseReasonCode, XferAckData, XferRefuseData,
  SessTermReasonCode, TransferExtensionItem, no_flags,
}
use dtn7_rs.Cla.Tcp.Net.{TcpClPacket, xfer_seg, xfer_ack, xfer_refuse, sess_term}
use dtn7_rs.Cla.Tcp.Session
use dtn7_rs.Cla.Tcp.Session.{
  TcpSession, ReceiveState, SendState, States, Response, Host, Action, pure, bail, proceed, ◌>>=◌,
  write, answer, successful, failure, protocol, TransferResult,
}
use dtn7_rs.Cla.Tcp.Sending.{no_segment_flags, send_bundle}

abbrev pub refusal : XferRefuseReasonCode → ℕ → TcpClPacket
refusal reason tid = xfer_refuse (record { reason = reason; tid = tid })

abbrev pub ack : XferSegmentFlags → ℕ → ℕ → TcpClPacket
ack flags tid len = xfer_ack (record { flags = flags; tid = tid; len = len })

abbrev pub termination : Bool → SessTermReasonCode → TcpClPacket
termination reply reason = sess_term (record { flags = record { reply = reply }; reason = reason })

abbrev pub both_terminated : States
both_terminated = (ReceiveState.terminated, SendState.terminated)

module _ {B : Type 0} (host : Host B) where
  -- `peers_touch` for the node of the peer's ID, if it has one.
  abbrev pub touch : Option String → TcpSession B → TcpSession B
  touch none s = s
  touch (some node) s = record s { touched = s.touched ++ node ∷ [] }

  -- `processing::receive` is spawned.
  abbrev pub hand_over : B → Option String → Action B ReceiveState
  hand_over b node s =
      let s' = touch node s in
      (Session.ok ReceiveState.idle, record s' { received = s'.received ++ b ∷ [] })

  abbrev pub count_broken : TcpSession B → TcpSession B
  count_broken s = record s { broken = s.broken + 1 }

  abbrev pub process_decoded : Option B → ℕ → Action B ReceiveState
  process_decoded (some b) tid s = hand_over b (host.node_of s.remote_session_data.node_id) s
  process_decoded none tid s =
      proceed (write (refusal XferRefuseReasonCode.not_acceptable tid) (count_broken s))
        (λ _. pure ReceiveState.idle)

  unfoldable pub process_bundle : Bytes → ℕ → Action B ReceiveState
  process_bundle vec tid = process_decoded (host.try_from vec) tid

  unfoldable pub refuse_oversized_transfer : ℕ → XferSegmentFlags → Action B ReceiveState
  refuse_oversized_transfer tid flags = do
    _ ← write (refusal XferRefuseReasonCode.no_resources tid)
    pure (if flags.last then ReceiveState.idle else ReceiveState.discarding tid)

  -- The send state stays as it was.
  abbrev pub keeping : SendState → Action B ReceiveState → Action B States
  keeping send_state m = do r ← m; pure (r, send_state)

  abbrev pub known_id : Option String → Bool
  known_id none = false
  known_id (some id) = host.is_known id

  -- The loop over the extensions: one of them names a bundle that the store knows.
  abbrev pub names_known : List TransferExtensionItem → Bool
  names_known es = any (λ e. known_id (host.from_utf8 e.content)) es

  -- What was received so far is acknowledged, and handed over behind the last segment.
  abbrev pub finish : Bytes → XferSegData → Action B ReceiveState
  finish buffer d =
      if d.flags.last
      then process_bundle buffer d.tid
      else pure (ReceiveState.receiving buffer d.tid)

  unfoldable pub continue_transfer : Bytes → ℕ → XferSegData → SendState → Action B States
  continue_transfer buffer tid d send_state s =
      if d.flags.start || not (tid == d.tid)
      then bail (protocol (xfer_seg d)) s
      else if ltb s.local_session_data.transfer_mru (length buffer + length d.buf)
      then keeping send_state (refuse_oversized_transfer tid d.flags) s
      else proceed (write (ack no_segment_flags d.tid (length (buffer ++ d.buf))) s)
          (λ _. keeping send_state (finish (buffer ++ d.buf) d))

  unfoldable pub start_transfer : XferSegData → SendState → Action B States
  start_transfer d send_state s =
      if d.flags.last && not d.flags.start || no_flags d.flags
      then bail (protocol (xfer_seg d)) s
      else if (d.flags.start && not (is_empty d.extensions))
          && (s.refuse_existing_bundles && names_known d.extensions)
      then proceed (write (refusal XferRefuseReasonCode.not_acceptable d.tid) s)
          (λ _. pure (ReceiveState.idle, send_state))
      else if ltb s.local_session_data.transfer_mru (length d.buf)
      then keeping send_state (refuse_oversized_transfer d.tid d.flags) s
      else proceed (write (ack d.flags d.tid d.len) s) (λ _. keeping send_state (finish d.buf d))

  -- A segment of another transfer ends the discarding of a refused one.
  abbrev pub stop_discarding : ReceiveState → ℕ → ReceiveState
  stop_discarding (ReceiveState.discarding tid) other =
      if not (tid == other) then ReceiveState.idle else ReceiveState.discarding tid
  stop_discarding state other = state

  unfoldable pub receive_segment : ReceiveState → XferSegData → SendState → Action B States
  receive_segment (ReceiveState.receiving buffer tid) d send_state =
      continue_transfer buffer tid d send_state
  receive_segment ReceiveState.idle d send_state = start_transfer d send_state
  receive_segment (ReceiveState.discarding tid) d send_state =
      pure (if d.flags.last then ReceiveState.idle else ReceiveState.discarding tid, send_state)
  receive_segment ReceiveState.terminated d send_state = bail (protocol (xfer_seg d))

  abbrev pub answer_then : TcpClPacket → Response → TransferResult → ReceiveState → Action B States
  answer_then p response result receive_state = do
    sent ← answer response result
    if sent then pure (receive_state, SendState.idle) else bail (protocol p)

  unfoldable pub receive_ack : XferAckData → ReceiveState → SendState → Action B States
  receive_ack d receive_state (SendState.transfer_request bytes response) s =
      if not (d.tid == s.last_tid)
      then bail (protocol (xfer_ack d)) s
      else proceed (send_bundle bytes response s) (λ state. pure (receive_state, state))
  receive_ack d receive_state (SendState.sending len response) s =
      if not (d.tid == s.last_tid)
      then bail (protocol (xfer_ack d)) s
      else if ltb d.len len
      then pure (receive_state, SendState.sending len response) s
      else answer_then (xfer_ack d) response successful receive_state s
  receive_ack d receive_state SendState.idle s = bail (protocol (xfer_ack d)) s
  receive_ack d receive_state SendState.terminated s = bail (protocol (xfer_ack d)) s

  unfoldable pub receive_refuse : XferRefuseData → ReceiveState → SendState → Action B States
  receive_refuse d receive_state (SendState.transfer_request _ response) s =
      if not (d.tid == s.last_tid)
      then bail (protocol (xfer_refuse d)) s
      else answer_then (xfer_refuse d) response successful receive_state s
  receive_refuse d receive_state (SendState.sending _ response) s =
      if not (d.tid == s.last_tid)
      then bail (protocol (xfer_refuse d)) s
      else answer_then (xfer_refuse d) response failure receive_state s
  receive_refuse d receive_state SendState.idle s = bail (protocol (xfer_refuse d)) s
  receive_refuse d receive_state SendState.terminated s = bail (protocol (xfer_refuse d)) s

  unfoldable pub receive : TcpClPacket → States → Action B States
  receive (sess_term d) states =
      if not d.flags.reply
      then (write (termination true d.reason) >>= λ _. pure both_terminated)
      else pure both_terminated
  receive (xfer_seg d) (receive_state, send_state) =
      receive_segment (stop_discarding receive_state d.tid) d send_state
  receive (xfer_ack d) (receive_state, send_state) = receive_ack d receive_state send_state
  receive (xfer_refuse d) (receive_state, send_state) = receive_refuse d receive_state send_state
  receive p states = bail (protocol p)
