-- ===== src/Cla/Tcp/Running/Steps.antt =====
-- What one segment and one acknowledgement do to a session whose writes succeed.
use dtn7_rs.Prelude.{
  ℕ, ◌+◌, ◌≤◌, ◌<◌, ◌≡◌, refl, Bool, true, false, List, [], ◌∷◌, ◌++◌, length, arith, nat_eq,
}
use dtn7_rs.Cla.Tcp.Proto.{XferRefuseReasonCode, Bytes, XferSegmentFlags}
use dtn7_rs.Cla.Tcp.Net.{TcpClPacket, xfer_seg}
use dtn7_rs.Cla.Tcp.Session.{
  answer, TcpSession, ReceiveState, SendState, States, Response, Host, ok, write, successful,
}
use dtn7_rs.Cla.Tcp.Sending.{no_segment_flags, segment, set_last, set_start}
use dtn7_rs.Cla.Tcp.Receiving.{
  refusal, ack, receive, process_bundle, receive_segment, continue_transfer, start_transfer,
  receive_ack,
}
use dtn7_rs.Cla.Tcp.Running.{Running}

module _ {B : Type 0} where
  abbrev pub wrote : List TcpClPacket → TcpSession B → TcpSession B
  wrote ps s = record s { written = s.written ++ ps }

  pub write_lem :
      (p : TcpClPacket) (s : TcpSession B) → s.writes ≡ [] → write p s ≡ (ok tt, wrote (p ∷ []) s)
  unfolding write
  write_lem p s e = rw e refl

  abbrev pub at : TcpSession B → States → Bool → Bool → Running B
  at s states a b = record {
    session = s;
    states = states;
    keepalive_sent = a;
    keepalive_received = b;
  }

  -- The state after a complete transfer, whether it decodes or not.
  abbrev pub processed : Host B → Bytes → ℕ → TcpSession B → TcpSession B
  processed host buf tid s = (process_bundle host buf tid s).1

  pub processed_idle :
      (host : Host B) (buf : Bytes) (tid : ℕ) (s : TcpSession B)
      → s.writes ≡ []
      → process_bundle host buf tid s ≡ (ok ReceiveState.idle, processed host buf tid s)
  unfolding process_bundle
  processed_idle host buf tid s quiet = ground (
    arith,
    write_lem (refusal XferRefuseReasonCode.not_acceptable tid) (record s { broken = s.broken + 1 })
        quiet,
  )

module _ {B : Type 0} (host : Host B) (tid : ℕ) (ss : SendState) (s : TcpSession B)
    (quiet : s.writes ≡ []) where
  abbrev acked : XferSegmentFlags → ℕ → TcpSession B
  acked flags len = wrote (ack flags tid len ∷ []) s

  pub middle_segment :
      (buf c : Bytes)
      → length buf + length c ≤ s.local_session_data.transfer_mru
      → receive host (xfer_seg (segment tid c)) (ReceiveState.receiving buf tid, ss) s ≡ (
        ok (ReceiveState.receiving (buf ++ c) tid, ss),
        acked no_segment_flags (length (buf ++ c)),
      )
  unfolding receive receive_segment start_transfer continue_transfer receive_ack answer
  middle_segment buf c h =
      ground (arith, write_lem (ack no_segment_flags tid (length (buf ++ c))) s quiet)

  pub last_segment :
      (buf c : Bytes)
      → length buf + length c ≤ s.local_session_data.transfer_mru
      → receive host (xfer_seg (set_last (segment tid c))) (ReceiveState.receiving buf tid, ss) s
        ≡ (
          ok (ReceiveState.idle, ss),
          processed host (buf ++ c) tid (acked no_segment_flags (length (buf ++ c))),
        )
  unfolding receive receive_segment start_transfer continue_transfer receive_ack answer
  last_segment buf c h =
      let a = acked no_segment_flags (length (buf ++ c)) in
      ground (
        arith,
        write_lem (ack no_segment_flags tid (length (buf ++ c))) s quiet,
        processed_idle host (buf ++ c) tid a quiet,
      )

  pub first_segment :
      (c : Bytes)
      → length c ≤ s.local_session_data.transfer_mru
      → receive host (xfer_seg (set_start (segment tid c))) (ReceiveState.idle, ss) s ≡ (
        ok (ReceiveState.receiving c tid, ss),
        acked (record { start = true; last = false }) (length c),
      )
  unfolding receive receive_segment start_transfer continue_transfer receive_ack answer
  first_segment c h =
      ground (arith, write_lem (ack (record { start = true; last = false }) tid (length c)) s quiet)

  pub only_segment :
      (c : Bytes)
      → length c ≤ s.local_session_data.transfer_mru
      → receive host (xfer_seg (set_last (set_start (segment tid c)))) (ReceiveState.idle, ss) s ≡ (
        ok (ReceiveState.idle, ss),
        processed host c tid (acked (record { start = true; last = true }) (length c)),
      )
  unfolding receive receive_segment start_transfer continue_transfer receive_ack answer
  only_segment c h =
      let a = acked (record { start = true; last = true }) (length c) in
      ground (
        arith,
        write_lem (ack (record { start = true; last = true }) tid (length c)) s quiet,
        processed_idle host c tid a quiet,
      )

-- The sender's side: an acknowledgement of less than the whole changes nothing; one of the whole is
-- a success.
module _ {B : Type 0} (host : Host B) (rs : ReceiveState) (response : Response)
    (s : TcpSession B) where
  pub partial_ack :
      (flags : XferSegmentFlags) (n len : ℕ)
      → n < len
      → receive host (ack flags s.last_tid n) (rs, SendState.sending len response) s
        ≡ (ok (rs, SendState.sending len response), s)
  unfolding receive receive_segment start_transfer continue_transfer receive_ack answer
  partial_ack flags n len h = ground arith

  pub full_ack :
      (flags : XferSegmentFlags) (n len : ℕ)
      → len ≤ n
      → response.listening ≡ true
      → receive host (ack flags s.last_tid n) (rs, SendState.sending len response) s ≡ (
        ok (rs, SendState.idle),
        record s { answers = s.answers ++ (response.task, successful) ∷ [] },
      )
  unfolding receive receive_segment start_transfer continue_transfer receive_ack answer
  full_ack flags n len h e = ground arith
