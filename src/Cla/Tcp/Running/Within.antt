-- ===== src/Cla/Tcp/Running/Within.antt =====
-- How much of a transfer a session keeps: every event of its loop.
use dtn7_rs.Prelude.{
  ℕ, ◌+◌, ◌≤◌, ◌≡◌, refl, not, ◌&&◌, ◌||◌, Bool, true, false, String, Option, none, some, List, [],
  ◌∷◌, ◌++◌, length, All, length-append, arith, ltb, is_empty, ◌==◌, nat_eq, if◌then◌else◌,
}
use dtn7_rs.Cla.Tcp.Proto.{
  Bytes, XferSegData, XferAckData, XferRefuseData, XferSegmentFlags, XferRefuseReasonCode, no_flags,
}
use dtn7_rs.Cla.Tcp.Net.{
  TcpClPacket, contact_header, sess_init, xfer_seg, xfer_ack, xfer_refuse, sess_term, keep_alive,
  msg_reject,
}
use dtn7_rs.Cla.Tcp.Session.{
  TcpSession, ReceiveState, SendState, States, Response, Host, Action, pure, bail, proceed, write,
  answer, TransferResult, protocol,
}
use dtn7_rs.Cla.Tcp.Sending.{send_bundle, no_segment_flags}
use dtn7_rs.Cla.Tcp.Receiving.{
  receive, refusal, ack, process_bundle, process_decoded, hand_over, count_broken,
  refuse_oversized_transfer, continue_transfer, start_transfer, receive_segment, receive_ack,
  receive_refuse, stop_discarding, keeping, finish, answer_then, termination, names_known,
  both_terminated,
}
use dtn7_rs.Cla.Tcp.Running.Bounds.{
  IsWithin, Keeps, Holds, Post, Post-proceed, Anything, write-Post, answer-Post, choose-Post,
  choose_action-Post, send_bundle-Post,
}

module _ {B : Type 0} (host : Host B) (n : ℕ) where
  handed_over-Keeps :
      (b : B) (s : TcpSession B)
      → IsWithin host n b
      → Keeps host n s
      → Keeps host n (record s { received = s.received ++ b ∷ [] })
  handed_over-Keeps b s within k = record {
    limit = k.limit;
    handed_over = all s.received k.handed_over;
  }
    where
      all : (l : List B) → All (IsWithin host n) l → All (IsWithin host n) (l ++ b ∷ [])
      all [] h = (within, tt)
      all (x ∷ xs) h = (h.0, all xs h.1)

  process_decoded-Post :
      (buf : Bytes) (o : Option B) (tid : ℕ) (s : TcpSession B)
      → host.try_from buf ≡ o
      → length buf ≤ n
      → Keeps host n s
      → Post host n (Holds n) (process_decoded host o tid s)
  process_decoded-Post buf none tid s e h k =
      Post-proceed host n (Anything host n) _
        (write (refusal XferRefuseReasonCode.not_acceptable tid) (count_broken host s)) _
        (write-Post host n (refusal XferRefuseReasonCode.not_acceptable tid) (count_broken host s)
          (record { limit = k.limit; handed_over = k.handed_over }))
        λ _ s k _. (k, tt)
  process_decoded-Post buf (some b) tid s e h k =
      touched (host.node_of s.remote_session_data.node_id)
    where
      touched : (o : Option String) → Post host n (Holds n) (hand_over host b o s)
      touched none = (handed_over-Keeps b s (buf, e, h) k, tt)
      touched (some node) = (
        handed_over-Keeps b (record s { touched = s.touched ++ node ∷ [] }) (buf, e, h)
            (record { limit = k.limit; handed_over = k.handed_over }),
        tt,
      )

  process_bundle-Post :
      (buf : Bytes) (tid : ℕ) (s : TcpSession B)
      → length buf ≤ n
      → Keeps host n s
      → Post host n (Holds n) (process_bundle host buf tid s)
  unfolding process_bundle
  process_bundle-Post buf tid s h k = process_decoded-Post buf (host.try_from buf) tid s refl h k

  refuse_oversized-Post :
      (tid : ℕ) (flags : XferSegmentFlags) (s : TcpSession B)
      → Keeps host n s
      → Post host n (Holds n) (refuse_oversized_transfer host tid flags s)
  unfolding refuse_oversized_transfer
  refuse_oversized-Post tid flags s k =
      Post-proceed host n (Anything host n) _
        (write (refusal XferRefuseReasonCode.no_resources tid) s) _
        (write-Post host n (refusal XferRefuseReasonCode.no_resources tid) s k)
        λ _ s k _. (k, rest flags.last)
    where
      rest : (b : Bool) → Holds n (if b then ReceiveState.idle else ReceiveState.discarding tid)
      rest true = tt
      rest false = tt

  -- What a packet leaves behind.
  abbrev pub Settled : States → Type 0
  Settled (receive_state, _) = Holds n receive_state

  keeping-Post :
      (ss : SendState) (m : Action B ReceiveState) (s : TcpSession B)
      → Post host n (Holds n) (m s)
      → Post host n Settled (keeping host ss m s)
  keeping-Post ss m s h = Post-proceed host n (Holds n) _ (m s) _ h λ _ s k h. (k, h)

  finish-Post :
      (buf : Bytes) (d : XferSegData) (s : TcpSession B)
      → length buf ≤ n
      → Keeps host n s
      → Post host n (Holds n) (finish host buf d s)
  finish-Post buf d s h k =
      choose_action-Post host n (Holds n) d.flags.last (process_bundle host buf d.tid)
        (pure (ReceiveState.receiving buf d.tid)) s (process_bundle-Post buf d.tid s h k) (k, h)

  acked-Post :
      (buf : Bytes) (d : XferSegData) (ss : SendState) (p : TcpClPacket) (s : TcpSession B)
      → length buf ≤ n
      → Keeps host n s
      → Post host n Settled (proceed (write p s) (λ _. keeping host ss (finish host buf d)))
  acked-Post buf d ss p s h k =
      Post-proceed host n (Anything host n) _ (write p s) _ (write-Post host n p s k)
        λ _ s k _. keeping-Post ss (finish host buf d) s (finish-Post buf d s h k)

  refused-Post :
      (tid : ℕ) (flags : XferSegmentFlags) (ss : SendState) (s : TcpSession B)
      → Keeps host n s
      → Post host n Settled (keeping host ss (refuse_oversized_transfer host tid flags) s)
  refused-Post tid flags ss s k =
      keeping-Post ss (refuse_oversized_transfer host tid flags) s
        (refuse_oversized-Post tid flags s k)

  continue_transfer-Post :
      (buf : Bytes) (tid : ℕ) (d : XferSegData) (ss : SendState) (s : TcpSession B)
      → Keeps host n s
      → Post host n Settled (continue_transfer host buf tid d ss s)
  unfolding continue_transfer
  continue_transfer-Post buf tid d ss s k =
      choose-Post host n Settled (d.flags.start || not (tid == d.tid)) _ _ (λ _. k)
        (λ _.
          choose-Post host n Settled
            (ltb s.local_session_data.transfer_mru (length buf + length d.buf))
            (keeping host ss (refuse_oversized_transfer host tid d.flags) s) _
            (λ _. refused-Post tid d.flags ss s k)
            (λ small.
              acked-Post (buf ++ d.buf) d ss (ack no_segment_flags d.tid (length (buf ++ d.buf))) s
                (let fits : length buf + length d.buf ≤ s.local_session_data.transfer_mru =
                    ground arith in
                  omega (arith, length-append buf d.buf, k.limit))
                k))

  start_transfer-Post :
      (d : XferSegData) (ss : SendState) (s : TcpSession B)
      → Keeps host n s
      → Post host n Settled (start_transfer host d ss s)
  unfolding start_transfer
  start_transfer-Post d ss s k =
      choose-Post host n Settled (d.flags.last && not d.flags.start || no_flags d.flags) _ _
        (λ _. k)
        (λ _.
          choose-Post host n Settled
            ((d.flags.start && not (is_empty d.extensions))
              && (s.refuse_existing_bundles && names_known host d.extensions))
            (proceed (write (refusal XferRefuseReasonCode.not_acceptable d.tid) s)
              (λ _. pure (ReceiveState.idle, ss)))
            _
            (λ _.
              Post-proceed host n (Anything host n) Settled
                (write (refusal XferRefuseReasonCode.not_acceptable d.tid) s) _
                (write-Post host n (refusal XferRefuseReasonCode.not_acceptable d.tid) s k)
                λ _ s k _. (k, tt))
            (λ _.
              choose-Post host n Settled (ltb s.local_session_data.transfer_mru (length d.buf))
                (keeping host ss (refuse_oversized_transfer host d.tid d.flags) s) _
                (λ _. refused-Post d.tid d.flags ss s k)
                (λ small.
                  acked-Post d.buf d ss (ack d.flags d.tid d.len) s
                    (let fits : length d.buf ≤ s.local_session_data.transfer_mru = ground arith in
                      omega (arith, k.limit))
                    k)))

  receive_segment-Post :
      (rs : ReceiveState) (d : XferSegData) (ss : SendState) (s : TcpSession B)
      → Keeps host n s
      → Post host n Settled (receive_segment host rs d ss s)
  unfolding receive_segment
  receive_segment-Post ReceiveState.idle d ss s k = start_transfer-Post d ss s k
  receive_segment-Post (ReceiveState.receiving buf tid) d ss s k =
      continue_transfer-Post buf tid d ss s k
  receive_segment-Post (ReceiveState.discarding tid) d ss s k = (k, rest d.flags.last)
    where
      rest : (b : Bool) → Holds n (if b then ReceiveState.idle else ReceiveState.discarding tid)
      rest true = tt
      rest false = tt
  receive_segment-Post ReceiveState.terminated d ss s k = k

  answer_then-Post :
      (p : TcpClPacket) (r : Response) (t : TransferResult) (rs : ReceiveState) (s : TcpSession B)
      → Holds n rs
      → Keeps host n s
      → Post host n Settled (answer_then host p r t rs s)
  answer_then-Post p r t rs s h k =
      Post-proceed host n (Anything host n) Settled (answer r t s) _ (answer-Post host n r t s k)
        λ sent s k _.
          choose_action-Post host n Settled sent (pure (rs, SendState.idle)) (bail (protocol p)) s
            (k, h) k

  receive_ack-Post :
      (d : XferAckData) (rs : ReceiveState) (ss : SendState) (s : TcpSession B)
      → Holds n rs
      → Keeps host n s
      → Post host n Settled (receive_ack host d rs ss s)
  unfolding receive_ack
  receive_ack-Post d rs (SendState.transfer_request b r) s h k =
      choose-Post host n Settled (not (d.tid == s.last_tid)) _ _ (λ _. k)
        (λ _.
          Post-proceed host n (Anything host n) Settled (send_bundle b r s) _
            (send_bundle-Post host n b r s k) λ _ s k _. (k, h))
  receive_ack-Post d rs (SendState.sending len r) s h k =
      choose-Post host n Settled (not (d.tid == s.last_tid)) _ _ (λ _. k)
        (λ _.
          choose-Post host n Settled (ltb d.len len) _
            (answer_then host (xfer_ack d) r TransferResult.successful rs s) (λ _. (k, h))
            (λ _. answer_then-Post (xfer_ack d) r TransferResult.successful rs s h k))
  receive_ack-Post d rs SendState.idle s h k = k
  receive_ack-Post d rs SendState.terminated s h k = k

  receive_refuse-Post :
      (d : XferRefuseData) (rs : ReceiveState) (ss : SendState) (s : TcpSession B)
      → Holds n rs
      → Keeps host n s
      → Post host n Settled (receive_refuse host d rs ss s)
  unfolding receive_refuse
  receive_refuse-Post d rs (SendState.transfer_request b r) s h k =
      choose-Post host n Settled (not (d.tid == s.last_tid)) _ _ (λ _. k)
        (λ _. answer_then-Post (xfer_refuse d) r TransferResult.successful rs s h k)
  receive_refuse-Post d rs (SendState.sending len r) s h k =
      choose-Post host n Settled (not (d.tid == s.last_tid)) _ _ (λ _. k)
        (λ _. answer_then-Post (xfer_refuse d) r TransferResult.failure rs s h k)
  receive_refuse-Post d rs SendState.idle s h k = k
  receive_refuse-Post d rs SendState.terminated s h k = k

  pub receive-Post :
      (p : TcpClPacket) (rs : ReceiveState) (ss : SendState) (s : TcpSession B)
      → Holds n rs
      → Keeps host n s
      → Post host n Settled (receive host p (rs, ss) s)
  unfolding receive
  receive-Post (sess_term d) rs ss s h k =
      choose_action-Post host n Settled (not d.flags.reply) _ (pure both_terminated) s
        (Post-proceed host n (Anything host n) Settled (write (termination true d.reason) s) _
          (write-Post host n (termination true d.reason) s k) λ _ s k _. (k, tt))
        (k, tt)
  receive-Post (xfer_seg d) rs ss s h k =
      receive_segment-Post (stop_discarding host rs d.tid) d ss s k
  receive-Post (xfer_ack d) rs ss s h k = receive_ack-Post d rs ss s h k
  receive-Post (xfer_refuse d) rs ss s h k = receive_refuse-Post d rs ss s h k
  receive-Post (contact_header _) rs ss s h k = k
  receive-Post (sess_init _) rs ss s h k = k
  receive-Post keep_alive rs ss s h k = k
  receive-Post (msg_reject _) rs ss s h k = k
