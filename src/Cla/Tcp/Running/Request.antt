-- ===== src/Cla/Tcp/Running/Request.antt =====
-- Two sessions of which the sender asks first whether the receiver has the bundle.
use dtn7_rs.Prelude.{
  ℕ, ◌≤◌, ◌<◌, ◌≡◌, refl, sym, ap, subst, ◌∙◌, ◌&&◌, true, false, some, List, [], ◌∷◌, ◌++◌, map,
  length, All, arith, nat_eq,
}
use dtn7_rs.Cla.Tcp.Proto.{Bytes, XferRefuseReasonCode}
use dtn7_rs.Cla.Tcp.Net.{TcpClPacket, xfer_seg}
use dtn7_rs.Cla.Tcp.Session.{TcpSession, ReceiveState, SendState, Response, Host, answer}
use dtn7_rs.Cla.Tcp.Sending.{
  segment, mark_last, chunks, next_transfer, request_segment, send, send_bundle,
}
use dtn7_rs.Cla.Tcp.Sending.Chunks.{joined, joined-chunks, chunks-IsChunk, IsChunk}
use dtn7_rs.Cla.Tcp.Receiving.{
  refusal, ack, receive, receive_segment, start_transfer, receive_ack, receive_refuse,
  process_bundle, names_known,
}
use dtn7_rs.Cla.Tcp.Running.{packet, queued, step, run}
use dtn7_rs.Cla.Tcp.Running.Steps.{wrote, at, processed, write_lem}
use dtn7_rs.Cla.Tcp.Running.Reception.{packets, acks, receive_rest}
use dtn7_rs.Cla.Tcp.Running.Transmission.{chunks-cons, write_all_lem, acks_taken, succeeded}
use dtn7_rs.Cla.Tcp.Running.Transfer.{both_idle, All-positive}

-- Sessions whose writes succeed and whose limits agree, a bundle within them, and its decoded form.
pub record CanRequest {B : Type 0} (sender : Host B) (s r : TcpSession B) (bndl : Bytes) (b : B)
    (response : Response) : Type 0 where
  pub sender_writes : s.writes ≡ []
  pub receiver_writes : r.writes ≡ []
  pub asks_first : s.refuse_existing_bundles ≡ true
  pub decodes : sender.try_from bndl ≡ some b
  pub segment_limit : 0 < s.remote_session_data.segment_mru
  pub agreed : s.remote_session_data.transfer_mru ≡ r.local_session_data.transfer_mru
  pub not_empty : 0 < length bndl
  pub within : length bndl ≤ s.remote_session_data.transfer_mru
  pub listening : response.listening ≡ true

module _ {B : Type 0} (sender receiver : Host B) (s r : TcpSession B) (bndl : Bytes) (b : B)
    (response : Response) (c : CanRequest sender s r bndl b response) where
  abbrev pub tid : ℕ
  tid = (next_transfer s).last_tid

  abbrev pub request : TcpClPacket
  request = xfer_seg (request_segment tid (sender.id_bytes b))

  -- The sender behind its request.
  abbrev pub asked : TcpSession B
  asked = wrote (request ∷ []) (next_transfer s)

  asked_lem :
      run sender (queued bndl response ∷ []) (at s both_idle false false)
      ≡ at asked (ReceiveState.idle, SendState.transfer_request bndl response) false false
  unfolding run step send
  asked_lem = ground (
    arith,
    c.asks_first,
    c.decodes,
    c.within,
    write_lem request (next_transfer s) c.sender_writes,
  )

  refused_lem :
      r.refuse_existing_bundles
          && names_known receiver (request_segment tid (sender.id_bytes b)).extensions
        ≡ true
      → run receiver (packet request ∷ []) (at r both_idle false false)
        ≡ at (wrote (refusal XferRefuseReasonCode.not_acceptable tid ∷ []) r) both_idle false false
  unfolding run step receive receive_segment start_transfer
  refused_lem h =
      ground
        (arith, h, write_lem (refusal XferRefuseReasonCode.not_acceptable tid) r c.receiver_writes)

  given_up_lem :
      run sender
        (packet (refusal XferRefuseReasonCode.not_acceptable tid) ∷ [])
        (at asked (ReceiveState.idle, SendState.transfer_request bndl response) false false)
      ≡ at (succeeded response asked) both_idle false false
  unfolding run step receive receive_refuse answer
  given_up_lem = ground (arith, c.listening)

  -- The exchange about a bundle that the receiver knows.
  pub record IsRefused : Type 0 where
    pub asks :
        run sender (queued bndl response ∷ []) (at s both_idle false false)
        ≡ at asked (ReceiveState.idle, SendState.transfer_request bndl response) false false
    pub refuses :
        run receiver (packet request ∷ []) (at r both_idle false false)
        ≡ at (wrote (refusal XferRefuseReasonCode.not_acceptable tid ∷ []) r) both_idle false false
    pub gives_up :
        run sender
          (packet (refusal XferRefuseReasonCode.not_acceptable tid) ∷ [])
          (at asked (ReceiveState.idle, SendState.transfer_request bndl response) false false)
        ≡ at (succeeded response asked) both_idle false false

  -- A session that asks first, and a receiver that looks and knows the bundle: the request is
  -- refused, nothing is handed over or sent, and the sender reports success and is idle. The
  -- writes succeed, and the bundle is within the limit and decodes at the sender.
  pub request_refused :
      r.refuse_existing_bundles
          && names_known receiver (request_segment tid (sender.id_bytes b)).extensions
        ≡ true
      → IsRefused
  request_refused h = record { asks = asked_lem; refuses = refused_lem h; gives_up = given_up_lem }

  abbrev pub limit : ℕ
  limit = s.remote_session_data.segment_mru

  -- The segments behind the request, of which the last one is marked.
  abbrev pub rest : List TcpClPacket
  rest = map xfer_seg (mark_last (map (segment tid) (chunks limit bndl)))

  abbrev pub go_ahead : TcpClPacket
  go_ahead = ack (record { start = true; last = false }) tid 0

  abbrev pub sent : TcpSession B
  sent = wrote rest asked

  rest_sent :
      run sender
        (packet go_ahead ∷ [])
        (at asked (ReceiveState.idle, SendState.transfer_request bndl response) false false)
      ≡ at sent (ReceiveState.idle, SendState.sending (length bndl) response) false false
  unfolding run step receive receive_ack send_bundle
  rest_sent =
      let (x, xs, e) = chunks-cons limit bndl c.not_empty in
      ground (
        arith,
        e,
        c.asks_first,
        write_all_lem (mark_last (map (segment tid) (x ∷ xs))) asked c.sender_writes,
      )

  admitted_lem :
      r.refuse_existing_bundles
          && names_known receiver (request_segment tid (sender.id_bytes b)).extensions
        ≡ false
      → run receiver (packet request ∷ []) (at r both_idle false false)
        ≡ at (wrote (go_ahead ∷ []) r) (ReceiveState.receiving [] tid, SendState.idle) false false
  unfolding run step receive receive_segment start_transfer
  admitted_lem h = ground (arith, h, write_lem go_ahead r c.receiver_writes)

  rest_received :
      run receiver
        (packets receiver rest)
        (at (wrote (go_ahead ∷ []) r) (ReceiveState.receiving [] tid, SendState.idle) false false)
      ≡ at
          (processed receiver bndl tid
            (wrote (acks tid [] (chunks limit bndl)) (wrote (go_ahead ∷ []) r)))
          both_idle
          false
          false
  rest_received =
      let (x, xs, e) = chunks-cons limit bndl c.not_empty in
      let whole : joined (x ∷ xs) ≡ bndl = ap joined (sym e) ∙ joined-chunks limit bndl in
      let n : length (joined (x ∷ xs)) ≡ length bndl = ap length whole in
      rw e (
        receive_rest receiver tid SendState.idle refl x xs [] (wrote (go_ahead ∷ []) r) false false
          c.receiver_writes (omega (arith, c.agreed, c.within, n))
        ∙ ap
            (λ l.
              at (processed receiver l tid (wrote (acks tid [] (x ∷ xs)) (wrote (go_ahead ∷ []) r)))
                both_idle false false)
            whole)

  rest_confirmed :
      run sender
        (packets sender (acks tid [] (chunks limit bndl)))
        (at sent (ReceiveState.idle, SendState.sending (length bndl) response) false false)
      ≡ at (succeeded response sent) both_idle false false
  rest_confirmed =
      let (x, xs, e) = chunks-cons limit bndl c.not_empty in
      let whole : joined (x ∷ xs) ≡ bndl = ap joined (sym e) ∙ joined-chunks limit bndl in
      let good : All (IsChunk limit) (x ∷ xs) =
        subst (All (IsChunk limit)) e (chunks-IsChunk limit bndl c.segment_limit) in
      subst
        (λ l.
          run sender (packets sender (acks tid [] (chunks limit bndl)))
            (at sent (ReceiveState.idle, SendState.sending (length l) response) false false)
          ≡ at (succeeded response sent) both_idle false false)
        whole
        (subst
          (λ l.
            run sender (packets sender (acks tid [] l)) (
              at sent (ReceiveState.idle, SendState.sending (length (joined (x ∷ xs))) response)
                false false)
            ≡ at (succeeded response sent) both_idle false false)
          (sym e)
          (acks_taken sender ReceiveState.idle response sent refl c.listening x xs [] false false
            (All-positive limit xs good.1)))

  processed_lem :
      (b' : B) (t : TcpSession B)
      → receiver.try_from bndl ≡ some b'
      → ((processed receiver bndl tid t).received ≡ t.received ++ b' ∷ [])
        × ((processed receiver bndl tid t).written ≡ t.written)
  unfolding process_bundle
  processed_lem b' t h = ground (arith, h)

  -- The exchange about a bundle that the receiver does not know and decodes as `b'`.
  pub record IsDelivered (b' : B) : Type 0 where
    pub admits :
        run receiver (packet request ∷ []) (at r both_idle false false)
        ≡ at (wrote (go_ahead ∷ []) r) (ReceiveState.receiving [] tid, SendState.idle) false false
    pub sends :
        run sender (queued bndl response ∷ packet go_ahead ∷ []) (at s both_idle false false)
        ≡ at sent (ReceiveState.idle, SendState.sending (length bndl) response) false false
    pub ends_idle :
        (run receiver (packets receiver (request ∷ rest)) (at r both_idle false false)).states
        ≡ both_idle
    pub hands_over :
        (run receiver
          (packets receiver (request ∷ rest))
          (at r both_idle false false)).session.received
        ≡ r.received ++ b' ∷ []
    pub acknowledges :
        (run receiver
          (packets receiver (request ∷ rest))
          (at r both_idle false false)).session.written
        ≡ (r.written ++ go_ahead ∷ []) ++ acks tid [] (chunks limit bndl)
    pub succeeds :
        run sender
          (packets sender (acks tid [] (chunks limit bndl)))
          (at sent (ReceiveState.idle, SendState.sending (length bndl) response) false false)
        ≡ at (succeeded response sent) both_idle false false

  -- A session that asks first, and a receiver that does not know the bundle or does not look: the
  -- sender announces the ID of the bundle, the receiver lets it go ahead, the sender writes the
  -- segments, the receiver hands the decoded bundle over, acknowledges and is idle, and the
  -- sender reports success and is idle. The writes succeed, the limits agree, and the bundle is
  -- not empty, within them, and decodes on both sides.
  pub request-IsDelivered :
      (b' : B)
      → receiver.try_from bndl ≡ some b'
      → r.refuse_existing_bundles
          && names_known receiver (request_segment tid (sender.id_bytes b)).extensions
        ≡ false
      → IsDelivered b'
  unfolding run
  request-IsDelivered b' h new =
      let arrived = ap (run receiver (packets receiver rest)) (admitted_lem new) ∙ rest_received in
      let done =
        processed_lem b' (wrote (acks tid [] (chunks limit bndl)) (wrote (go_ahead ∷ []) r)) h in
      record {
        admits = admitted_lem new;
        sends = ap (run sender (packet go_ahead ∷ [])) asked_lem ∙ rest_sent;
        ends_idle = ap (λ x. x.states) arrived;
        hands_over = ap (λ x. x.session.received) arrived ∙ done.0;
        acknowledges = ap (λ x. x.session.written) arrived ∙ done.1;
        succeeds = rest_confirmed;
      }
