-- ===== src/Cla/Tcp/Running/Transfer.antt =====
-- Two sessions, one that sends a bundle and one that receives it: the packets of each are given to
-- the other.
use dtn7_rs.Prelude.{
  ℕ, ◌+◌, ◌≤◌, ◌<◌, ◌≡◌, refl, sym, ap, subst, ◌∙◌, true, false, none, some, List, [], ◌∷◌, ◌++◌,
  length, All, arith,
}
use dtn7_rs.Cla.Tcp.Proto.{Bytes, XferRefuseReasonCode}
use dtn7_rs.Cla.Tcp.Net.{TcpClPacket}
use dtn7_rs.Cla.Tcp.Session.{TcpSession, ReceiveState, SendState, States, Response, Host}
use dtn7_rs.Cla.Tcp.Sending.{chunks, next_transfer}
use dtn7_rs.Cla.Tcp.Sending.Chunks.{joined, joined-chunks, chunks-IsChunk, IsChunk}
use dtn7_rs.Cla.Tcp.Receiving.{refusal, receive, receive_refuse, process_bundle, both_terminated}
use dtn7_rs.Cla.Tcp.Running.{packet, queued, Running, step, run}
use dtn7_rs.Cla.Tcp.Running.Steps.{wrote, at, processed, write_lem}
use dtn7_rs.Cla.Tcp.Running.Reception.{packets, all_acks, receive_transfer}
use dtn7_rs.Cla.Tcp.Running.Transmission.{
  segments, chunks-cons, send_lem, all_acks_taken, succeeded,
}

run-append :
    {B : Type 0} (host : Host B) (ps qs : List TcpClPacket) (r : Running B)
    → run host (packets host (ps ++ qs)) r
      ≡ run host (packets host qs) (run host (packets host ps) r)
unfolding run
run-append host [] qs r = refl
run-append host (p ∷ ps) qs r = run-append host ps qs (step host (packet p) r)

-- No transfer is under way in either direction.
abbrev pub both_idle : States
both_idle = (ReceiveState.idle, SendState.idle)

-- Sessions whose writes succeed and whose limits agree, and a bundle within them.
pub record CanTransfer {B : Type 0} (s r : TcpSession B) (bndl : Bytes) (response : Response)
    : Type 0 where
  pub sender_writes : s.writes ≡ []
  pub receiver_writes : r.writes ≡ []
  pub sends_at_once : s.refuse_existing_bundles ≡ false
  pub segment_limit : 0 < s.remote_session_data.segment_mru
  pub agreed : s.remote_session_data.transfer_mru ≡ r.local_session_data.transfer_mru
  pub not_empty : 0 < length bndl
  pub within : length bndl ≤ s.remote_session_data.transfer_mru
  pub listening : response.listening ≡ true

pub All-positive : (n : ℕ) (cs : List Bytes) → All (IsChunk n) cs → All (λ c. 0 < length c) cs
All-positive n [] h = tt
All-positive n (c ∷ cs) h = (h.0.0, All-positive n cs h.1)

module _ {B : Type 0} (sender receiver : Host B) (s r : TcpSession B) (bndl : Bytes)
    (response : Response) (c : CanTransfer s r bndl response) where
  abbrev pub limit : ℕ
  limit = s.remote_session_data.segment_mru

  abbrev pub tid : ℕ
  tid = (next_transfer s).last_tid

  -- The sender behind its last segment.
  abbrev pub sent : TcpSession B
  sent = wrote (segments limit tid bndl) (next_transfer s)

  abbrev pub replies : List TcpClPacket
  replies = all_acks tid (chunks limit bndl)

  processed-some :
      (b : B)
      → receiver.try_from bndl ≡ some b
      → ((processed receiver bndl tid (wrote replies r)).received ≡ r.received ++ b ∷ [])
        × ((processed receiver bndl tid (wrote replies r)).written ≡ r.written ++ replies)
  unfolding process_bundle
  processed-some b h = ground (arith, h)

  sent_lem :
      run sender (queued bndl response ∷ []) (at s both_idle false false)
      ≡ at sent (ReceiveState.idle, SendState.sending (length bndl) response) false false
  sent_lem =
      send_lem sender bndl response s ReceiveState.idle false false refl c.sender_writes
        c.sends_at_once c.not_empty c.within

  received_lem :
      run receiver (packets receiver (segments limit tid bndl)) (at r both_idle false false)
      ≡ at (processed receiver bndl tid (wrote replies r)) both_idle false false
  received_lem =
      let (x, xs, e) = chunks-cons limit bndl c.not_empty in
      let whole : joined (x ∷ xs) ≡ bndl = ap joined (sym e) ∙ joined-chunks limit bndl in
      rw e (
        receive_transfer receiver tid SendState.idle refl x xs r false false c.receiver_writes (
          let n : length (joined (x ∷ xs)) ≡ length bndl = ap length whole in
          omega (arith, c.agreed, c.within))
        ∙ ap
            (λ b.
              at (processed receiver b tid (wrote (all_acks tid (x ∷ xs)) r)) both_idle false false)
            whole)

  confirmed_lem :
      run sender
        (packets sender replies)
        (at sent (ReceiveState.idle, SendState.sending (length bndl) response) false false)
      ≡ at (succeeded response sent) both_idle false false
  confirmed_lem =
      let (x, xs, e) = chunks-cons limit bndl c.not_empty in
      let whole : joined (x ∷ xs) ≡ bndl = ap joined (sym e) ∙ joined-chunks limit bndl in
      let good : All (IsChunk limit) (x ∷ xs) =
        subst (All (IsChunk limit)) e (chunks-IsChunk limit bndl c.segment_limit) in
      subst
        (λ b.
          run sender (packets sender (all_acks tid (chunks limit bndl)))
            (at sent (ReceiveState.idle, SendState.sending (length b) response) false false)
          ≡ at (succeeded response sent) both_idle false false)
        whole
        (subst
          (λ l.
            run sender (packets sender (all_acks tid l)) (
              at sent (ReceiveState.idle, SendState.sending (length (joined (x ∷ xs))) response)
                false false)
            ≡ at (succeeded response sent) both_idle false false)
          (sym e)
          (all_acks_taken sender ReceiveState.idle response sent refl c.listening x xs false false
            (All-positive limit xs good.1)))

  -- The whole exchange about a bundle that decodes as `b`.
  pub record IsDelivered (b : B) : Type 0 where
    pub sends :
        run sender (queued bndl response ∷ []) (at s both_idle false false)
        ≡ at sent (ReceiveState.idle, SendState.sending (length bndl) response) false false
    pub ends_idle :
        (run receiver
          (packets receiver (segments limit tid bndl))
          (at r both_idle false false)).states
        ≡ both_idle
    pub hands_over :
        (run receiver
          (packets receiver (segments limit tid bndl))
          (at r both_idle false false)).session.received
        ≡ r.received ++ b ∷ []
    pub acknowledges :
        (run receiver
          (packets receiver (segments limit tid bndl))
          (at r both_idle false false)).session.written
        ≡ r.written ++ replies
    pub succeeds :
        run sender
          (packets sender replies)
          (at sent (ReceiveState.idle, SendState.sending (length bndl) response) false false)
        ≡ at (succeeded response sent) both_idle false false

  -- A bundle that is queued in an idle session that sends at once, whose writes succeed, and that
  -- is not longer than the transfer limit of the peer: the sender writes its segments and waits;
  -- the receiver, given these segments, ends idle, hands exactly the bundle that its bytes decode
  -- to over to processing, and acknowledges every segment; the sender, given these
  -- acknowledgements, reports success to the task that waits, and is idle again. The limit that
  -- the sender has been told is the one of the receiver, segments may hold at least a byte, the
  -- bundle is not empty, and its bytes decode.
  pub transfer-IsDelivered : (b : B) → receiver.try_from bndl ≡ some b → IsDelivered b
  transfer-IsDelivered b h = record {
    sends = sent_lem;
    ends_idle = ap (λ x. x.states) received_lem;
    hands_over = ap (λ x. x.session.received) received_lem ∙ (processed-some b h).0;
    acknowledges = ap (λ x. x.session.written) received_lem ∙ (processed-some b h).1;
    succeeds = confirmed_lem;
  }

  processed-none :
      receiver.try_from bndl ≡ none
      → ((processed receiver bndl tid (wrote replies r)).received ≡ r.received)
        × ((processed receiver bndl tid (wrote replies r)).broken ≡ r.broken + 1)
        × ((processed receiver bndl tid (wrote replies r)).written
            ≡ (r.written ++ replies) ++ refusal XferRefuseReasonCode.not_acceptable tid ∷ [])
  unfolding process_bundle
  processed-none h = ground (
    arith,
    h,
    write_lem (refusal XferRefuseReasonCode.not_acceptable tid)
        (record (wrote replies r) { broken = r.broken + 1 }) c.receiver_writes,
  )

  late_refusal :
      (t : TcpSession B)
      → run sender
          (packets sender (refusal XferRefuseReasonCode.not_acceptable tid ∷ []))
          (at t both_idle false false)
        ≡ at t both_terminated false false
  unfolding run step receive receive_refuse
  late_refusal t = refl

  -- The whole exchange about a bundle that does not decode.
  pub record IsConfirmedUndelivered : Type 0 where
    pub hands_over_nothing :
        (run receiver
          (packets receiver (segments limit tid bndl))
          (at r both_idle false false)).session.received
        ≡ r.received
    pub counts_broken :
        (run receiver
          (packets receiver (segments limit tid bndl))
          (at r both_idle false false)).session.broken
        ≡ r.broken + 1
    pub refuses_late :
        (run receiver
          (packets receiver (segments limit tid bndl))
          (at r both_idle false false)).session.written
        ≡ (r.written ++ replies) ++ refusal XferRefuseReasonCode.not_acceptable tid ∷ []
    pub succeeds_and_stops :
        run sender
          (packets sender (replies ++ refusal XferRefuseReasonCode.not_acceptable tid ∷ []))
          (at sent (ReceiveState.idle, SendState.sending (length bndl) response) false false)
        ≡ at (succeeded response sent) both_terminated false false

  -- As for a delivered bundle, but the bytes do not decode at the receiver: nothing is handed
  -- over, the bundle counts as broken, and the receiver acknowledges every segment all the same
  -- and refuses the transfer behind that; the sender reports success to the task, and then ends
  -- its session because of the refusal.
  pub unparsable_confirmed : receiver.try_from bndl ≡ none → IsConfirmedUndelivered
  unparsable_confirmed h = record {
    hands_over_nothing = ap (λ x. x.session.received) received_lem ∙ (processed-none h).0;
    counts_broken = ap (λ x. x.session.broken) received_lem ∙ (processed-none h).1;
    refuses_late = ap (λ x. x.session.written) received_lem ∙ (processed-none h).2;
    succeeds_and_stops =
        run-append sender replies _ _
        ∙ ap (run sender (packets sender (refusal XferRefuseReasonCode.not_acceptable tid ∷ [])))
            confirmed_lem
        ∙ late_refusal (succeeded response sent);
  }
