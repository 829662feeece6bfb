-- ===== src/Cla/Tcp/Running/Transmission.antt =====
-- A session sends the segments of one bundle and takes their acknowledgements.
use mathlib.Core.List.{append_assoc, append-nil}
use dtn7_rs.Prelude.{
  ℕ, ◌≤◌, ◌<◌, ◌≡◌, refl, sym, ap, subst, ◌∙◌, Bool, true, false, List, [], ◌∷◌, ◌++◌, map, length,
  All, length-append, arith,
}
use dtn7_rs.Cla.Tcp.Proto.{Bytes, XferSegData}
use dtn7_rs.Cla.Tcp.Net.{TcpClPacket, xfer_seg}
use dtn7_rs.Cla.Tcp.Session.{TcpSession, ReceiveState, SendState, Response, Host, ok, successful}
use dtn7_rs.Cla.Tcp.Sending.{
  no_segment_flags, segment, mark_first, mark_last, chunks, write_all, send_bundle, send,
  next_transfer,
}
use dtn7_rs.Cla.Tcp.Sending.Chunks.{joined, joined-chunks}
use dtn7_rs.Cla.Tcp.Running.{queued, step, run, is_terminated}
use dtn7_rs.Cla.Tcp.Running.Steps.{wrote, at, write_lem, partial_ack, full_ack}
use dtn7_rs.Cla.Tcp.Running.Reception.{packets, acks, all_acks, step-xfer_ack}

-- The segments of a bundle, cut to what the peer accepts.
abbrev pub segments : ℕ → ℕ → Bytes → List TcpClPacket
segments n tid bndl =
    map xfer_seg (mark_last (mark_first false (map (segment tid) (chunks n bndl))))

pub chunks-cons :
    (n : ℕ) (bndl : Bytes)
    → 0 < length bndl
    → (c : Bytes) × (cs : List Bytes) × (chunks n bndl ≡ c ∷ cs)
chunks-cons n bndl h = split (chunks n bndl) (joined-chunks n bndl)
  where
    split : (l : List Bytes) → joined l ≡ bndl → (c : Bytes) × (cs : List Bytes) × (l ≡ c ∷ cs)
    split [] e = absurd (let z : length bndl ≡ 0 = ap length (sym e) in omega arith)
    split (c ∷ cs) e = (c, cs, refl)

module _ {B : Type 0} where
  pub write_all_lem :
      (ds : List XferSegData) (s : TcpSession B)
      → s.writes ≡ []
      → write_all ds s ≡ (ok tt, wrote (map xfer_seg ds) s)
  unfolding write_all
  write_all_lem [] s quiet =
      ap (λ w. (ok tt, record s { written = w })) (sym (append-nil s.written))
  write_all_lem (d ∷ ds) s quiet = rw (write_lem (xfer_seg d) s quiet) (
      write_all_lem ds (wrote (xfer_seg d ∷ []) s) quiet
      ∙ ap (λ w. (ok tt, record s { written = w }))
          (append_assoc s.written (xfer_seg d ∷ []) (map xfer_seg ds)))

  send_bundle_lem :
      (bndl : Bytes) (response : Response) (s : TcpSession B)
      → s.writes ≡ []
      → s.refuse_existing_bundles ≡ false
      → 0 < length bndl
      → send_bundle bndl response s ≡ (
        ok (SendState.sending (length bndl) response),
        wrote (segments s.remote_session_data.segment_mru s.last_tid bndl) s,
      )
  unfolding send_bundle
  send_bundle_lem bndl response s quiet plain h =
      let n = s.remote_session_data.segment_mru in
      let (c, cs, e) = chunks-cons n bndl h in
      ground (
        arith,
        e,
        plain,
        write_all_lem (mark_last (mark_first false (map (segment s.last_tid) (c ∷ cs)))) s quiet,
      )

  pub send_lem :
      (host : Host B) (bndl : Bytes) (response : Response) (s : TcpSession B) (rs : ReceiveState)
      (a b : Bool)
      → is_terminated (rs, SendState.idle) ≡ false
      → s.writes ≡ []
      → s.refuse_existing_bundles ≡ false
      → 0 < length bndl
      → length bndl ≤ s.remote_session_data.transfer_mru
      → run host (queued bndl response ∷ []) (at s (rs, SendState.idle) a b)
        ≡ at
            (wrote
              (segments s.remote_session_data.segment_mru (next_transfer s).last_tid bndl)
              (next_transfer s))
            (rs, SendState.sending (length bndl) response)
            false
            false
  unfolding run step send
  send_lem host bndl response s rs a b alive quiet plain h small =
      ground (arith, alive, plain, send_bundle_lem bndl response (next_transfer s) quiet plain h)

-- The session after the task was told of the success.
abbrev pub succeeded : {B : Type 0} → Response → TcpSession B → TcpSession B
succeeded response s = record s { answers = s.answers ++ (response.task, successful) ∷ [] }

module _ {B : Type 0} (host : Host B) (rs : ReceiveState) (response : Response) (s : TcpSession B)
    (alive : is_terminated (rs, SendState.idle) ≡ false)
    (listening : response.listening ≡ true) where
  busy : (len : ℕ) → is_terminated (rs, SendState.sending len response) ≡ false
  busy len = ground (arith, alive)

  pub acks_taken :
      (c : Bytes) (cs : List Bytes) (buf : Bytes) (a b : Bool)
      → All (λ c. 0 < length c) cs
      → run host
          (packets host (acks s.last_tid buf (c ∷ cs)))
          (at s (rs, SendState.sending (length (buf ++ joined (c ∷ cs))) response) a b)
        ≡ at (succeeded response s) (rs, SendState.idle) false false
  unfolding run
  acks_taken c [] buf a b h =
      step-xfer_ack host _ s (succeeded response s)
        (rs, SendState.sending (length (buf ++ joined (c ∷ []))) response) (rs, SendState.idle) a b
        (busy _)
        (full_ack host rs response s no_segment_flags (length (buf ++ c)) _
          (omega (arith, length-append buf (c ++ []), length-append buf c, length-append c []))
          listening)
  acks_taken c (d ∷ ds) buf a b h =
      let total = length (buf ++ joined (c ∷ d ∷ ds)) in
      ap (run host (packets host (acks s.last_tid (buf ++ c) (d ∷ ds)))) (
        step-xfer_ack host _ s s (rs, SendState.sending total response)
          (rs, SendState.sending total response) a b (busy _)
          (partial_ack host rs response s no_segment_flags (length (buf ++ c)) total (
            omega (
              arith,
              length-append buf (c ++ (d ++ joined ds)),
              length-append buf c,
              length-append c (d ++ joined ds),
              length-append d (joined ds),
              h.0,
            ))))
      ∙ subst
          (λ n.
            run host (packets host (acks s.last_tid (buf ++ c) (d ∷ ds)))
              (at s (rs, SendState.sending n response) false false)
            ≡ at (succeeded response s) (rs, SendState.idle) false false)
          (ap length (append_assoc buf c (joined (d ∷ ds))))
          (acks_taken d ds (buf ++ c) false false h.1)

  pub all_acks_taken :
      (c : Bytes) (cs : List Bytes) (a b : Bool)
      → All (λ c. 0 < length c) cs
      → run host
          (packets host (all_acks s.last_tid (c ∷ cs)))
          (at s (rs, SendState.sending (length (joined (c ∷ cs))) response) a b)
        ≡ at (succeeded response s) (rs, SendState.idle) false false
  unfolding run
  all_acks_taken c [] a b h =
      step-xfer_ack host _ s (succeeded response s)
        (rs, SendState.sending (length (joined (c ∷ []))) response) (rs, SendState.idle) a b
        (busy _)
        (full_ack host rs response s (record { start = true; last = true }) (length c) _
          (omega (arith, length-append c [])) listening)
  all_acks_taken c (d ∷ ds) a b h =
      let total = length (joined (c ∷ d ∷ ds)) in
      ap (run host (packets host (acks s.last_tid c (d ∷ ds)))) (
        step-xfer_ack host _ s s (rs, SendState.sending total response)
          (rs, SendState.sending total response) a b (busy _)
          (partial_ack host rs response s (record { start = true; last = false }) (length c) total
            (omega (arith, length-append c (d ++ joined ds), length-append d (joined ds), h.0))))
      ∙ acks_taken d ds c false false h.1
