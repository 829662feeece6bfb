-- ===== src/Cla/Tcp/Running/Reception.antt =====
-- A session receives the segments of one bundle.
use mathlib.Core.List.{append_assoc, append-nil}
use dtn7_rs.Prelude.{
  ℕ, ◌+◌, ◌≤◌, ◌≡◌, refl, sym, ap, ◌∙◌, Bool, true, false, List, [], ◌∷◌, ◌++◌, map, length,
  length-append, arith,
}
use dtn7_rs.Cla.Tcp.Proto.{Bytes, XferSegData, XferAckData}
use dtn7_rs.Cla.Tcp.Net.{TcpClPacket, xfer_seg, xfer_ack}
use dtn7_rs.Cla.Tcp.Session.{TcpSession, ReceiveState, SendState, States, Host, ok}
use dtn7_rs.Cla.Tcp.Sending.{no_segment_flags, segment, set_last, set_start, mark_first, mark_last}
use dtn7_rs.Cla.Tcp.Sending.Chunks.{joined}
use dtn7_rs.Cla.Tcp.Receiving.{ack, receive}
use dtn7_rs.Cla.Tcp.Running.{Event, packet, step, run, is_terminated}
use dtn7_rs.Cla.Tcp.Running.Steps.{
  wrote, at, processed, middle_segment, last_segment, first_segment, only_segment,
}

module _ {B : Type 0} (host : Host B) where
  -- A packet that `receive` takes moves the loop on.
  pub step-xfer_seg :
      (d : XferSegData) (s t : TcpSession B) (x y : States) (a b : Bool)
      → is_terminated x ≡ false
      → receive host (xfer_seg d) x s ≡ (ok y, t)
      → step host (packet (xfer_seg d)) (at s x a b) ≡ at t y false false
  unfolding step
  step-xfer_seg d s t x y a b alive e = rw (alive, e) refl

  pub step-xfer_ack :
      (d : XferAckData) (s t : TcpSession B) (x y : States) (a b : Bool)
      → is_terminated x ≡ false
      → receive host (xfer_ack d) x s ≡ (ok y, t)
      → step host (packet (xfer_ack d)) (at s x a b) ≡ at t y false false
  unfolding step
  step-xfer_ack d s t x y a b alive e = rw (alive, e) refl

  abbrev pub packets : List TcpClPacket → List Event
  packets [] = []
  packets (p ∷ ps) = packet p ∷ packets ps

-- The acknowledgements of the chunks behind what has arrived.
abbrev pub acks : ℕ → Bytes → List Bytes → List TcpClPacket
acks tid buf [] = []
acks tid buf (c ∷ cs) = ack no_segment_flags tid (length (buf ++ c)) ∷ acks tid (buf ++ c) cs

-- The acknowledgements of a whole transfer; the first one repeats the flags of its segment.
abbrev pub all_acks : ℕ → List Bytes → List TcpClPacket
all_acks tid [] = []
all_acks tid (c ∷ []) = ack (record { start = true; last = true }) tid (length c) ∷ []
all_acks tid (c ∷ d ∷ cs) =
    ack (record { start = true; last = false }) tid (length c) ∷ acks tid c (d ∷ cs)

module _ {B : Type 0} (host : Host B) (tid : ℕ) (ss : SendState)
    (alive : is_terminated (ReceiveState.idle, ss) ≡ false) where
  busy : (buf : Bytes) → is_terminated (ReceiveState.receiving buf tid, ss) ≡ false
  busy buf = ground (arith, alive)

  pub receive_rest :
      (c : Bytes) (cs : List Bytes) (buf : Bytes) (s : TcpSession B) (a b : Bool)
      → s.writes ≡ []
      → length buf + length (joined (c ∷ cs)) ≤ s.local_session_data.transfer_mru
      → run host
          (packets host (map xfer_seg (mark_last (map (segment tid) (c ∷ cs)))))
          (at s (ReceiveState.receiving buf tid, ss) a b)
        ≡ at
            (processed host (buf ++ joined (c ∷ cs)) tid (wrote (acks tid buf (c ∷ cs)) s))
            (ReceiveState.idle, ss)
            false
            false
  unfolding run
  receive_rest c [] buf s a b quiet small =
      step-xfer_seg host (set_last (segment tid c)) s _ (ReceiveState.receiving buf tid, ss) _ a b
        (busy buf) (last_segment host tid ss s quiet buf c (omega (arith, length-append c [])))
      ∙ ap
          (λ x.
            at (processed host (buf ++ x) tid (wrote (acks tid buf (c ∷ [])) s))
              (ReceiveState.idle, ss) false false)
          (sym (append-nil c))
  receive_rest c (d ∷ ds) buf s a b quiet small =
      let first = ack no_segment_flags tid (length (buf ++ c)) in
      let later = acks tid (buf ++ c) (d ∷ ds) in
      let whole = buf ++ (c ++ joined (d ∷ ds)) in
      let end = λ (x : Bytes) (w : List TcpClPacket).
        at (processed host x tid (record s { written = w })) (ReceiveState.idle, ss) false false in
      ap (run host (packets host (map xfer_seg (mark_last (map (segment tid) (d ∷ ds)))))) (
        step-xfer_seg host (segment tid c) s (wrote (first ∷ []) s)
          (ReceiveState.receiving buf tid, ss) _ a b (busy buf)
          (middle_segment host tid ss s quiet buf c
            (omega (arith, length-append c (joined (d ∷ ds))))))
      ∙ receive_rest d ds (buf ++ c) (wrote (first ∷ []) s) false false quiet
          (omega (arith, length-append c (joined (d ∷ ds)), length-append buf c))
      ∙ ap (λ x. end x ((s.written ++ first ∷ []) ++ later)) (append_assoc buf c (joined (d ∷ ds)))
      ∙ ap (end whole) (append_assoc s.written (first ∷ []) later)

  -- A session without a transfer takes all segments of a bundle that its limit lets in.
  pub receive_transfer :
      (c : Bytes) (cs : List Bytes) (s : TcpSession B) (a b : Bool)
      → s.writes ≡ []
      → length (joined (c ∷ cs)) ≤ s.local_session_data.transfer_mru
      → run host
          (packets host (map xfer_seg (mark_last (mark_first false (map (segment tid) (c ∷ cs))))))
          (at s (ReceiveState.idle, ss) a b)
        ≡ at
            (processed host (joined (c ∷ cs)) tid (wrote (all_acks tid (c ∷ cs)) s))
            (ReceiveState.idle, ss)
            false
            false
  unfolding run
  receive_transfer c [] s a b quiet small =
      step-xfer_seg host (set_last (set_start (segment tid c))) s _ (ReceiveState.idle, ss) _ a b
        alive (only_segment host tid ss s quiet c (omega (arith, length-append c [])))
      ∙ ap
          (λ x.
            at (processed host x tid (wrote (all_acks tid (c ∷ [])) s)) (ReceiveState.idle, ss)
              false false)
          (sym (append-nil c))
  receive_transfer c (d ∷ ds) s a b quiet small =
      let first = ack (record { start = true; last = false }) tid (length c) in
      let later = acks tid c (d ∷ ds) in
      ap (run host (packets host (map xfer_seg (mark_last (map (segment tid) (d ∷ ds)))))) (
        step-xfer_seg host (set_start (segment tid c)) s (wrote (first ∷ []) s)
          (ReceiveState.idle, ss) _ a b alive
          (first_segment host tid ss s quiet c (omega (arith, length-append c (joined (d ∷ ds))))))
      ∙ receive_rest d ds c (wrote (first ∷ []) s) false false quiet
          (omega (arith, length-append c (joined (d ∷ ds))))
      ∙ ap
          (λ w.
            at (processed host (joined (c ∷ d ∷ ds)) tid (record s { written = w }))
              (ReceiveState.idle, ss) false false)
          (append_assoc s.written (first ∷ []) later)
