-- ===== src/Cla/Tcp/Running/Invariant.antt =====
-- What the loop of a session keeps, whatever the environment does.
use dtn7_rs.Prelude.{ℕ, not, Bool, true, false, List, [], ◌∷◌, ltb, if◌then◌else◌}
use dtn7_rs.Cla.Tcp.Proto.{SessTermReasonCode}
use dtn7_rs.Cla.Tcp.Net.{
  TcpClPacket, contact_header, sess_init, xfer_seg, xfer_ack, xfer_refuse, sess_term, keep_alive,
  msg_reject,
}
use dtn7_rs.Cla.Tcp.Session.{
  TcpSession, ReceiveState, SendState, States, Host, Result, ok, err, write,
}
use dtn7_rs.Cla.Tcp.Sending.{send}
use dtn7_rs.Cla.Tcp.Receiving.{receive, termination}
use dtn7_rs.Cla.Tcp.Running.{
  Event, packet, unparsable, reader_stopped, queued, queue_closed, slept, Running, is_terminated,
  is_idle, written, send_keepalive, terminate_session, outcome, send_outcome, now, on_keepalive,
  give_up, on_sleep, round, step, run,
}
use dtn7_rs.Cla.Tcp.Running.Bounds.{Keeps, Holds, Post, Anything, write-Post, send-Post}
use dtn7_rs.Cla.Tcp.Running.Within.{Settled, receive-Post}

-- Every bundle that was handed over and every transfer under way is within the announced limit.
pub record IsBounded {B : Type 0} (host : Host B) (n : ℕ) (r : Running B) : Type 0 where
  pub keeps : Keeps host n r.session
  pub holds : Holds n r.states.0

module _ {B : Type 0} (host : Host B) (n : ℕ) where
  -- The same of a state of the loop that is not yet put together.
  abbrev Both : States × TcpSession B → Type 0
  Both (states, s) = Keeps host n s × Holds n states.0

  IsBounded-now : (x : States × TcpSession B) (a b : Bool) → Both x → IsBounded host n (now x a b)
  IsBounded-now (states, s) a b h = record { keeps = h.0; holds = h.1 }

  written-Both :
      (r : Result (Unit {0}) × TcpSession B) (states : States)
      → Post host n (Anything host n) r
      → Holds n states.0
      → Both (written r states)
  written-Both (ok _, s) states p h = (p.0, h)
  written-Both (err _, s) states p h = (p, tt)

  send_keepalive-Both :
      (states : States) (s : TcpSession B)
      → Keeps host n s
      → Holds n states.0
      → Both (send_keepalive states s)
  send_keepalive-Both states s k h =
      written-Both (write keep_alive s) states (write-Post host n keep_alive s k) h

  terminate_session-Both :
      (reason : SessTermReasonCode) (s : TcpSession B)
      → Keeps host n s
      → Both (terminate_session reason s)
  unfolding terminate_session
  terminate_session-Both reason s k = (
    kept (write (termination false reason) s) (write-Post host n (termination false reason) s k),
    tt,
  )
    where
      kept :
          (r : Result (Unit {0}) × TcpSession B)
          → Post host n (Anything host n) r
          → Keeps host n r.1
      kept (ok _, s) p = p.0
      kept (err _, s) p = p

  outcome-Both :
      (r : Result States × TcpSession B) → Post host n (Settled host n) r → Both (outcome r)
  outcome-Both (ok states, s) p = p
  outcome-Both (err _, s) p = (p, tt)

  send_outcome-Both :
      (rs : ReceiveState) (r : Result SendState × TcpSession B)
      → Holds n rs
      → Post host n (Anything host n) r
      → Both (send_outcome rs r)
  send_outcome-Both rs (ok _, s) h p = (p.0, h)
  send_outcome-Both rs (err _, s) h p = (p, tt)

  choose-IsBounded :
      (b : Bool) (x y : Running B)
      → IsBounded host n x
      → IsBounded host n y
      → IsBounded host n (if b then x else y)
  choose-IsBounded true x y h k = h
  choose-IsBounded false x y h k = k

  on_keepalive-IsBounded : (r : Running B) → IsBounded host n r → IsBounded host n (on_keepalive r)
  unfolding on_keepalive
  on_keepalive-IsBounded r h =
      choose-IsBounded (not r.keepalive_sent) _ _
        (IsBounded-now (send_keepalive r.states r.session) true true
          (send_keepalive-Both r.states r.session h.keeps h.holds))
        (IsBounded-now (r.states, r.session) false true (h.keeps, h.holds))

  received-IsBounded :
      (p : TcpClPacket) (r : Running B)
      → IsBounded host n r
      → IsBounded host n (now (outcome (receive host p r.states r.session)) false false)
  received-IsBounded p r h =
      IsBounded-now (outcome (receive host p r.states r.session)) false false (
        outcome-Both (receive host p r.states r.session)
          (receive-Post host n p r.states.0 r.states.1 r.session h.holds h.keeps))

  give_up-IsBounded :
      (b : Bool) (x : States × TcpSession B) → Both x → IsBounded host n (give_up b x)
  give_up-IsBounded b (states, s) h =
      choose-IsBounded (not b) _ _
        (IsBounded-now (terminate_session SessTermReasonCode.idle_timeout s) true b
          (terminate_session-Both SessTermReasonCode.idle_timeout s h.0))
        (IsBounded-now (states, s) true b h)

  on_sleep-IsBounded : (r : Running B) → IsBounded host n r → IsBounded host n (on_sleep r)
  unfolding on_sleep
  on_sleep-IsBounded r h =
      choose-IsBounded (not r.keepalive_sent) _ _
        (give_up-IsBounded r.keepalive_received (send_keepalive r.states r.session)
          (send_keepalive-Both r.states r.session h.keeps h.holds))
        (give_up-IsBounded r.keepalive_received (r.states, r.session) (h.keeps, h.holds))

  round-IsBounded :
      (e : Event) (r : Running B) → IsBounded host n r → IsBounded host n (round host e r)
  round-IsBounded (packet keep_alive) r h = on_keepalive-IsBounded r h
  round-IsBounded (packet (contact_header f)) r h = received-IsBounded (contact_header f) r h
  round-IsBounded (packet (sess_init d)) r h = received-IsBounded (sess_init d) r h
  round-IsBounded (packet (sess_term d)) r h = received-IsBounded (sess_term d) r h
  round-IsBounded (packet (xfer_seg d)) r h = received-IsBounded (xfer_seg d) r h
  round-IsBounded (packet (xfer_ack d)) r h = received-IsBounded (xfer_ack d) r h
  round-IsBounded (packet (xfer_refuse d)) r h = received-IsBounded (xfer_refuse d) r h
  round-IsBounded (packet (msg_reject d)) r h = received-IsBounded (msg_reject d) r h
  round-IsBounded unparsable r h = record { keeps = h.keeps; holds = tt }
  round-IsBounded reader_stopped r h = record { keeps = h.keeps; holds = tt }
  round-IsBounded (queued b response) r h =
      choose-IsBounded (is_idle r.states.1) _ r
        (IsBounded-now (send_outcome r.states.0 (send host b response r.session)) false false (
          send_outcome-Both r.states.0 (send host b response r.session) h.holds
            (send-Post host n b response r.session h.keeps)))
        h
  round-IsBounded queue_closed r h =
      choose-IsBounded (is_idle r.states.1) _ r
        (IsBounded-now (terminate_session SessTermReasonCode.unknown r.session) false false
          (terminate_session-Both SessTermReasonCode.unknown r.session h.keeps))
        h
  round-IsBounded slept r h =
      choose-IsBounded (ltb 0 r.session.remote_session_data.keepalive) _ r (on_sleep-IsBounded r h)
        h

  -- Whatever packets come in, bundles are queued, timers run out and writes fail: the bytes of a
  -- transfer under way never exceed the transfer limit that this side announced, and every bundle
  -- that was handed over to processing was decoded from at most that many bytes, if it was so
  -- before.
  pub run-IsBounded :
      (es : List Event) (r : Running B) → IsBounded host n r → IsBounded host n (run host es r)
  unfolding run step
  run-IsBounded [] r h = h
  run-IsBounded (e ∷ es) r h =
      run-IsBounded es (step host e r)
        (choose-IsBounded (is_terminated r.states) r (round host e r) h (round-IsBounded e r h))
