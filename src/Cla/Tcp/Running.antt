-- ===== src/Cla/Tcp/Running.antt =====
-- The loop of a session, `run` and `terminate_session` in core/dtn7/src/cla/tcp/mod.rs: one event of
-- the `select!` after the other. Which of the events that are ready is taken is the environment's
-- choice.
pub mod Steps
pub mod Reception
pub mod Transmission
pub mod Transfer
pub mod Bounds
pub mod Within
pub mod Invariant
pub mod Request
use dtn7_rs.Prelude.{
  ℕ, zero, String, Bool, true, false, not, ◌&&◌, ◌||◌, Option, none, some, List, [], ◌∷◌, ltb,
  if◌then◌else◌,
}
use dtn7_rs.Cla.Tcp.Proto
use dtn7_rs.Cla.Tcp.Proto.{Bytes, SessTermReasonCode}
use dtn7_rs.Cla.Tcp.Net.{TcpClPacket, keep_alive}
use dtn7_rs.Cla.Tcp.Session
use dtn7_rs.Cla.Tcp.Session.{
  TcpSession, ReceiveState, SendState, States, Response, Host, Action, Result, ok, err, write,
}
use dtn7_rs.Cla.Tcp.Sending.{send}
use dtn7_rs.Cla.Tcp.Receiving.{receive, termination, both_terminated}

-- What a branch of the `select!` yields.
pub data Event : Type 0 where
  packet : TcpClPacket → Event
  unparsable : Event
  reader_stopped : Event
  queued : Bytes → Response → Event
  queue_closed : Event
  slept : Event

-- The variables of the loop.
pub record Running (B : Type 0) : Type 0 where
  pub session : TcpSession B
  pub states : States
  pub keepalive_sent : Bool
  pub keepalive_received : Bool

abbrev pub is_terminated : States → Bool
is_terminated (_, SendState.terminated) = true
is_terminated (ReceiveState.terminated, _) = true
is_terminated _ = false

abbrev pub is_idle : SendState → Bool
is_idle SendState.idle = true
is_idle _ = false

module _ {B : Type 0} where
  -- `write` whose failure ends the session
  abbrev pub written : Result (Unit {0}) × TcpSession B → States → States × TcpSession B
  written (ok _, s) states = (states, s)
  written (err _, s) states = (both_terminated, s)

  abbrev pub send_keepalive : States → TcpSession B → States × TcpSession B
  send_keepalive states s = written (write keep_alive s) states

  -- `terminate_session`, where a failure to write is logged
  unfoldable pub terminate_session : SessTermReasonCode → TcpSession B → States × TcpSession B
  terminate_session reason s = (both_terminated, (write (termination false reason) s).1)

  abbrev pub outcome : Result States × TcpSession B → States × TcpSession B
  outcome (ok states, s) = (states, s)
  outcome (err _, s) = (both_terminated, s)

  abbrev pub send_outcome : ReceiveState → Result SendState × TcpSession B → States × TcpSession B
  send_outcome receive_state (ok send_state, s) = ((receive_state, send_state), s)
  send_outcome receive_state (err _, s) = (both_terminated, s)

  abbrev pub now : States × TcpSession B → Bool → Bool → Running B
  now (states, s) sent received = record {
    session = s;
    states = states;
    keepalive_sent = sent;
    keepalive_received = received;
  }

  abbrev pub stopped : Running B → Running B
  stopped r = record r { states = both_terminated }

  unfoldable pub on_keepalive : Running B → Running B
  on_keepalive r =
      if not r.keepalive_sent
      then now (send_keepalive r.states r.session) true true
      else now (r.states, r.session) false true

  abbrev pub on_packet : Host B → TcpClPacket → Running B → Running B
  on_packet host keep_alive r = on_keepalive r
  on_packet host p r = now (outcome (receive host p r.states r.session)) false false

  -- The second `if` of the branch, which sees what the first one did.
  abbrev pub give_up : Bool → States × TcpSession B → Running B
  give_up received (states, s) =
      if not received
      then now (terminate_session SessTermReasonCode.idle_timeout s) true received
      else now (states, s) true received

  unfoldable pub on_sleep : Running B → Running B
  on_sleep r =
      if not r.keepalive_sent
      then give_up r.keepalive_received (send_keepalive r.states r.session)
      else give_up r.keepalive_received (r.states, r.session)

  -- One round; a branch that the loop has disabled is not taken.
  abbrev pub round : Host B → Event → Running B → Running B
  round host (packet p) r = on_packet host p r
  round host unparsable r = stopped r
  round host reader_stopped r = stopped r
  round host (queued bndl_buf response) r =
      if is_idle r.states.1
      then now (send_outcome r.states.0 (send host bndl_buf response r.session)) false false
      else r
  round host queue_closed r =
      if is_idle r.states.1
      then now (terminate_session SessTermReasonCode.unknown r.session) false false
      else r
  round host slept r = if ltb 0 r.session.remote_session_data.keepalive then on_sleep r else r

  -- The loop ends at its head, when one of the states is `Terminated`.
  unfoldable pub step : Host B → Event → Running B → Running B
  step host e r = if is_terminated r.states then r else round host e r

  unfoldable pub run : Host B → List Event → Running B → Running B
  run host [] r = r
  run host (e ∷ es) r = run host es (step host e r)
