-- ===== src/Cla/Tcp/Session.antt =====
-- An established session of the TCP convergence layer, `TcpSession` and its states in
-- core/dtn7/src/cla/tcp/mod.rs, and the actions on it. A write, an answer to the task that queued a
-- bundle, and the start of `processing::receive` are recorded in the session.
use dtn7_rs.Prelude.{ℕ, String, Bool, true, false, Option, List, [], ◌∷◌, ◌++◌}
use dtn7_rs.Cla.Tcp.Proto.{Bytes, SessInitData}
use dtn7_rs.Cla.Tcp.Net.{TcpClPacket}

pub data TransferResult : Type 0 where
  successful failure : TransferResult

-- `oneshot::Sender<TransferResult>`: whose answer it is, and whether somebody still waits for it.
pub record Response : Type 0 where
  pub task : ℕ
  pub listening : Bool

pub data ReceiveState : Type 0 where
  idle : ReceiveState
  receiving : Bytes → ℕ → ReceiveState
  discarding : ℕ → ReceiveState
  terminated : ReceiveState

pub data SendState : Type 0 where
  idle : SendState
  sending : ℕ → Response → SendState
  transfer_request : Bytes → Response → SendState
  terminated : SendState

abbrev pub States : Type 0
States = ReceiveState × SendState

-- What the session calls elsewhere, over the type `B` of bundles: `Bundle::try_from`,
-- `Bundle::id().as_bytes()`, `String::from_utf8`, the node name of an endpoint ID, and
-- `STORE.is_known`.
pub record Host (B : Type 0) : Type 0 where
  pub try_from : Bytes → Option B
  pub id_bytes : B → Bytes
  pub from_utf8 : Bytes → Option String
  pub node_of : Bytes → Option String
  pub is_known : String → Bool

-- `writes` are the outcomes of the writes to come; behind its end every write succeeds. `received`
-- holds the bundles for which `processing::receive` was spawned, `touched` the peers whose contact
-- was refreshed, and `broken` is the counter of the statistics.
pub record TcpSession (B : Type 0) : Type 0 where
  pub addr : String
  pub refuse_existing_bundles : Bool
  pub remote_session_data : SessInitData
  pub local_session_data : SessInitData
  pub last_tid : ℕ
  pub written : List TcpClPacket
  pub writes : List Bool
  pub answers : List (ℕ × TransferResult)
  pub received : List B
  pub touched : List String
  pub broken : ℕ

-- `TcpSessionError::Protocol`, an error of the writer, a dropped receiver, a bundle that does not
-- decode.
pub data SessionError : Type 0 where
  protocol : TcpClPacket → SessionError
  write_error : SessionError
  response_error : SessionError
  bundle_error : SessionError

pub data Result (A : Type 0) : Type 0 where
  ok : A → Result A
  err : SessionError → Result A

-- What was done before an error stays done.
abbrev pub Action : Type 0 → Type 0 → Type 0
Action B A = TcpSession B → Result A × TcpSession B

module _ {B : Type 0} where
  abbrev pub pure : {A : Type 0} → A → Action B A
  pure a s = (ok a, s)

  abbrev pub bail : {A : Type 0} → SessionError → Action B A
  bail e s = (err e, s)

  abbrev pub proceed :
      {A C : Type 0} → Result A × TcpSession B → (A → Action B C) → Result C × TcpSession B
  proceed (ok a, s) f = f a s
  proceed (err e, s) f = (err e, s)

  infixl 5 ◌>>=◌
  abbrev pub ◌>>=◌ : {A C : Type 0} → Action B A → (A → Action B C) → Action B C
  ◌>>=◌ m f s = proceed (m s) f

  abbrev write_outcome : TcpClPacket → List Bool → Action B (Unit {0})
  write_outcome p [] s = (ok tt, record s { written = s.written ++ p ∷ [] })
  write_outcome p (true ∷ outcomes) s =
      (ok tt, record s { written = s.written ++ p ∷ []; writes = outcomes })
  write_outcome p (false ∷ outcomes) s = (err write_error, record s { writes = outcomes })

  -- `packet.write(&mut self.writer)`
  unfoldable pub write : TcpClPacket → Action B (Unit {0})
  write p s = write_outcome p s.writes s

  abbrev answered : Response → TransferResult → Bool → Action B Bool
  answered r result true s = (ok true, record s { answers = s.answers ++ (r.task, result) ∷ [] })
  answered r result false s = (ok false, s)

  -- `response.send(result).is_ok()`
  unfoldable pub answer : Response → TransferResult → Action B Bool
  answer r result s = answered r result r.listening s
