-- ===== src/Cla/Tcp/Connection.antt =====
-- Setting up a session: `TcpConnection` in core/dtn7/src/cla/tcp/mod.rs. What the peer sends is a
-- stream of bytes; what is written to it, is recorded.
pub mod Handshake
use Prim.Native.Nat.{min}
use dtn7_rs.Prelude.{
  ℕ, ◌+◌, String, not, ◌&&◌, Bool, true, false, Option, none, some, List, [], ◌∷◌, ◌++◌, ltb, ◌==◌,
  nat_eq, if◌then◌else◌,
}
use dtn7_rs.Cla.Tcp.Proto.{Bytes, SessInitData, ContactHeaderFlags, lowest_bit}
use dtn7_rs.Cla.Tcp.Wire.{
  Wire, Parsed, ok, fail, Read, read_u8, TcpClError, invalid_magic, unsupported_version,
  unexpected_packet, proceed, ◌>>=◌, pure, bail_if,
}
use dtn7_rs.Cla.Tcp.Net
use dtn7_rs.Cla.Tcp.Net.{TcpClPacket, contact_header, sess_init, segment_mru, read}
use dtn7_rs.Cla.Tcp.Session.{TcpSession}

abbrev pub keepalive : ℕ
keepalive = 30

-- `TcpConnection` without its streams, and the node ID of this host from the configuration.
pub record TcpConnection : Type 0 where
  pub addr : String
  pub refuse_existing_bundles : Bool
  pub transfer_mru : ℕ
  pub host_node_id : Bytes

-- `EndpointID::try_from`, `EndpointID::node` and `peers_known`, over the type `E` of endpoint IDs.
pub record Naming (E : Type 0) : Type 0 where
  pub eid_try_from : Bytes → Option E
  pub node : E → Option String
  pub peers_known : String → Bool

-- Why no session came about.
pub data ConnectError : Type 0 where
  not_read : TcpClError → ConnectError
  zero_segment_mru : ConnectError
  invalid_node_id : ConnectError
  no_node_name : ConnectError

-- The session, the peer that was added for it, and the bytes behind the negotiation.
pub record Established (B E : Type 0) : Type 0 where
  pub session : TcpSession B
  pub added : Option E
  pub unread : Bytes

pub data Outcome (A : Type 0) : Type 0 where
  established : A → Outcome A
  refused : ConnectError → Outcome A

abbrev pub bind : {A C : Type 0} → Outcome A → (A → Outcome C) → Outcome C
bind (established a) f = f a
bind (refused e) f = refused e

-- What this side announces.
abbrev pub announced : TcpConnection → SessInitData
announced c = record {
  keepalive = keepalive;
  segment_mru = segment_mru;
  transfer_mru = c.transfer_mru;
  node_id = c.host_node_id;
}

-- What this side writes before the session starts: `send_contact_header`, and the first packet of
-- `negotiate_session`.
abbrev pub hello : TcpConnection → List TcpClPacket
hello c = contact_header (record { can_tls = false }) ∷ sess_init (announced c) ∷ []

-- The six bytes are read at once.
unfoldable pub receive_contact_header : Read ContactHeaderFlags
receive_contact_header = do
  d ← read_u8
  t ← read_u8
  n ← read_u8
  mark ← read_u8
  version ← read_u8
  flags ← read_u8
  _ ← bail_if (not (d == b'd' && (t == b't' && (n == b'n' && mark == b'!')))) invalid_magic
  _ ← bail_if (not (version == 4)) unsupported_version
  pure (record { can_tls = lowest_bit flags })

-- The parameters of both sides, with the smaller of the two keepalive intervals.
abbrev pub agree : SessInitData → SessInitData → Outcome (SessInitData × SessInitData)
agree ours theirs =
    if theirs.segment_mru == 0
    then refused zero_segment_mru
    else established (
      record ours { keepalive = min ours.keepalive theirs.keepalive },
      record theirs { keepalive = min ours.keepalive theirs.keepalive },
    )

abbrev pub expect_sess_init : SessInitData → TcpClPacket → Outcome (SessInitData × SessInitData)
expect_sess_init ours (sess_init theirs) = agree ours theirs
expect_sess_init ours _ = refused (not_read unexpected_packet)

unfoldable pub negotiate_session :
    TcpConnection → Parsed TcpClPacket → Outcome ((SessInitData × SessInitData) × Bytes)
negotiate_session c (ok p rest) =
    bind (expect_sess_init (announced c) p) (λ both. established (both, rest))
negotiate_session c (fail e) = refused (not_read e)

module _ {E : Type 0} (B : Type 0) (names : Naming E) where
  abbrev remote_node : Option E → Outcome (E × String)
  remote_node none = refused invalid_node_id
  remote_node (some eid) = elim (names.node eid) [
    | none ↦ refused no_node_name
    | some node ↦ established (eid, node)
  ]

  -- `TcpSession { .. }`
  abbrev pub new_session : TcpConnection → SessInitData → SessInitData → TcpSession B
  new_session c ours theirs = record {
    addr = c.addr;
    refuse_existing_bundles = c.refuse_existing_bundles;
    remote_session_data = theirs;
    local_session_data = ours;
    last_tid = 0;
    written = [];
    writes = [];
    answers = [];
    received = [];
    touched = [];
    broken = 0;
  }

  abbrev finish_connect :
      TcpConnection
      → Bool
      → (SessInitData × SessInitData) × Bytes
      → E × String
      → Outcome (Established B E)
  finish_connect c active ((ours, theirs), rest) (eid, node) = established (record {
    session = new_session c ours theirs;
    added = if not active && not (names.peers_known node) then some eid else none;
    unread = rest;
  })

  abbrev continue_connect :
      Wire → TcpConnection → Bool → Parsed ContactHeaderFlags → Outcome (Established B E)
  continue_connect w c active (ok flags rest) = bind (negotiate_session c (read w rest)) (λ params.
      bind (remote_node (names.eid_try_from params.0.1.node_id)) (finish_connect c active params))
  continue_connect w c active (fail e) = refused (not_read e)

  -- `connect`, up to the loop of the session.
  unfoldable pub connect : Wire → TcpConnection → Bool → Bytes → Outcome (Established B E)
  connect w c active input = continue_connect w c active (receive_contact_header input)
