-- ===== src/Tests/Tcp.antt =====
-- Runs of the TCP convergence layer: core/dtn7/src/cla/tcp/.
use dtn7_rs.Prelude.{
  ◌<◌, ◌≤◌, ◌≡◌, refl, String, Bool, true, false, Option, none, some, [], ◌∷◌, ◌++◌, length, arith,
  if◌then◌else◌, ◌==◌, nat_eq,
}
use dtn7_rs.Cla.Tcp.Proto.{Bytes, TransferExtensionItemType}
use dtn7_rs.Cla.Tcp.Wire.{ok}
use dtn7_rs.Cla.Tcp.Ends.{Ends}
use dtn7_rs.Cla.Tcp.Net
use dtn7_rs.Cla.Tcp.Net.{TcpClPacket, xfer_seg, read}
use dtn7_rs.Cla.Tcp.Net.RoundTrip.{read-write}
use dtn7_rs.Cla.Tcp.Net.Rest.{LeavesRest}
use dtn7_rs.Cla.Tcp.Net.Totality.{IsRead, read-Ends}
use dtn7_rs.Cla.Tcp.Session.{TcpSession, Host, Response}
use dtn7_rs.Cla.Tcp.Running.Transfer
use dtn7_rs.Cla.Tcp.Running.Request
use dtn7_rs.Cla.Tcp.Running.{Running, queued, packet, unparsable, slept, run}
use dtn7_rs.Cla.Tcp.Running.Steps.{at}
use dtn7_rs.Cla.Tcp.Running.Transfer.{
  CanTransfer, both_idle, transfer-IsDelivered, unparsable_confirmed,
}
use dtn7_rs.Cla.Tcp.Running.Request.{CanRequest, request-IsDelivered, request_refused}
use dtn7_rs.Cla.Tcp.Running.Invariant.{IsBounded, run-IsBounded}
use dtn7_rs.Cla.Tcp.Connection.{TcpConnection, Naming, connect, established, hello}
use dtn7_rs.Cla.Tcp.Connection.Handshake.{IsProper, write_packets, connected-CanTransfer}
use dtn7_rs.Tests.Wire.{wire, wire-Laws}

-- A segment with an extension.
abbrev first_segment : TcpClPacket
first_segment = xfer_seg (record {
  flags = record { start = true; last = false };
  tid = 7;
  len = 3;
  buf = 159 ∷ 1 ∷ 255 ∷ [];
  extensions =
      record {
        flags = record { critical = true };
        item = TransferExtensionItemType.bundle_id;
        content = 97 ∷ 98 ∷ [];
      }
      ∷ [];
})

read-write_example : read wire (Net.write wire first_segment ++ 4 ∷ []) ≡ ok first_segment (4 ∷ [])
read-write_example =
    read-write wire wire-Laws first_segment (4 ∷ [])
      (omega arith, refl, omega arith, (omega arith, tt), omega arith, λ e. cc)

read-Ends_example :
    Ends (IsRead wire) (read wire (4 ∷ 4 ∷ 4 ∷ []))
    × LeavesRest (4 ∷ 4 ∷ 4 ∷ []) (read wire (4 ∷ 4 ∷ 4 ∷ []))
read-Ends_example = read-Ends wire wire-Laws (4 ∷ 4 ∷ 4 ∷ [])

-- A bundle is what starts with an indefinite array; its ID is its second byte.
decode : Bytes → Option Bytes
decode [] = none
decode (b ∷ bs) = if b == 159 then some (b ∷ bs) else none

abbrev host_of : (String → Bool) → Host Bytes
host_of known = record {
  try_from = decode;
  id_bytes = λ b. b;
  from_utf8 = λ s. some "a-1";
  node_of = λ s. some "n1";
  is_known = known;
}

abbrev host : Host Bytes
host = host_of (λ id. false)

abbrev session : Bool → TcpSession Bytes
session asks = record {
  addr = "10.0.0.1:4556";
  refuse_existing_bundles = asks;
  remote_session_data = record {
    keepalive = 30;
    segment_mru = 2;
    transfer_mru = 1000;
    node_id = [];
  };
  local_session_data = record {
    keepalive = 30;
    segment_mru = 64000;
    transfer_mru = 1000;
    node_id = [];
  };
  last_tid = 4;
  written = [];
  writes = [];
  answers = [];
  received = [];
  touched = [];
  broken = 0;
}

abbrev letter : Bytes
letter = 159 ∷ 1 ∷ 2 ∷ 3 ∷ 255 ∷ []

abbrev garbage : Bytes
garbage = 1 ∷ 2 ∷ 3 ∷ []

abbrev task : Response
task = record { task = 12; listening = true }

can_transfer :
    (bndl : Bytes)
    → 0 < length bndl
    → length bndl ≤ 1000
    → CanTransfer (session false) (session true) bndl task
can_transfer bndl h k = record {
  sender_writes = refl;
  receiver_writes = refl;
  sends_at_once = refl;
  segment_limit = omega arith;
  agreed = refl;
  not_empty = h;
  within = k;
  listening = refl;
}

decode-letter : decode letter ≡ some letter
unfolding decode
decode-letter = refl

decode-garbage : decode garbage ≡ none
unfolding decode
decode-garbage = refl

transfer-IsDelivered_example :
    Transfer.IsDelivered host host
      (session false)
      (session true)
      letter
      task
      (can_transfer letter (omega arith) (omega arith))
      letter
transfer-IsDelivered_example =
    transfer-IsDelivered host host (session false) (session true) letter task
      (can_transfer letter (omega arith) (omega arith)) letter decode-letter

unparsable_confirmed_example :
    Transfer.IsConfirmedUndelivered host host
      (session false)
      (session true)
      garbage
      task
      (can_transfer garbage (omega arith) (omega arith))
unparsable_confirmed_example =
    unparsable_confirmed host host (session false) (session true) garbage task
      (can_transfer garbage (omega arith) (omega arith)) decode-garbage

can_request : CanRequest host (session true) (session true) letter letter task
can_request = record {
  sender_writes = refl;
  receiver_writes = refl;
  asks_first = refl;
  decodes = decode-letter;
  segment_limit = omega arith;
  agreed = refl;
  not_empty = omega arith;
  within = omega arith;
  listening = refl;
}

request-IsDelivered_example :
    Request.IsDelivered host host
      (session true)
      (session true)
      letter
      letter
      task
      can_request
      letter
request-IsDelivered_example =
    request-IsDelivered host host (session true) (session true) letter letter task can_request
      letter decode-letter refl

-- A receiver that knows every bundle.
abbrev knowing : Host Bytes
knowing = host_of (λ id. true)

request_refused_example :
    Request.IsRefused host knowing (session true) (session true) letter letter task can_request
request_refused_example =
    request_refused host knowing (session true) (session true) letter letter task can_request refl

-- A session that has just started.
abbrev start : Running Bytes
start = at (session true) both_idle false false

start-IsBounded : IsBounded host 1000 start
start-IsBounded = record { keeps = record { limit = refl; handed_over = tt }; holds = tt }

run-IsBounded_example :
    IsBounded host 1000
      (run host (packet first_segment ∷ slept ∷ queued letter task ∷ unparsable ∷ []) start)
run-IsBounded_example =
    run-IsBounded host 1000 (packet first_segment ∷ slept ∷ queued letter task ∷ unparsable ∷ [])
      start start-IsBounded

-- A node ID names itself.
abbrev names : Naming Bytes
names = record { eid_try_from = λ b. some b; node = λ b. some "n1"; peers_known = λ n. false }

abbrev connection : TcpConnection
connection = record {
  addr = "10.0.0.1:4556";
  refuse_existing_bundles = false;
  transfer_mru = 1000;
  host_node_id = 110 ∷ 49 ∷ [];
}

connection-IsProper : IsProper wire names connection (110 ∷ 49 ∷ []) "n1"
unfolding wire
connection-IsProper = record {
  mru_fits = omega arith;
  id_fits = omega arith;
  id_is_text = refl;
  id_is_eid = refl;
  eid_has_node = refl;
}

connected-CanTransfer_example :
    (s r : TcpSession Bytes) × (connect Bytes names wire connection true
        (write_packets wire (hello connection) ++ [])
      ≡ established (record { session = s; added = none; unread = [] }))
    × (connect Bytes names wire connection false (write_packets wire (hello connection) ++ 4 ∷ [])
        ≡ established (record { session = r; added = some (110 ∷ 49 ∷ []); unread = 4 ∷ [] }))
    × (s.local_session_data ≡ r.remote_session_data)
    × (r.local_session_data ≡ s.remote_session_data)
    × CanTransfer s r letter task
connected-CanTransfer_example =
    connected-CanTransfer Bytes names wire wire-Laws connection connection (110 ∷ 49 ∷ [])
      (110 ∷ 49 ∷ []) "n1" "n1" [] (4 ∷ []) letter task connection-IsProper connection-IsProper refl
      (omega arith) (omega arith) refl
