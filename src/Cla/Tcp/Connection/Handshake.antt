-- ===== src/Cla/Tcp/Connection/Handshake.antt =====
-- Two sides that connect to each other agree on their parameters.
use mathlib.Core.List.{append_assoc}
use dtn7_rs.Prelude.{
  ◌^◌, ◌≤◌, ◌<◌, ◌≡◌, refl, ap, ◌∙◌, String, Bool, true, false, not, ◌&&◌, none, some, List, [],
  ◌∷◌, ◌++◌, length, arith, if◌then◌else◌,
}
use dtn7_rs.Cla.Tcp.Proto.{Bytes}
use dtn7_rs.Cla.Tcp.Wire.{Wire, Laws, ok}
use dtn7_rs.Cla.Tcp.Net
use dtn7_rs.Cla.Tcp.Net.{TcpClPacket, contact_header, sess_init, read}
use dtn7_rs.Cla.Tcp.Net.RoundTrip.{read-write}
use dtn7_rs.Cla.Tcp.Session.{TcpSession, Response}
use dtn7_rs.Cla.Tcp.Running.Transfer.{CanTransfer}
use dtn7_rs.Cla.Tcp.Connection.{
  TcpConnection, Naming, established, announced, hello, receive_contact_header, negotiate_session,
  connect, new_session,
}

-- A connection whose parameters fit their fields, of a host with a proper node ID.
pub record IsProper {E : Type 0} (w : Wire) (names : Naming E) (c : TcpConnection) (eid : E)
    (node : String) : Type 0 where
  pub mru_fits : c.transfer_mru < 2 ^ 64
  pub id_fits : length c.host_node_id < 2 ^ 16
  pub id_is_text : w.utf8_lossy c.host_node_id ≡ c.host_node_id
  pub id_is_eid : names.eid_try_from c.host_node_id ≡ some eid
  pub eid_has_node : names.node eid ≡ some node

-- The bytes of several packets.
abbrev pub write_packets : Wire → List TcpClPacket → Bytes
write_packets w [] = []
write_packets w (p ∷ ps) = Net.write w p ++ write_packets w ps

module _ {E : Type 0} (B : Type 0) (names : Naming E) (w : Wire) (laws : Laws w) where
  header_lem :
      (s : Bytes)
      → receive_contact_header (Net.write w (contact_header (record { can_tls = false })) ++ s)
        ≡ ok (record { can_tls = false }) s
  unfolding receive_contact_header Net.write
  header_lem s = refl

  -- This side reads what the other side wrote.
  pub connect-hello :
      (ours theirs : TcpConnection) (active : Bool) (eid : E) (node : String) (rest : Bytes)
      → IsProper w names theirs eid node
      → connect B names w ours active (write_packets w (hello theirs) ++ rest)
        ≡ established (record {
          session = new_session B names ours (announced ours) (announced theirs);
          added = if not active && not (names.peers_known node) then some eid else none;
          unread = rest;
        })
  unfolding connect negotiate_session
  connect-hello ours theirs active eid node rest h =
      let header = Net.write w (contact_header (record { can_tls = false })) in
      let init = sess_init (announced theirs) in
      let stream : write_packets w (hello theirs) ++ rest ≡ header ++ (Net.write w init ++ rest) =
        append_assoc header (Net.write w init ++ []) rest
        ∙ ap (λ t. header ++ t) (append_assoc (Net.write w init) [] rest) in
      rw (stream, header_lem (Net.write w init ++ rest))
        (ground (
          arith,
          read-write w laws init rest
              (omega arith, omega arith, h.mru_fits, h.id_fits, h.id_is_text),
          h.id_is_eid,
          h.eid_has_node,
        ))

  -- Two sides that each read what the other writes at the start, with proper node IDs and
  -- parameters that fit their fields, where the dialling side does not ask before it sends a
  -- bundle (`refuse_existing_bundles` is off): both sessions come about, the side that was
  -- dialled adds the other one as a peer unless it knows it, each side holds the parameters that
  -- the other one announces, and a bundle that is not empty and within the limit of the listening
  -- side can be transferred as a task waits for it.
  pub connected-CanTransfer :
      (dialling listening : TcpConnection) (eid eid' : E) (node node' : String) (rest rest' : Bytes)
      (bndl : Bytes) (response : Response)
      → IsProper w names dialling eid node
      → IsProper w names listening eid' node'
      → dialling.refuse_existing_bundles ≡ false
      → 0 < length bndl
      → length bndl ≤ listening.transfer_mru
      → response.listening ≡ true
      → (s r : TcpSession B) × (connect B names w dialling true
            (write_packets w (hello listening) ++ rest)
          ≡ established (record { session = s; added = none; unread = rest }))
        × (connect B names w listening false (write_packets w (hello dialling) ++ rest')
            ≡ established (record {
              session = r;
              added = if not (names.peers_known node) then some eid else none;
              unread = rest';
            }))
        × (s.local_session_data ≡ r.remote_session_data)
        × (r.local_session_data ≡ s.remote_session_data)
        × CanTransfer s r bndl response
  connected-CanTransfer dialling listening eid eid' node node' rest rest' bndl response h k plain
        some_bytes small waits =
      (
        new_session B names dialling (announced dialling) (announced listening),
        new_session B names listening (announced listening) (announced dialling),
        connect-hello dialling listening true eid' node' rest k,
        connect-hello listening dialling false eid node rest' h,
        refl,
        refl,
        record {
          sender_writes = refl;
          receiver_writes = refl;
          sends_at_once = plain;
          segment_limit = omega arith;
          agreed = refl;
          not_empty = some_bytes;
          within = small;
          listening = waits;
        },
      )
