-- ===== src/Cla/Tcp/Sending.antt =====
-- Sending a bundle over a session: `send` and `send_bundle` in core/dtn7/src/cla/tcp/mod.rs.
pub mod Chunks
use dtn7_rs.Prelude.{
  ℕ, zero, suc, ◌+◌, ◌-◌, ◌%◌, ◌^◌, Bool, true, false, Option, none, some, List, [], ◌∷◌, ◌++◌, map,
  length, ltb, if◌then◌else◌,
}
use dtn7_rs.Cla.Tcp.Proto
use dtn7_rs.Cla.Tcp.Proto.{
  Bytes, XferSegData, XferSegmentFlags, TransferExtensionItem, TransferExtensionItemType,
}
use dtn7_rs.Cla.Tcp.Net.{TcpClPacket, xfer_seg}
use dtn7_rs.Cla.Tcp.Session.{
  TcpSession, SendState, Response, Host, Action, pure, bail, proceed, ◌>>=◌, write, answer,
  successful, failure, response_error, bundle_error,
}

abbrev pub no_segment_flags : XferSegmentFlags
no_segment_flags = record { start = false; last = false }

-- `chunks(n)` of the standard library, for a positive `n`: `room` bytes still fit the chunk `cur`.
unfoldable pub chunks_from : ℕ → ℕ → Bytes → Bytes → List Bytes
chunks_from n room [] [] = []
chunks_from n room (c ∷ cur) [] = (c ∷ cur) ∷ []
chunks_from n zero cur (b ∷ bs) = cur ∷ chunks_from n (n - 1) (b ∷ []) bs
chunks_from n (suc room) cur (b ∷ bs) = chunks_from n room (cur ++ b ∷ []) bs

unfoldable pub chunks : ℕ → Bytes → List Bytes
unfolding chunks_from
chunks n bs = chunks_from n n [] bs

abbrev pub segment : ℕ → Bytes → XferSegData
segment tid buf = record {
  flags = no_segment_flags;
  tid = tid;
  len = length buf;
  buf = buf;
  extensions = [];
}

abbrev pub set_start : XferSegData → XferSegData
set_start d = record d { flags = record { start = true; last = d.flags.last } }

abbrev pub set_last : XferSegData → XferSegData
set_last d = record d { flags = record { start = d.flags.start; last = true } }

-- `first_mut().flags |= START`, unless the request with that flag was sent before
abbrev pub mark_first : Bool → List XferSegData → List XferSegData
mark_first true ds = ds
mark_first false [] = []
mark_first false (d ∷ ds) = set_start d ∷ ds

-- `last_mut().flags |= END`
abbrev pub mark_last : List XferSegData → List XferSegData
mark_last [] = []
mark_last (d ∷ []) = set_last d ∷ []
mark_last (d ∷ e ∷ ds) = d ∷ mark_last (e ∷ ds)

-- The packet that asks whether the peer has the bundle.
abbrev pub request_segment : ℕ → Bytes → XferSegData
request_segment tid id = record {
  flags = record { start = true; last = false };
  tid = tid;
  len = 0;
  buf = [];
  extensions =
      record {
        flags = record { critical = false };
        item = TransferExtensionItemType.bundle_id;
        content = id;
      }
      ∷ [];
}

module _ {B : Type 0} where
  unfoldable pub write_all : List XferSegData → Action B (Unit {0})
  write_all [] = pure tt
  write_all (d ∷ ds) = do _ ← write (xfer_seg d); write_all ds

  abbrev pub after_failure : Bool → Action B SendState
  after_failure true = pure SendState.idle
  after_failure false = bail response_error

  abbrev pub send_segments : Bytes → Response → List XferSegData → Action B SendState
  send_segments bndl_buf tx_result [] s = proceed (answer tx_result failure s) after_failure
  send_segments bndl_buf tx_result (d ∷ ds) s =
      proceed (write_all (mark_last (mark_first s.refuse_existing_bundles (d ∷ ds))) s)
        (λ _. pure (SendState.sending (length bndl_buf) tx_result))

  unfoldable pub send_bundle : Bytes → Response → Action B SendState
  send_bundle bndl_buf tx_result s =
      send_segments bndl_buf tx_result
        (map (segment s.last_tid) (chunks s.remote_session_data.segment_mru bndl_buf)) s

  abbrev pub send_request : Host B → Bytes → Response → Option B → Action B SendState
  send_request host bndl_buf tx_result none s = bail bundle_error s
  send_request host bndl_buf tx_result (some b) s =
      proceed (write (xfer_seg (request_segment s.last_tid (host.id_bytes b))) s)
        (λ _. pure (SendState.transfer_request bndl_buf tx_result))

  abbrev pub next_transfer : TcpSession B → TcpSession B
  next_transfer s = record s { last_tid = (s.last_tid + 1) % 2 ^ 64 }

  unfoldable pub send : Host B → Bytes → Response → Action B SendState
  send host bndl_buf tx_result s =
      if ltb s.remote_session_data.transfer_mru (length bndl_buf)
      then proceed (answer tx_result failure s) (λ _. pure SendState.idle)
      else if s.refuse_existing_bundles
      then send_request host bndl_buf tx_result (host.try_from bndl_buf) (next_transfer s)
      else send_bundle bndl_buf tx_result (next_transfer s)
