-- ===== src/Peer.antt =====
-- core/dtn7/src/core/peer.rs, with the parts of core/dtn7/src/cla/mod.rs that it selects a sender by.
pub mod Validity
pub mod Sender
use Prim.Native.String.{◌++◌}
use dtn7_rs.Prelude.{
  ℕ, ◌+◌, ◌-◌, ◌*◌, ◌%◌, ◌^◌, String, Bool, true, false, not, ◌&&◌, Option, none, some, List, [],
  ◌∷◌, ◌==◌, string_eq, ltb, unwrap_or, if◌then◌else◌,
}
use dtn7_rs.Map.{Map}
use dtn7_rs.Text.{decimal}
use dtn7_rs.Bp7.{Bp7}
use dtn7_rs.BundlePack.{Clock, u64_mod}

pub data PeerType : Type 0 where
  static dynamic : PeerType

abbrev pub is_static : PeerType → Bool
is_static static = true
is_static dynamic = false

-- `std::net::IpAddr` in its canonical text.
pub data IpAddr : Type 0 where
  v4 v6 : String → IpAddr

pub data PeerAddress : Type 0 where
  ip : IpAddr → PeerAddress
  broadcast_generic : String → String → PeerAddress
  generic : String → PeerAddress

-- `Display for PeerAddress`
unfoldable pub show_address : PeerAddress → String
show_address (ip (v4 a)) = a
show_address (ip (v6 a)) = a
show_address (broadcast_generic domain a) = domain ++ ("/" ++ a)
show_address (generic a) = a

-- `with_port`; `SocketAddr` puts an IPv6 address in brackets
unfoldable pub with_port : PeerAddress → ℕ → String
unfolding show_address
with_port (ip (v4 a)) port = a ++ (":" ++ decimal port)
with_port (ip (v6 a)) port = "[" ++ (a ++ ("]:" ++ decimal port))
with_port (broadcast_generic domain a) port =
    show_address (broadcast_generic domain a) ++ (":" ++ decimal port)
with_port (generic a) port = show_address (generic a) ++ (":" ++ decimal port)

-- A period is kept in whole seconds, all that the code reads of it.
pub record DtnPeer (E : Type 0) : Type 0 where
  pub eid : E
  pub addr : PeerAddress
  pub con_type : PeerType
  pub period : Option ℕ
  pub cla_list : List (String × Option ℕ)
  pub services : Map ℕ String
  pub last_contact : ℕ
  pub fails : ℕ

-- What is read of the configuration: `peer_timeout` in seconds and `custom_timeout`.
pub record PeerConfig : Type 0 where
  pub peer_timeout : ℕ
  pub custom_timeout : Bool

-- A convergence layer agent as its users see it; the channel is told apart by a number.
pub record ClaInstance : Type 0 where
  pub name : String
  pub port : ℕ
  pub accepting : Bool
  pub channel : ℕ

pub record ClaSenderTask (E : Type 0) : Type 0 where
  pub tx : ℕ
  pub dest : String
  pub cla_name : String
  pub next_hop : E

abbrev pub u16_mod : ℕ
u16_mod = 2 ^ 16

-- the `match` of `still_valid`
unfoldable pub max_silence : PeerConfig → Option ℕ → ℕ
max_silence config none = config.peer_timeout
max_silence config (some period) =
    if not (config.custom_timeout && ltb 0 config.peer_timeout)
    then (period * 2) % u64_mod
    else config.peer_timeout

module _ {E : Type 0} where
  -- `DtnPeer::new`
  unfoldable pub new :
      Clock
      → E
      → PeerAddress
      → PeerType
      → Option ℕ
      → List (String × Option ℕ)
      → Map ℕ String
      → DtnPeer E
  new clock eid addr con_type period cla_list services = record {
    eid = eid;
    addr = addr;
    con_type = con_type;
    period = period;
    cla_list = cla_list;
    services = services;
    last_contact = clock.unix_secs;
    fails = 0;
  }

  unfoldable pub touch : Clock → DtnPeer E → DtnPeer E
  touch clock p = record p { last_contact = clock.unix_secs }

  -- `now.saturating_sub(last_contact)` is the subtraction of ℕ
  unfoldable pub still_valid : PeerConfig → Clock → DtnPeer E → Bool
  still_valid config clock p =
      if is_static p.con_type
      then true
      else ltb (clock.unix_secs - p.last_contact) (max_silence config p.period)

  unfoldable pub node_name : {B : Type 0} → Bp7 E B → DtnPeer E → String
  node_name bp7 p = unwrap_or (bp7.node p.eid) ""

  -- the inner loop of `first_cla`
  unfoldable pub cla_for :
      DtnPeer E → String × Option ℕ → List ClaInstance → Option (ClaSenderTask E)
  cla_for p cla [] = none
  cla_for p cla (c ∷ cs) =
      if cla.0 == c.name && c.accepting
      then some (record {
        tx = c.channel;
        dest = with_port p.addr (unwrap_or cla.1 c.port);
        cla_name = c.name;
        next_hop = p.eid;
      })
      else cla_for p cla cs

  -- the outer loop
  unfoldable pub cla_among :
      DtnPeer E → List (String × Option ℕ) → List ClaInstance → Option (ClaSenderTask E)
  cla_among p [] clas = none
  cla_among p (cla ∷ rest) clas = elim (cla_for p cla clas) [
    | some task ↦ some task
    | none ↦ cla_among p rest clas
  ]

  unfoldable pub first_cla : List ClaInstance → DtnPeer E → Option (ClaSenderTask E)
  first_cla clas p = cla_among p p.cla_list clas

  -- `self.update(peer)`
  unfoldable pub update : DtnPeer E → DtnPeer E → DtnPeer E
  update p peer = record p {
    con_type = if not (is_static p.con_type) then peer.con_type else p.con_type;
    addr = peer.addr;
    period = peer.period;
    cla_list = peer.cla_list;
    services = peer.services;
    last_contact = peer.last_contact;
  }

  unfoldable pub report_fail : DtnPeer E → DtnPeer E
  report_fail p = record p { fails = (p.fails + 1) % u16_mod }

  unfoldable pub reset_fails : DtnPeer E → DtnPeer E
  reset_fails p = record p { fails = 0 }

  unfoldable pub failed_too_much : DtnPeer E → Bool
  failed_too_much p = ltb 3 p.fails
