-- ===== src/Tests/Sample.antt =====
-- A small network to run the definitions on: endpoint IDs are their texts, a bundle is the fields that
-- are looked at, and the store is the one in memory.
use dtn7_rs.Prelude.{
  ℕ, String, true, false, not, Option, none, some, List, [], ◌∷◌, ◌==◌, string_eq, if◌then◌else◌,
}
use dtn7_rs.Bp7.{Bp7, CanonicalBlock}
use dtn7_rs.BundlePack.{BundlePack, Clock, forward_pending}
use dtn7_rs.Peer.{
  DtnPeer, ClaInstance, PeerConfig, PeerType, static, dynamic, generic, ClaSenderTask,
}
use dtn7_rs.Store.Mem.{InMemoryBundleStore, mem_store}
use dtn7_rs.Extensions.{Extensions}
use dtn7_rs.Routing.Epidemic
use dtn7_rs.Node.{Node, Context, DtnStatistics, RoutingAgent, accept}

pub record Bundle : Type 0 where
  pub id : String
  pub source : String
  pub destination : String
  pub created : ℕ
  pub lifetime : ℕ
  pub blocks : List CanonicalBlock

-- The name of a node is the text of its endpoint ID; "dtn:none" names none.
abbrev pub name_of : String → Option String
name_of eid = if eid == "dtn:none" then none else some eid

abbrev pub bp7 : Bp7 String Bundle
bp7 = record {
  none_eid = "dtn:none";
  node = name_of;
  node_id = name_of;
  eid_to_string = λ eid. eid;
  is_non_singleton = λ eid. false;
  bundle_id = λ b. b.id;
  cbor_len = λ b. 1;
  is_administrative_record = λ b. false;
  previous_node = λ b. some b.source;
  source = λ b. b.source;
  destination = λ b. b.destination;
  report_to = λ b. b.source;
  lifetime_millis = λ b. b.lifetime;
  creation_dtntime = λ b. b.created;
  status_request_reception = λ b. false;
  status_request_forward = λ b. false;
  status_request_delivery = λ b. false;
  status_request_deletion = λ b. false;
  validate = λ b. [];
  canonicals = λ b. b.blocks;
  with_canonicals = λ bs b. record b { blocks = bs };
}

abbrev pub ext : Extensions String Bundle
ext = record {
  is_lifetime_exceeded = λ clock b. false;
  has_hop_count = λ b. false;
  hop_count_increase = λ b. (false, b);
  hop_count_exceeded = λ b. false;
  has_bundle_age = λ b. false;
  bundle_age = λ b. none;
  set_bundle_age = λ age b. b;
  has_previous_node = λ b. false;
  previous_node_update = λ eid b. b;
  add_previous_node = λ eid b. b;
  administrative_record = λ b. none;
  max_status_information_pos = 4;
  delivered_bundle_pos = 2;
  new_status_report_bundle = λ clock b eid status reason. b;
}

abbrev pub noon : Clock
noon = record { unix_millis = 50000; unix_secs = 50; dtntime = 50000 }

abbrev pub payload : CanonicalBlock
payload = record {
  block_type = 1;
  block_number = 1;
  block_status_report = false;
  block_delete_bundle = false;
  block_remove = false;
}

-- an unknown block that asks to be removed
abbrev pub foreign : CanonicalBlock
foreign = record payload { block_type = 200; block_number = 2; block_remove = true }

abbrev pub letter : Bundle
letter = record {
  id = "a-1";
  source = "a";
  destination = "c";
  created = 1000;
  lifetime = 2000;
  blocks = foreign ∷ payload ∷ [];
}

abbrev pub pack : BundlePack String
pack = record {
  source = "a";
  destination = "c";
  received_time = 50000;
  creation_time = 1000;
  lifetime = 2000;
  id = "a-1";
  administrative = false;
  size = 1;
  constraints = forward_pending ∷ [];
}

-- the letter and its pack
abbrev pub holding : InMemoryBundleStore String Bundle
holding = record { bundles = ("a-1", letter) ∷ []; metadata = ("a-1", pack) ∷ [] }

abbrev pub tcp : ClaInstance
tcp = record { name = "tcp"; port = 4556; accepting = true; channel = 1 }

abbrev pub peer_named : String → PeerType → DtnPeer String
peer_named name con_type = record {
  eid = name;
  addr = generic name;
  con_type = con_type;
  period = none;
  cla_list = ("tcp", none) ∷ [];
  services = [];
  last_contact = 10;
  fails = 0;
}

abbrev pub peer_b : DtnPeer String
peer_b = peer_named "b" dynamic

abbrev pub peer_c : DtnPeer String
peer_c = peer_named "c" static

abbrev pub peer_config : PeerConfig
peer_config = record { peer_timeout = 20; custom_timeout = true }

abbrev pub task_to : String → ClaSenderTask String
task_to name = record { tx = 1; dest = name; cla_name = "tcp"; next_hop = name }

abbrev pub epidemic : RoutingAgent String Bundle Epidemic.Core
epidemic = record {
  notify = Epidemic.notify bp7;
  sender_for_bundle = λ clas bp peers core. Epidemic.senders_for_bundle bp7 clas bp peers core;
}

abbrev pub context : Context String Bundle (InMemoryBundleStore String Bundle) Epidemic.Core
context = record {
  bp7 = bp7;
  ext = ext;
  st = mem_store bp7;
  agent = epidemic;
  config = record {
    host_eid = "b";
    generate_status_reports = false;
    strict_validation = false;
    peer_config = peer_config;
    bpsec = false;
  };
  clock = noon;
  clas = tcp ∷ [];
  enforce = λ step b. (accept, b);
  -- the link to `c` is down
  transfer = λ t. not (t.next_hop == "c");
}

abbrev pub stats : DtnStatistics
stats = record {
  incoming = 0;
  dups = 0;
  outgoing = 0;
  delivered = 0;
  failed = 0;
  broken = 0;
  discarded_bundle_count = 0;
}

abbrev pub node_with :
    InMemoryBundleStore String Bundle
    → Node String Bundle (InMemoryBundleStore String Bundle) Epidemic.Core
node_with s = record {
  store = s;
  peers = ("b", peer_b) ∷ ("c", peer_c) ∷ [];
  stats = stats;
  endpoints = [];
  routing = Epidemic.new;
  forwarding = [];
  spawned = [];
}
