-- ===== src/Lib.antt =====
-- A model of the core of dtn7, a delay-tolerant networking daemon (crate core/dtn7): the
-- bundle stores, the peers, the routing agents, the application agents, the processing of
-- bundles, the security policy and two convergence layers, TCP and MTCP, with the theorems
-- that make them correct.
--
-- How the parts interact. A bundle comes in from a convergence layer (`receive`) or from an
-- application (`send_bundle`), is checked, stored with its metadata (`BundlePack`) and
-- dispatched: delivered to an application agent, forwarded, or both. `forward` asks the
-- routing agent which peers to send to, has the convergence layer agents transfer the bundle,
-- and tells the routing agent and the list of peers what came of it. The janitor deletes
-- expired bundles and drops peers that are silent. All of this works on global variables
-- behind locks, which are the fields of `Node`. A session of the TCP convergence layer sends
-- the bundles that are queued in it as segments, and hands the bundles that it receives over
-- to `receive`.
--
-- Which file models which part (paths from the root of the repository):
--   Bp7, Extensions: the crate `bp7`, which is not in the repository, as interfaces. A theorem
--     holds for every instance; its conditions are stated with it.
--   BundlePack (with Constraints, Expiry): core/dtn7/src/core/bundlepack.rs.
--   Peer (Validity, Sender): core/dtn7/src/core/peer.rs and `ClaSenderTask` of
--     core/dtn7/src/cla/mod.rs.
--   Peers (Invariant, Expulsion): the functions `peers_…` of core/dtn7/src/lib.rs,
--     `process_peers` of core/dtn7/src/core/mod.rs and `report_failed_transmission` of
--     core/dtn7/src/core/processing.rs.
--   Store: the trait `BundleStore` of core/dtn7/src/core/store/mod.rs, as a record of
--     operations. Store.Spec: its contract, the record `Laws`, which the theorems on the users
--     of a store take as an argument. Store.Mem (Invariant, Refinement):
--     core/dtn7/src/core/store/mem.rs, an implementation. Store.Sled (Agreement, Simulation,
--     Removal): core/dtn7/src/core/store/sled.rs beside the one in memory.
--   GlobalStore (Known, Cleanup, Survivors, Sync): the functions of core/dtn7/src/lib.rs on the store,
--     and `sync`.
--   Routing.Epidemic (Selection, NoResend), Routing.SprayAndWait (Books, Copies, Wait),
--     Routing.Simple and Routing.StaticRouting (Parsing, Selection):
--     core/dtn7/src/routing/epidemic.rs, sprayandwait.rs, flooding.rs with sink.rs, and
--     static_routing.rs.
--   ApplicationAgent (Delivery, Endpoints): core/dtn7/src/core/application_agent.rs and the
--     endpoints of core/dtn7/src/core/mod.rs.
--   Node: the global state and what processing takes from outside.
--   Processing.Reports (Inspection, Deletion), Delivery (Local), Receive (Blocks, Transit,
--     Validation) and Forward (Transfers, Failures, Spent): core/dtn7/src/core/processing.rs.
--     Processing.Janitor (Queue, Turns): core/dtn7/src/dtnd/janitor.rs and the functions of
--     core/dtn7/src/core/mod.rs that it calls. Processing.Stable (Local, Incoming, Outgoing):
--     predicates on the store through all of processing. Processing.History: sequences of
--     calls.
--   Cla.Tcp.Proto: core/dtn7/src/cla/tcp/proto.rs. Cla.Tcp.Wire and Net (RoundTrip, Extensions,
--     Rest, Totality): core/dtn7/src/cla/tcp/net.rs; Cla.Tcp.Ends: the rules for a reader that ends.
--   Cla.Tcp.Session, Sending (Chunks), Receiving, Running (Steps, Reception, Transmission,
--     Transfer, Request, Bounds, Within, Invariant) and Connection (Handshake):
--     `TcpSession` and `TcpConnection` of core/dtn7/src/cla/tcp/mod.rs.
--   Cla.Mtcp (Framing): the framing of core/dtn7/src/cla/mtcp.rs.
--   Bpsec.Config (Validation): the rules of core/dtn7/src/core/bpsec/config.rs. Bpsec.Policy
--     (Source, Demands, Planned; Receiver, Warrants, Inspecting; Evaluation, Validated;
--     Counting): core/dtn7/src/core/bpsec/policy.rs. Bpsec.Statistics and Bpsec.Enforcement (Performed,
--     Closed):
--     core/dtn7/src/core/bpsec/statistics.rs and enforcement.rs.
--   Prelude, Map, HashSet, Outcome, Text: lists, tests, maps, sets, results with a state, and
--     text.
--   Tests: concrete data, and a run for each theorem that has conditions.
--
-- How the state is modelled. A function that changes a global takes the state and returns it,
-- beside its result if it can fail (`Action`); what was written before a failure stays
-- written. A function that holds a lock throughout is one step, and the functions of
-- processing run one after the other. The calls of `forward` that `dispatch` hands to the
-- runtime are listed in the node (`spawned`), and the transfers of one `forward` run in the
-- order of the selection. The clock, the verdict of the security policy and the outcome of a
-- transfer are arguments (`Context`), so a theorem holds for all of them; between the calls of
-- a history the clock and the transfers change freely. The routing agent is taken to answer
-- every request.
--
-- A session of the TCP convergence layer is a record of its fields, to which the packets that
-- it wrote, the answers that it gave to waiting tasks and the bundles that it handed over are
-- added. `run` takes the events of the `select!` in any order, one round for each; the outcome
-- of each write is the environment's, as is whether a task still waits for its answer. Reading
-- takes a list of bytes; when it ends too early, the reader fails. Integers on the wire
-- (Wire), the calls of other parts (Host, Naming), the database of the sled store (Tree) and
-- the serialization (Codec) are interfaces. The policy reads a bundle as a record
-- (`SecuredBundle`), in which the security blocks are decoded or not; globs and block types
-- are an interface (Library), as are the security operations of bp7 (Operations), whose source
-- of random bytes is part of the state. A call of the sled store returns or panics (`Call`).
--
-- Bounds. A u64 or u16 that is added to wraps (`u64_mod`, `u16_mod`), as in a release build; a
-- saturating subtraction is the one of ℕ. Copies (usize) and queue lengths are numbers without
-- a bound. Loops are recursion on the list that they run over. `drain`
-- (ApplicationAgent.Delivery) takes fuel, and as many steps as there are bundles are enough;
-- `decimal` (Text) writes at most twenty digits, which every port number has. The loop over
-- the extensions of a segment (`parse_extensions`) takes fuel, one more than the announced
-- length, of which every round takes at least five. The decoder of MTCP counts in a usize of
-- 64 bits. The length that is announced for extensions is a u32 that wraps, and the number of
-- a transfer wraps at 2 ^ 64.
--
-- What is not modelled: network input and output (the listener and the map of sessions of the
-- TCP convergence layer, the connections of MTCP, the other convergence layers, discovery,
-- HTTP and WebSocket), the sneakers store, the reading of keys, external routing agents, the
-- configuration, and the programs around the daemon.
pub mod Prelude
pub mod Map
pub mod HashSet
pub mod Outcome
pub mod Bp7
pub mod BundlePack
pub mod Cla
pub mod Bpsec
pub mod Text
pub mod Peer
pub mod Peers
pub mod Routing
pub mod Store
pub mod GlobalStore
pub mod ApplicationAgent
pub mod Extensions
pub mod Node
pub mod Processing
pub mod Tests
