-- ===== src/Node.antt =====
-- The state behind the globals of core/dtn7/src/lib.rs (`STORE`, `PEERS`, `STATS`, `DTNCORE`), and what
-- processing takes from outside: the configuration, the clock, the routing agent, the security policy and
-- the outcome of transfers.
use dtn7_rs.Prelude.{ℕ, ◌+◌, ◌%◌, String, Bool, List}
use dtn7_rs.Outcome.{Action}
use dtn7_rs.Bp7.{Bp7}
use dtn7_rs.Extensions.{Extensions, StatusReportReason}
use dtn7_rs.BundlePack.{BundlePack, Clock, u64_mod}
use dtn7_rs.Peer.{DtnPeer, PeerConfig, ClaInstance, ClaSenderTask}
use dtn7_rs.Peers.{Peers}
use dtn7_rs.Routing.{RoutingNotification, Senders}
use dtn7_rs.ApplicationAgent.{ApplicationAgent}
use dtn7_rs.Store.{BundleStore}

-- `DtnStatistics`, with `node.error_info.discarded_bundle_count`
pub record DtnStatistics : Type 0 where
  pub incoming : ℕ
  pub dups : ℕ
  pub outgoing : ℕ
  pub delivered : ℕ
  pub failed : ℕ
  pub broken : ℕ
  pub discarded_bundle_count : ℕ

-- `spawned` are the calls of `forward` that `dispatch` hands to the runtime; `forwarding` is
-- `FORWARDING` of core/dtn7/src/core/processing.rs.
pub record Node (E B S A : Type 0) : Type 0 where
  pub store : S
  pub peers : Peers E
  pub stats : DtnStatistics
  pub endpoints : List (ApplicationAgent E B)
  pub routing : A
  pub forwarding : List String
  pub spawned : List (BundlePack E)

-- A routing agent with the state `A`, behind the channel of `RoutingAgent`.
pub record RoutingAgent (E B A : Type 0) : Type 0 where
  pub notify : RoutingNotification E B → A → A
  pub sender_for_bundle : List ClaInstance → BundlePack E → List (DtnPeer E) → A → A × Senders E

pub data Verdict : Type 0 where
  accept : Verdict
  drop : StatusReportReason → Verdict

pub data ProcessingStep : Type 0 where
  transmit_step receive_step forward_step : ProcessingStep

pub record Config (E : Type 0) : Type 0 where
  pub host_eid : E
  pub generate_status_reports : Bool
  pub strict_validation : Bool
  pub peer_config : PeerConfig
  -- whether the feature `bpsec` is built in
  pub bpsec : Bool

pub record Context (E B S A : Type 0) : Type 0 where
  pub bp7 : Bp7 E B
  pub ext : Extensions E B
  pub st : BundleStore E B S
  pub agent : RoutingAgent E B A
  pub config : Config E
  pub clock : Clock
  pub clas : List ClaInstance
  -- `bpsec::enforce`: the verdict, and the bundle as it leaves the policy
  pub enforce : ProcessingStep → B → Verdict × B
  -- whether `ClaSenderTask::transfer` succeeds
  pub transfer : ClaSenderTask E → Bool

-- A counter of type u64
abbrev pub bump : ℕ → ℕ
bump n = (n + 1) % u64_mod

module _ {E B S A : Type 0} where
  abbrev pub with_stats : (DtnStatistics → DtnStatistics) → Node E B S A → Node E B S A
  with_stats f n = record n { stats = f n.stats }

  -- An action on the store, done under its lock.
  abbrev pub on_store : {T : Type 0} → Action S T → Action (Node E B S A) T
  on_store m n = let (r, s) = m n.store in (r, record n { store = s })
