-- ===== src/Routing.antt =====
-- core/dtn7/src/routing/mod.rs: what routing agents are asked and told, and the agents themselves.
pub mod Epidemic
pub mod SprayAndWait
pub mod Simple
pub mod StaticRouting
use dtn7_rs.Prelude.{String, Bool, List}
use dtn7_rs.BundlePack.{BundlePack}
use dtn7_rs.Peer.{ClaSenderTask}

pub data RoutingNotification (E B : Type 0) : Type 0 where
  sending_failed : String → String → RoutingNotification E B
  sending_succeeded : String → String → RoutingNotification E B
  incoming_bundle : B → RoutingNotification E B
  incoming_bundle_without_previous_node : String → String → RoutingNotification E B
  encountered_peer : E → RoutingNotification E B
  dropped_peer : E → RoutingNotification E B

-- The answer to `SenderForBundle`: whom to send to, and whether to delete the bundle afterwards.
abbrev pub Senders : Type 0 → Type 0
Senders E = List (ClaSenderTask E) × Bool
