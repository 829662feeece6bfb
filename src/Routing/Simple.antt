-- ===== src/Routing/Simple.antt =====
-- core/dtn7/src/routing/flooding.rs and core/dtn7/src/routing/sink.rs: agents that keep no state.
use dtn7_rs.Prelude.{
  ◌≡◌, ◌↔◌, refl, false, some, List, [], filter_map, In, In-filter_map-to, In-filter_map-from,
}
use dtn7_rs.BundlePack.{BundlePack}
use dtn7_rs.Peer.{DtnPeer, ClaInstance, ClaSenderTask, first_cla}
use dtn7_rs.Routing.{Senders}

module _ {E : Type 0} where
  -- the `SenderForBundle` arm of `FloodingRoutingAgent::new`
  unfoldable pub flooding_senders : List ClaInstance → BundlePack E → List (DtnPeer E) → Senders E
  flooding_senders clas bp peers = (filter_map (first_cla clas) peers, false)

  -- the `SenderForBundle` arm of `SinkRoutingAgent::new`
  unfoldable pub sink_senders : BundlePack E → Senders E
  sink_senders bp = ([], false)

  -- The flooding agent selects exactly the tasks that reach some peer, and never asks for
  -- deletion; the sink agent selects nothing.
  pub flooding_senders_iff :
      (clas : List ClaInstance) (bp : BundlePack E) (peers : List (DtnPeer E)) (t : ClaSenderTask E)
      → (In t (flooding_senders clas bp peers).0
          ↔ ((p : DtnPeer E) × In p peers × (first_cla clas p ≡ some t)))
        × ((flooding_senders clas bp peers).1 ≡ false)
        × ¬ In t (sink_senders bp).0
  unfolding flooding_senders sink_senders
  flooding_senders_iff clas bp peers t = (
    (
      λ i. In-filter_map-to (first_cla clas) t peers i,
      λ (p, i, e). In-filter_map-from (first_cla clas) p t peers i e,
    ),
    refl,
    λ i. i,
  )
