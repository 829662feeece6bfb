-- ===== src/ApplicationAgent.antt =====
-- core/dtn7/src/core/application_agent.rs, and the endpoints of core/dtn7/src/core/mod.rs. A delivery
-- channel is a bounded queue to a client, closed once the client is gone.
pub mod Delivery
pub mod Endpoints
use dtn7_rs.Prelude.{
  ℕ, String, Bool, true, false, not, ◌&&◌, Option, none, some, List, [], ◌∷◌, ◌++◌, Eq, ◌==◌, any,
  find, ltb, length, map, is_some, if◌then◌else◌,
}
use dtn7_rs.Bp7.{Bp7}
use dtn7_rs.Store.{BundleStore}
use dtn7_rs.GlobalStore.{store_remove_if_singleton_bundle}

pub record Channel (B : Type 0) : Type 0 where
  pub capacity : ℕ
  pub queued : List B
  pub closed : Bool

pub record ApplicationAgent (E B : Type 0) : Type 0 where
  pub eid : E
  pub bundles : List B
  pub delivery : Option (Channel B)

-- `Sender::try_send`: fails on a full or closed channel
unfoldable pub can_send : {B : Type 0} → Channel B → Bool
can_send c = not c.closed && ltb (length c.queued) c.capacity

module _ {E B : Type 0} where
  -- `SimpleApplicationAgent::with`
  unfoldable pub with_eid : E → ApplicationAgent E B
  with_eid eid = record { eid = eid; bundles = []; delivery = none }

  unfoldable pub set_delivery_addr : Channel B → ApplicationAgent E B → ApplicationAgent E B
  set_delivery_addr addr aa = record aa { delivery = some addr }

  unfoldable pub clear_delivery_addr : ApplicationAgent E B → ApplicationAgent E B
  clear_delivery_addr aa = record aa { delivery = none }

module _ {E B S : Type 0} (bp7 : Bp7 E B) (st : BundleStore E B S) where
  unfoldable pub push : B → ApplicationAgent E B → S → ApplicationAgent E B × S
  push b aa s = elim aa.delivery [
    | none ↦ (record aa { bundles = aa.bundles ++ b ∷ [] }, s)
    | some c ↦
        if can_send c
        then (
          record aa { delivery = some (record c { queued = c.queued ++ b ∷ [] }) },
          store_remove_if_singleton_bundle bp7 st b s,
        )
        else (record aa { bundles = aa.bundles ++ b ∷ [] }, s)
  ]

  unfoldable pub pop : ApplicationAgent E B → S → Option B × ApplicationAgent E B × S
  pop aa s = elim aa.bundles [
    | [] ↦ (none, aa, s)
    | b ∷ rest ↦ (some b, record aa { bundles = rest }, store_remove_if_singleton_bundle bp7 st b s)
  ]

module _ {E B : Type 0} ⦃eq : Eq E⦄ where
  -- `DtnCore::is_in_endpoints`
  unfoldable pub is_in_endpoints : E → List (ApplicationAgent E B) → Bool
  is_in_endpoints eid aas = any (λ aa. eid == aa.eid) aas

  -- `DtnCore::get_endpoint`, `get_endpoint_mut`
  unfoldable pub get_endpoint : E → List (ApplicationAgent E B) → Option (ApplicationAgent E B)
  get_endpoint eid aas = find (λ aa. eid == aa.eid) aas

  -- writes back what was done to the agent that `get_endpoint_mut` found
  unfoldable pub set_endpoint :
      E → ApplicationAgent E B → List (ApplicationAgent E B) → List (ApplicationAgent E B)
  set_endpoint eid new [] = []
  set_endpoint eid new (aa ∷ aas) =
      if eid == aa.eid then new ∷ aas else aa ∷ set_endpoint eid new aas

  -- `DtnCore::register_application_agent`
  unfoldable pub register_application_agent :
      ApplicationAgent E B → List (ApplicationAgent E B) → List (ApplicationAgent E B)
  register_application_agent aa aas = if is_in_endpoints aa.eid aas then aas else aas ++ aa ∷ []

  -- `DtnCore::unregister_application_agent`
  unfoldable pub unregister_application_agent :
      E → List (ApplicationAgent E B) → List (ApplicationAgent E B)
  unregister_application_agent eid [] = []
  unregister_application_agent eid (aa ∷ aas) =
      if aa.eid == eid then aas else aa ∷ unregister_application_agent eid aas
