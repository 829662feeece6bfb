-- ===== src/Routing/StaticRouting.antt =====
-- core/dtn7/src/routing/static_routing.rs. `glob_match` of the crate of that name is a parameter, and so
-- are the contents of the routes file.
pub mod Parsing
pub mod Selection
use text.Mathlib.Text.{starts_with}
use dtn7_rs.Prelude.{
  ℕ, Bool, true, false, not, ◌&&◌, ◌||◌, String, Option, none, some, List, [], ◌∷◌, Eq, ◌==◌,
  string_eq, filter_map, unwrap_or, if◌then◌else◌,
}
use dtn7_rs.Text.Words.{trim, split_whitespace, lines, parse_u16}
use dtn7_rs.Bp7.{Bp7}
use dtn7_rs.BundlePack.{BundlePack}
use dtn7_rs.Peer.{DtnPeer, ClaInstance, ClaSenderTask, first_cla}
use dtn7_rs.Routing.{Senders}

pub record StaticRouteEntry : Type 0 where
  pub idx : ℕ
  pub src : String
  pub dst : String
  pub via : String

-- the four parts of a line, the first of which is a number
unfoldable pub route_of_parts : List String → Option StaticRouteEntry
route_of_parts (number ∷ src ∷ dst ∷ via ∷ rest) = elim (parse_u16 number) [
  | none ↦ none
  | some idx ↦ some (record { idx = idx; src = src; dst = dst; via = via })
]
route_of_parts parts = none

unfoldable pub parse_route_from_str : String → Option StaticRouteEntry
unfolding route_of_parts
parse_route_from_str line =
    let s = trim line in
    if starts_with s "#" || s == "" then none else route_of_parts (split_whitespace s)

-- `load_routes`: the contents of the file, if it can be read
unfoldable pub load_routes : Option String → Option (List StaticRouteEntry)
load_routes none = none
load_routes (some text) = some (filter_map parse_route_from_str (lines text))

pub record StaticRoutingAgentCore : Type 0 where
  pub routes : List StaticRouteEntry

-- the start of `handle_routing_cmd`, with the routes file if one is configured
unfoldable pub new : Option (Option String) → StaticRoutingAgentCore
new none = record { routes = [] }
new (some contents) = record { routes = unwrap_or (load_routes contents) [] }

-- the `Command` arm
unfoldable pub command :
    String → Option (Option String) → StaticRoutingAgentCore → StaticRoutingAgentCore
command cmd none core = core
command cmd (some contents) core =
    if cmd == "reload"
    then record { routes = unwrap_or (load_routes contents) core.routes }
    else core

module _ {E B : Type 0} (bp7 : Bp7 E B) (clas : List ClaInstance) where
  -- the loop over the peers: the first one that is the next hop and can be sent to
  unfoldable pub via_peer : String → List (DtnPeer E) → Option (ClaSenderTask E)
  via_peer via [] = none
  via_peer via (p ∷ peers) =
      let rest = via_peer via peers in
      if bp7.eid_to_string p.eid == via
      then elim (first_cla clas p) [ some cla ↦ some cla | none ↦ rest ]
      else rest

module _ {E B : Type 0} (bp7 : Bp7 E B) (glob_match : String → String → Bool) where
  -- whether a route is one for the bundle
  unfoldable pub applies : BundlePack E → StaticRouteEntry → Bool
  applies bp route =
      glob_match route.src (bp7.eid_to_string bp.source)
      && glob_match route.dst (bp7.eid_to_string bp.destination)

module _ {E B : Type 0} (bp7 : Bp7 E B) (glob_match : String → String → Bool)
    (clas : List ClaInstance) where
  -- the `SenderForBundle` arm
  unfoldable pub static_senders :
      BundlePack E → List (DtnPeer E) → List StaticRouteEntry → Senders E
  unfolding via_peer applies
  static_senders bp peers [] = ([], false)
  static_senders bp peers (route ∷ routes) =
      let rest = static_senders bp peers routes in
      if applies bp7 glob_match bp route
      then elim (via_peer bp7 clas route.via peers) [
        | some cla ↦ (cla ∷ [], not (bp7.is_non_singleton bp.destination))
        | none ↦ rest
      ]
      else rest
