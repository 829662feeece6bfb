-- ===== src/Tests/Agents.antt =====
-- Runs of the routing agents (core/dtn7/src/routing/) and of the application agents
-- (core/dtn7/src/core/application_agent.rs).
use dtn7_rs.Prelude.{
  Bool, not, ◌&&◌, ◌==◌, string_eq, String, ◌≡◌, ◌≢◌, ◌⊎◌, ◌<◌, ◌≤◌, ◌++◌, refl, true, false, List,
  [], ◌∷◌, some, none, arith, length, inl, eq_iff, In, if◌then◌else◌, string_eq,
}
use text.Mathlib.Text.{starts_with}
use dtn7_rs.Map
use dtn7_rs.Map.{lookup}
use dtn7_rs.Text.{decimal}
use dtn7_rs.Peer.{
  ClaInstance, ClaSenderTask, first_cla, cla_among, cla_for, with_port, show_address, node_name,
}
use dtn7_rs.Routing.{incoming_bundle, dropped_peer}
use dtn7_rs.Routing.Epidemic
use dtn7_rs.Routing.Epidemic.{select, is_destination, contains, senders_for_bundle}
use dtn7_rs.Routing.Epidemic.Selection.{choice, select-eq-choice}
use dtn7_rs.Routing.Epidemic.NoResend
use dtn7_rs.Routing.Epidemic.NoResend.{no_resend}
use dtn7_rs.Routing.SprayAndWait
use dtn7_rs.Routing.SprayAndWait.{SaWBundleData, handle_sender_for_bundle}
use dtn7_rs.Routing.SprayAndWait.Copies
use dtn7_rs.Routing.SprayAndWait.Books.{Balanced}
use dtn7_rs.Routing.SprayAndWait.Copies.{copies-Balanced}
use dtn7_rs.Routing.SprayAndWait.Wait.{relay_recorded_unsent}
use dtn7_rs.Text.Words.{lines, trim, split_whitespace, is_whitespace, parse_u16}
use dtn7_rs.Routing.StaticRouting.{
  StaticRouteEntry, route_of_parts, parse_route_from_str, load_routes, static_senders,
}
use dtn7_rs.Routing.StaticRouting.Selection.{Answer, static_senders-Answer}
use dtn7_rs.ApplicationAgent.{ApplicationAgent, Channel, push, is_in_endpoints}
use dtn7_rs.ApplicationAgent.Delivery.{push_all, drain, drain-push_all, push-channel}
use dtn7_rs.ApplicationAgent.Endpoints.{AreSeparate}
use dtn7_rs.Outcome.{after}
use dtn7_rs.Store.Spec.{view, removed}
use dtn7_rs.Store.Mem
use dtn7_rs.Store.Mem.{InMemoryBundleStore, mem_store}
use dtn7_rs.Store.Mem.Invariant.{IsWellFormed, new-IsWellFormed, push-IsWellFormed}
use dtn7_rs.Store.Mem.Refinement.{mem_store-Laws}
use dtn7_rs.Tests.Sample.{noon, bp7, letter, pack, Bundle, peer_b, peer_c, tcp, holding}

abbrev clas : List ClaInstance
clas = tcp ∷ []

abbrev task_b : ClaSenderTask String
task_b = record { tx = 1; dest = "b:4556"; cla_name = "tcp"; next_hop = "b" }

select-eq-choice_example :
    select bp7 clas Epidemic.new pack (peer_b ∷ peer_c ∷ []) []
    ≡ choice bp7 clas Epidemic.new pack (peer_b ∷ peer_c ∷ [])
select-eq-choice_example = select-eq-choice bp7 clas Epidemic.new pack (peer_b ∷ peer_c ∷ [])

selected_b : In ("b", task_b) (select bp7 clas Epidemic.new pack (peer_b ∷ []) []).0
unfolding select contains Epidemic.new lookup node_name first_cla cla_among cla_for is_destination
    with_port show_address decimal
selected_b = inl refl

abbrev later_cmds : List (NoResend.Cmd String Bundle)
later_cmds =
    NoResend.notifies (incoming_bundle letter)
    ∷ NoResend.asks pack (peer_b ∷ []) clas
    ∷ NoResend.notifies (dropped_peer "b")
    ∷ []

no_resend_example :
    let later =
      NoResend.run bp7 later_cmds (senders_for_bundle bp7 clas pack (peer_b ∷ []) Epidemic.new).0 in
    ¬ In ("b", task_b) (select bp7 clas later pack (peer_b ∷ peer_c ∷ []) []).0
no_resend_example =
    no_resend bp7 clas clas pack pack (peer_b ∷ []) (peer_b ∷ peer_c ∷ []) Epidemic.new "b" task_b
      task_b later_cmds refl selected_b
      ((λ e. ground arith), ((λ e. ground arith), ((λ e. ground arith), tt)))

-- a letter of this host, spread to `b`, which then cannot be reached
abbrev spread_cmds : List (Copies.Cmd String Bundle)
spread_cmds =
    Copies.notifies (incoming_bundle letter)
    ∷ Copies.asks pack (peer_b ∷ []) clas
    ∷ Copies.notifies (incoming_bundle letter)
    ∷ []

abbrev spread : SaWBundleData
spread = record { remaining_copies = 6; nodes = "b" ∷ [] }

spread_once :
    lookup "a-1" (Copies.run bp7 spread_cmds (SprayAndWait.new 7 "a")).history ≡ some spread
unfolding Copies.run Copies.step SprayAndWait.new SprayAndWait.handle_notification
    SprayAndWait.handle_new_bundle handle_sender_for_bundle SprayAndWait.offer_all
    SprayAndWait.offer SprayAndWait.spray_phase lookup Map.insert first_cla cla_among cla_for
    node_name
spread_once = refl

copies-Balanced_example : Balanced (if starts_with "a-1" "a" then 7 else 1) spread
copies-Balanced_example = copies-Balanced bp7 7 "a" spread_cmds "a-1" spread spread_once

abbrev two_left : SprayAndWait.Core
two_left = record {
  l = 7;
  history = ("a-1", record { remaining_copies = 2; nodes = [] }) ∷ [];
  local_node = "a";
}

abbrev two_copies : SaWBundleData
two_copies = record { remaining_copies = 2; nodes = [] }

two_known : lookup "a-1" two_left.history ≡ some two_copies
unfolding lookup
two_known = refl

abbrev task_c : ClaSenderTask String
task_c = record { tx = 1; dest = "c:4556"; cla_name = "tcp"; next_hop = "c" }

first_b : first_cla clas peer_b ≡ some task_b
unfolding first_cla cla_among cla_for with_port show_address decimal
first_b = refl

first_c : first_cla clas peer_c ≡ some task_c
unfolding first_cla cla_among cla_for with_port show_address decimal
first_c = refl

names_differ : node_name bp7 peer_b ≢ node_name bp7 peer_c
unfolding node_name
names_differ e = ground (arith, eq_iff "b" "c", e)

c_is_destination : is_destination bp7 pack peer_c ≡ true
unfolding is_destination node_name
c_is_destination = refl

relay_recorded_unsent_example :
    handle_sender_for_bundle bp7 clas pack (peer_b ∷ peer_c ∷ []) two_left ≡ (
      record two_left {
        history =
            Map.insert "a-1"
              (record { remaining_copies = 1; nodes = node_name bp7 peer_b ∷ [] })
              two_left.history;
      },
      (task_c ∷ [], true),
    )
relay_recorded_unsent_example =
    relay_recorded_unsent bp7 clas pack peer_b peer_c two_left two_copies task_b task_c "b" "c"
      two_known refl refl refl refl (λ e. ground (arith, eq_iff "b" "a", e))
      (λ e. ground (arith, eq_iff "c" "a", e)) names_differ first_b first_c c_is_destination

abbrev agent : ApplicationAgent String Bundle
agent = record { eid = "c"; bundles = letter ∷ []; delivery = none }

drain-push_all_example :
    let (agent', s') = push_all bp7 (mem_store bp7) (letter ∷ letter ∷ []) agent holding in
    drain bp7 (mem_store bp7) 3 agent' s' ≡ agent.bundles ++ letter ∷ letter ∷ []
drain-push_all_example =
    drain-push_all bp7 (mem_store bp7) (letter ∷ letter ∷ []) agent holding 3 refl (omega arith)

abbrev channel : Channel Bundle
channel = record { capacity = 2; queued = letter ∷ []; closed = false }

abbrev attached : ApplicationAgent String Bundle
attached = record agent { delivery = some channel }

-- a store that holds the letter
abbrev delivering : InMemoryBundleStore String Bundle
delivering = after (Mem.push bp7 noon letter) Mem.new

delivering-IsWellFormed : IsWellFormed bp7 delivering
delivering-IsWellFormed = push-IsWellFormed bp7 noon letter Mem.new (new-IsWellFormed bp7)

push-channel_example :
    let (agent', s') = push bp7 (mem_store bp7) letter attached delivering in
    (d : Channel Bundle) × (agent'.delivery ≡ some d)
    × (length d.queued ≤ d.capacity)
    × (((d.queued ≡ channel.queued ++ letter ∷ [])
          × (agent'.bundles ≡ attached.bundles)
          × (view (mem_store bp7) s' "a-1" ≡ (
              if not (bp7.is_non_singleton (bp7.destination letter))
                && (bp7.bundle_id letter == "a-1")
              then removed (view (mem_store bp7) delivering "a-1")
              else view (mem_store bp7) delivering "a-1"))
          × (channel.closed ≡ false)
          × (length channel.queued < channel.capacity))
        ⊎ ((d ≡ channel)
            × (agent'.bundles ≡ attached.bundles ++ letter ∷ [])
            × (s' ≡ delivering)
            × ((channel.closed ≡ true) ⊎ (channel.capacity ≤ length channel.queued))))
push-channel_example =
    push-channel bp7 (mem_store bp7) (mem_store-Laws bp7) letter attached channel delivering "a-1"
      delivering-IsWellFormed refl (omega arith)

lone-AreSeparate : AreSeparate (agent ∷ [])
unfolding AreSeparate is_in_endpoints
lone-AreSeparate = (refl, tt)

abbrev routes_text : String
routes_text = "# routes\n1 dtn://a/* dtn://c/* d\n2 a c c\nbroken line\n"

abbrev to_d : StaticRouteEntry
to_d = record { idx = 1; src = "dtn://a/*"; dst = "dtn://c/*"; via = "d" }

abbrev to_c : StaticRouteEntry
to_c = record { idx = 2; src = "a"; dst = "c"; via = "c" }

routes_loaded : load_routes (some routes_text) ≡ some (to_d ∷ to_c ∷ [])
unfolding load_routes parse_route_from_str route_of_parts lines trim split_whitespace is_whitespace
    parse_u16
routes_loaded = refl

-- patterns without wildcards
abbrev literal_match : String → String → Bool
literal_match pattern text = pattern == text

static_senders-Answer_example :
    Answer bp7 literal_match clas pack
      (peer_b ∷ peer_c ∷ [])
      (to_d ∷ to_c ∷ [])
      (static_senders bp7 literal_match clas pack (peer_b ∷ peer_c ∷ []) (to_d ∷ to_c ∷ []))
static_senders-Answer_example =
    static_senders-Answer bp7 literal_match clas pack (peer_b ∷ peer_c ∷ []) (to_d ∷ to_c ∷ [])
