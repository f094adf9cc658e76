-- ===== src/Routing.antt =====
-- DATA and PING packets (routed_packet_is_well_formed, path_between, random_route, source_route,
-- make_ping_reply and handle_routed of mixnet/node.c).
pub mod Reply
pub mod Along
pub mod Detour
use mathlib.Core.Option
use cmu_mixnet.Prelude.{
  ℕ, zero, suc, ◌+◌, ◌-◌, ◌*◌, ◌/◌, ◌%◌, ◌^◌, Bool, true, false, not, ◌&&◌, ◌||◌, Option, none,
  some, List, [], ◌∷◌, ◌++◌, if◌then◌else◌, ◌==◌, ltb, leb, length, get_or, set, take, u16,
}
use cmu_mixnet.Packet.{
  RoutingHeader, Body, user_bytes, ping_body, Routed, packet_of, packet_header_size,
  routing_header_size, address_size, ping_size, max_mixnet_packet_size, max_mixnet_route_length,
}
use cmu_mixnet.Config.{Config, Alloc, Send, detour_route, reply_copy}
use cmu_mixnet.Topology.{Vertex, Graph, vertex_at, id_find}
use cmu_mixnet.Paths.{sp_at, infinite_cost, run_dijkstra}
use cmu_mixnet.State.{NodeState}
use cmu_mixnet.Fib.{hops_of, fib_lookup}
use cmu_mixnet.Tree.{user_port}
use cmu_mixnet.Mixing.{send_to_next_hop}

-- The bytes up to the end of a route of `n` hops.
abbrev pub routed_size : ℕ → ℕ
routed_size n = packet_header_size + routing_header_size + address_size * n

-- The PING fields that the declared size has to cover.
abbrev pub ping_needed : Body → Bool → ℕ
ping_needed (user_bytes b) has_ping_fields = 0
ping_needed (ping_body p) has_ping_fields = if has_ping_fields then ping_size else 0

unfoldable pub routed_packet_is_well_formed : Routed → Bool → Bool
routed_packet_is_well_formed r has_ping_fields =
    if ltb r.total_size (routed_size 0)
    then false
    else leb (routed_size r.header.route_length + ping_needed r.body has_ping_fields) r.total_size

-- `none` is -1; the hops stand for what is written to `out`.
unfoldable pub path_between : Alloc → Graph → ℕ → ℕ → ℕ → Option (List ℕ)
path_between m g from to capacity = if from == to then some [] else elim (run_dijkstra m g from) [
  | none ↦ none
  | some sp ↦
      let hops = hops_of (sp_at sp to) in
      if (sp_at sp to).cost == infinite_cost
      then none
      else if leb hops capacity
      then some (take hops (sp_at sp to).path)
      else none
]

-- A vertex that is neither end of the route.
abbrev pub is_eligible : Config → ℕ → Vertex → Bool
is_eligible c dst x = not (x.addr == c.node_addr) && not (x.addr == dst)

pub count_eligible : Config → ℕ → List Vertex → ℕ
count_eligible c dst [] = 0
count_eligible c dst (x ∷ xs) = (if is_eligible c dst x then 1 else 0) + count_eligible c dst xs

-- The id of the k-th eligible vertex, from 0.
pub scan_eligible : Config → ℕ → List Vertex → ℕ → Option ℕ
scan_eligible c dst [] k = none
scan_eligible c dst (x ∷ xs) k =
    let rest = Option.map suc (scan_eligible c dst xs (if is_eligible c dst x then k - 1 else k)) in
    if is_eligible c dst x && (k == 0) then some 0 else rest

-- The two legs over the waypoint with id `wid`.
unfoldable pub detour_via : Alloc → NodeState → ℕ → ℕ → Option (List ℕ)
detour_via m s dst wid =
    let w = (vertex_at s.topology wid).addr in
    elim (id_find s.topology dst) [
      | none ↦ none
      | some did ↦ elim (fib_lookup s w) [
        | none ↦ none
        | some src_to_w ↦
            let head = length src_to_w.route in
            if ltb max_mixnet_route_length (head + 1) || not (m detour_route 0)
            then none
            else Option.map (λ (tail : List ℕ). src_to_w.route ++ w ∷ tail)
                (path_between m s.topology wid did (u16 (max_mixnet_route_length - head - 1)))
      ]
    ]

-- `random` is the value of rand(); `none` is NULL, for the shortest path.
unfoldable pub random_route : Alloc → Config → NodeState → ℕ → ℕ → Option (List ℕ)
unfolding count_eligible scan_eligible detour_via
random_route m c s dst random =
    let eligible = u16 (count_eligible c dst s.topology.v) in
    if eligible == 0
    then none
    else elim (scan_eligible c dst s.topology.v (u16 (random % eligible))) [
      | none ↦ none
      | some wid ↦ detour_via m s dst wid
    ]

-- The route that the source writes: a detour where one is wanted and can be built.
unfoldable pub chosen_route : Alloc → Config → NodeState → ℕ → List ℕ → ℕ → List ℕ
unfolding random_route
chosen_route m c s dst shortest random =
    if c.do_random_routing
    then elim (random_route m c s dst random) [ none ↦ shortest | some detour ↦ detour ]
    else shortest

-- The bytes behind the route: the user's data, or the PING fields that the source adds. The
-- difference does not stop at 0, since the packet is well formed.
abbrev pub tail_size : Routed → ℕ
tail_size r = elim r.body [
  | user_bytes b ↦ r.total_size - routed_size r.header.route_length
  | ping_body p ↦ ping_size
]

abbrev pub source_body : Body → ℕ → Body
source_body (user_bytes b) now = user_bytes b
source_body (ping_body p) now = ping_body (record { is_request = true; pad = 0; send_time = now })

-- The packet with a route written into it.
unfoldable pub with_route : Routed → List ℕ → ℕ → Routed
with_route r route now = record {
  total_size = u16 (routed_size (length route) + tail_size r);
  header = record r.header { route_length = length route; hop_index = 0; route = route };
  body = source_body r.body now;
}

unfoldable pub source_route : Alloc → Config → NodeState → Routed → ℕ → ℕ → NodeState × List Send
unfolding chosen_route with_route
source_route m c s r now random = elim (fib_lookup s r.header.dst_address) [
  | none ↦ (s, [])
  | some path ↦
      let route = chosen_route m c s r.header.dst_address path.route random in
      if ltb max_mixnet_packet_size (routed_size (length route) + tail_size r)
      then (s, [])
      else send_to_next_hop c s (with_route r route now)
]

-- The loop that swaps route[i] and route[route_length - 1 - i], for `n` values from `i` on.
pub swap_hops : ℕ → ℕ → ℕ → List ℕ → List ℕ
swap_hops zero i route_length route = route
swap_hops (suc n) i route_length route =
    let j = u16 (route_length + 2 ^ 16 - 1 - i) in
    swap_hops n (i + 1) route_length (set (set route i (get_or route j 0)) j (get_or route i 0))

abbrev pub answered : Body → Body
answered (user_bytes b) = user_bytes b
answered (ping_body p) = ping_body (record p { is_request = false })

unfoldable pub make_ping_reply : Alloc → Routed → Option Routed
unfolding swap_hops
make_ping_reply m request =
    let h = request.header in
    if m reply_copy 0
    then some (record request {
      header = record {
        src_address = h.dst_address;
        dst_address = h.src_address;
        route_length = h.route_length;
        hop_index = 0;
        route = swap_hops (h.route_length / 2) 0 h.route_length h.route;
      };
      body = answered request.body;
    })
    else none

abbrev pub is_request_body : Body → Bool
is_request_body (user_bytes b) = false
is_request_body (ping_body p) = p.is_request

-- The destination: a reply for a request, and the packet to the user.
unfoldable pub deliver : Alloc → Config → NodeState → Routed → NodeState × List Send
unfolding make_ping_reply
deliver m c s r =
    let to_user : Send = (user_port c, packet_of r) in
    if is_request_body r.body
    then elim (make_ping_reply m r) [
      | none ↦ (s, to_user ∷ [])
      | some reply ↦ let (s', sent) = send_to_next_hop c s reply in (s', sent ++ to_user ∷ [])
    ]
    else (s, to_user ∷ [])

-- A forwarder is the hop that the index points at.
pub is_next_hop : Config → RoutingHeader → Bool
is_next_hop c h = ltb h.hop_index h.route_length && (get_or h.route h.hop_index 0 == c.node_addr)

unfoldable pub forward : Config → NodeState → Routed → NodeState × List Send
unfolding is_next_hop
forward c s r =
    if is_next_hop c r.header
    then send_to_next_hop c s
        (record r { header = record (r.header) { hop_index = u16 (r.header.hop_index + 1) } })
    else (s, [])

unfoldable pub handle_routed :
    Alloc → Config → NodeState → ℕ → Routed → ℕ → ℕ → NodeState × List Send
unfolding routed_packet_is_well_formed source_route deliver forward
handle_routed m c s port r now random =
    let from_user = port == user_port c in
    if not (routed_packet_is_well_formed r (not from_user))
    then (s, [])
    else if from_user
    then source_route m c s r now random
    else if r.header.dst_address == c.node_addr
    then deliver m c s r
    else forward c s r
