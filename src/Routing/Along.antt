-- ===== src/Routing/Along.antt =====
-- A packet's way from the source over the forwarders of its route to its destination.
use mathlib.Core.List.{append_assoc}
use cmu_mixnet.Prelude.{
  ℕ, ◌+◌, ◌-◌, ◌≤◌, ◌<◌, ◌≡◌, ◌≢◌, refl, sym, ap, subst, ◌∙◌, inl, inr, true, false, some, none,
  List, [], ◌∷◌, ◌++◌, map, arith, ◌==◌, ltb, Bool-cases, Option-cases, length, length-append,
  get_or, u8, u16,
}
use cmu_mixnet.Packet.{
  user_bytes, ping_body, Routed, packet_of, max_mixnet_packet_size, ping_size, invalid_mixaddr,
}
use cmu_mixnet.Config.{Config, Alloc, Send}
use cmu_mixnet.State.{FibEntry, NodeState, neighbor_at}
use cmu_mixnet.State.Ports.{port_of_lem, port_of_finds}
use cmu_mixnet.Fib.{fib_lookup}
use cmu_mixnet.Tree.{user_port}
use cmu_mixnet.Mixing.{next_hop_of, send_to_next_hop}
use cmu_mixnet.Mixing.Batch.{send_now}
use cmu_mixnet.Routing.{
  routed_size, tail_size, source_body, ping_needed, routed_packet_is_well_formed, chosen_route,
  with_route, source_route, make_ping_reply, is_request_body, deliver, is_next_hop, handle_routed,
}

-- A node as it is when the packet arrives on one of its ports.
pub record Stop : Type 0 where
  pub alloc : Alloc
  pub config : Config
  pub state : NodeState
  pub arrival_port : ℕ
  pub now : ℕ
  pub random : ℕ

abbrev pub stop_addr : Stop → ℕ
stop_addr n = n.config.node_addr

abbrev pub handled_at : Stop → Routed → NodeState × List Send
handled_at n r = handle_routed n.alloc n.config n.state n.arrival_port r n.now n.random

-- The node does not mix, its ports are told apart by eight bits, and one of its neighbors has told
-- this address.
pub record CanSend (n : Stop) (next : ℕ) : Type 0 where
  pub unmixed : n.state.mix ≡ none
  pub few_ports : n.config.num_neighbors ≤ 255
  pub valid : next ≢ invalid_mixaddr
  pub linked : (q : ℕ) × (q < n.config.num_neighbors) × (neighbor_at n.state q ≡ next)

-- The first of these nodes, or the destination behind the last.
unfoldable pub first_stop : List Stop → ℕ → ℕ
first_stop [] dst = dst
first_stop (n ∷ ns) dst = stop_addr n

-- Each node gets the packet over a link, is not its destination, and can send to the one behind it.
unfoldable pub CanForward : List Stop → ℕ → Type 0
unfolding first_stop
CanForward [] dst = Unit
CanForward (n ∷ ns) dst =
    (stop_addr n ≢ dst)
    × (n.arrival_port ≢ user_port n.config)
    × CanSend n (first_stop ns dst)
    × CanForward ns dst

-- The node sends just this packet, to the neighbor that its header calls for, and stays as it was.
abbrev pub Passes : Stop → Routed → Routed → Type 0
Passes n r r' =
    (p : ℕ) × (handled_at n r ≡ (n.state, (p, packet_of r') ∷ []))
    × (neighbor_at n.state p ≡ next_hop_of r'.header)

-- The packet as each of the nodes in turn passes it on.
pub Carried : List Stop → Routed → Routed → Type 0
Carried [] r r' = r ≡ r'
Carried (n ∷ ns) r r' = (r1 : Routed) × Passes n r r1 × Carried ns r1 r'

abbrev moved_to : Routed → ℕ → Routed
moved_to r i = record r { header = record (r.header) { hop_index = i } }

abbrev pub at_end : Routed → Routed
at_end r = moved_to r r.header.route_length

sent_on :
    (n : Stop) (r : Routed)
    → CanSend n (next_hop_of r.header)
    → (p : ℕ) × (send_to_next_hop n.config n.state r ≡ (n.state, (p, packet_of r) ∷ []))
      × (neighbor_at n.state p ≡ next_hop_of r.header)
sent_on n r can =
    let (q, lt, e) = can.linked in
    let (p, found) = port_of_finds n.config n.state (next_hop_of r.header) q can.valid lt e in
    let (small, leads, valid) = port_of_lem n.config n.state (next_hop_of r.header) p found in
    let same : u8 p ≡ p = omega (arith, can.few_ports) in
    (u8 p, send_now n.config n.state r p found can.unmixed, ap (neighbor_at n.state) same ∙ leads)

get_or-middle : (xs : List ℕ) (y : ℕ) (ys : List ℕ) → get_or (xs ++ y ∷ ys) (length xs) 0 ≡ y
get_or-middle [] y ys = refl
get_or-middle (x ∷ xs) y ys = ground (arith, get_or-middle xs y ys)

-- The hop index stands behind the hops that are done.
record IsUnderway (ns : List Stop) (r : Routed) : Type 0 where
  done : List ℕ
  route : r.header.route ≡ done ++ map stop_addr ns
  index : r.header.hop_index ≡ length done
  counted : r.header.route_length ≡ length r.header.route
  fits : r.header.route_length < 65536
  well_formed : routed_packet_is_well_formed r true ≡ true

at_end_index : (r : Routed) → IsUnderway [] r → r.header.hop_index ≡ r.header.route_length
at_end_index r u = omega (arith, u.index, u.counted, ap length u.route, length-append u.done [])

at_first :
    (n : Stop) (ns : List Stop) (r : Routed)
    → IsUnderway (n ∷ ns) r
    → (r.header.hop_index < r.header.route_length)
      × (get_or r.header.route r.header.hop_index 0 ≡ stop_addr n)
at_first n ns r u = (
  omega (
    arith,
    u.index,
    u.counted,
    ap length u.route,
    length-append u.done (stop_addr n ∷ map stop_addr ns),
  ),
  ap (λ (i : ℕ). get_or r.header.route i 0) u.index
      ∙ ap (λ (xs : List ℕ). get_or xs (length u.done) 0) u.route
      ∙ get_or-middle u.done (stop_addr n) (map stop_addr ns),
)

next_hop-first :
    (ns : List Stop) (r : Routed)
    → IsUnderway ns r
    → next_hop_of r.header ≡ first_stop ns r.header.dst_address
unfolding first_stop next_hop_of
next_hop-first [] r u = ground (arith, at_end_index r u)
next_hop-first (n ∷ ns) r u = let (lt, e) = at_first n ns r u in ground arith

is_next_hop_lem :
    (n : Stop) (ns : List Stop) (r : Routed)
    → IsUnderway (n ∷ ns) r
    → is_next_hop n.config r.header ≡ true
unfolding is_next_hop
is_next_hop_lem n ns r u = let (lt, e) = at_first n ns r u in ground arith

forwarded :
    (n : Stop) (ns : List Stop) (r : Routed)
    → IsUnderway (n ∷ ns) r
    → stop_addr n ≢ r.header.dst_address
    → n.arrival_port ≢ user_port n.config
    → handled_at n r ≡ send_to_next_hop n.config n.state (moved_to r (r.header.hop_index + 1))
unfolding handle_routed
forwarded n ns r u away link =
    let (lt, e) = at_first n ns r u in
    let link' : (n.arrival_port == user_port n.config) ≡ false = ground arith in
    let away' : (r.header.dst_address == n.config.node_addr) ≡ false = ground arith in
    let here : is_next_hop n.config r.header ≡ true = is_next_hop_lem n ns r u in
    let exact : u16 (r.header.hop_index + 1) ≡ r.header.hop_index + 1 = omega (arith, u.fits, lt) in
    rw (link', u.well_formed, away', here)
      (ap (λ (i : ℕ). send_to_next_hop n.config n.state (moved_to r i)) exact)

moved-IsUnderway :
    (n : Stop) (ns : List Stop) (r : Routed)
    → IsUnderway (n ∷ ns) r
    → IsUnderway ns (moved_to r (r.header.hop_index + 1))
unfolding routed_packet_is_well_formed
moved-IsUnderway n ns r u = record {
  done = u.done ++ stop_addr n ∷ [];
  route = u.route ∙ sym (append_assoc u.done (stop_addr n ∷ []) (map stop_addr ns));
  index = omega (arith, u.index, length-append u.done (stop_addr n ∷ []));
  counted = u.counted;
  fits = u.fits;
  well_formed = u.well_formed;
}

-- The forwarders of a route carry a packet along it.
carried :
    (ns : List Stop) (r : Routed)
    → IsUnderway ns r
    → CanForward ns r.header.dst_address
    → Carried ns r (at_end r)
unfolding CanForward Carried
carried [] r u can = ap (moved_to r) (at_end_index r u)
carried (n ∷ ns) r u (away, link, can, others) =
    let r1 = moved_to r (r.header.hop_index + 1) in
    let later = moved-IsUnderway n ns r u in
    let first = next_hop-first ns r1 later in
    let (p, sent, leads) = sent_on n r1 (subst (CanSend n) (sym first) can) in
    (r1, (p, forwarded n ns r u away link ∙ sent, leads), carried ns r1 later others)

-- The user's packet is well formed, the source has a route over these nodes, and what it makes of
-- the packet with the route in it is small enough.
pub record Departs (src : Stop) (ns : List Stop) (r : Routed) : Type 0 where
  pub from_user : src.arrival_port ≡ user_port src.config
  pub well_formed : routed_packet_is_well_formed r false ≡ true
  pub entry : FibEntry
  pub known : fib_lookup src.state r.header.dst_address ≡ some entry
  pub chosen :
      chosen_route src.alloc src.config src.state r.header.dst_address entry.route src.random
      ≡ map stop_addr ns
  pub small : routed_size (length (map stop_addr ns)) + tail_size r ≤ max_mixnet_packet_size
  pub can : CanSend src (first_stop ns r.header.dst_address)

-- The packet as it leaves the source.
abbrev pub departed : Stop → List Stop → Routed → Routed
departed src ns r = with_route r (map stop_addr ns) src.now

source_needs : (r : Routed) (now : ℕ) → ping_needed (source_body r.body now) true ≤ tail_size r
source_needs r now =
    elim r.body
      as (λ b. ping_needed (source_body b now) true ≤ elim b [
        | user_bytes x ↦ r.total_size - routed_size r.header.route_length
        | ping_body p ↦ ping_size
      ]) [ user_bytes x ↦ omega arith | ping_body p ↦ omega arith ]

departed-well_formed :
    (src : Stop) (ns : List Stop) (r : Routed)
    → Departs src ns r
    → routed_packet_is_well_formed (departed src ns r) true ≡ true
unfolding routed_packet_is_well_formed with_route
departed-well_formed src ns r d = ground (arith, source_needs r src.now, d.small)

departed-IsUnderway :
    (src : Stop) (ns : List Stop) (r : Routed)
    → Departs src ns r
    → IsUnderway ns (departed src ns r)
unfolding with_route
departed-IsUnderway src ns r d = record {
  done = [];
  route = refl;
  index = refl;
  counted = refl;
  fits = omega (arith, d.small);
  well_formed = departed-well_formed src ns r d;
}

arrived-well_formed :
    (src : Stop) (ns : List Stop) (r : Routed)
    → Departs src ns r
    → routed_packet_is_well_formed (at_end (departed src ns r)) true ≡ true
unfolding routed_packet_is_well_formed
arrived-well_formed src ns r d = departed-well_formed src ns r d

source_sends :
    (src : Stop) (ns : List Stop) (r : Routed)
    → Departs src ns r
    → source_route src.alloc src.config src.state r src.now src.random
      ≡ send_to_next_hop src.config src.state (departed src ns r)
unfolding source_route
source_sends src ns r d =
    let size = routed_size (length (map stop_addr ns)) + tail_size r in
    let small : ltb max_mixnet_packet_size size ≡ false = ground (arith, d.small) in
    rw (d.known, d.chosen, small, source_route) refl

leaves :
    (src : Stop) (ns : List Stop) (r : Routed)
    → Departs src ns r
    → handled_at src r ≡ send_to_next_hop src.config src.state (departed src ns r)
unfolding handle_routed
leaves src ns r d =
    let from : (src.arrival_port == user_port src.config) ≡ true = ground (arith, d.from_user) in
    rw (from, d.well_formed) (source_sends src ns r d)

delivered :
    (n : Stop) (r : Routed)
    → routed_packet_is_well_formed r true ≡ true
    → stop_addr n ≡ r.header.dst_address
    → n.arrival_port ≢ user_port n.config
    → (replies : List Send) × ((handled_at n r).1
        ≡ replies ++ (user_port n.config, packet_of r) ∷ [])
unfolding handle_routed deliver
delivered n r well here link =
    let link' : (n.arrival_port == user_port n.config) ≡ false = ground arith in
    let here' : (r.header.dst_address == n.config.node_addr) ≡ true = ground arith in
    elim (Bool-cases (is_request_body r.body)) [
      | inr other ↦ ([], rw (link', well, here', other) refl)
      | inl request ↦ elim (Option-cases (make_ping_reply n.alloc r)) [
        | inl no_memory ↦ ([], rw (link', well, here', request, no_memory) refl)
        | inr (reply, made) ↦ (
          (send_to_next_hop n.config n.state reply).1,
          rw (link', well, here', request, made) refl,
        )
      ]
    ]

-- A packet of the user that its source finds a route for is carried along that route, one forwarder
-- after the other, each sending nothing else and staying as it was, and the destination hands it to
-- its user as it left the source, with the hop index at the end of the route. This holds for any
-- route that the source chooses, if the forwarders are the nodes of the route, none is the
-- destination, and the source and the forwarders do not mix and know the neighbor behind them.
pub routed_arrives :
    (src : Stop) (ns : List Stop) (last : Stop) (r : Routed)
    → Departs src ns r
    → CanForward ns r.header.dst_address
    → stop_addr last ≡ r.header.dst_address
    → last.arrival_port ≢ user_port last.config
    → Carried (src ∷ ns) r (at_end (departed src ns r))
      × ((replies : List Send) × ((handled_at last (at_end (departed src ns r))).1
            ≡ replies ++ (user_port last.config, packet_of (at_end (departed src ns r))) ∷ []))
unfolding Carried with_route
routed_arrives src ns last r d can here link =
    let sent = departed src ns r in
    let u = departed-IsUnderway src ns r d in
    let first = next_hop-first ns sent u in
    let (p, sends, leads) = sent_on src sent (subst (CanSend src) (sym first) d.can) in
    (
      (sent, (p, leaves src ns r d ∙ sends, leads), carried ns sent u can),
      delivered last (at_end sent) (arrived-well_formed src ns r d) here link,
    )
