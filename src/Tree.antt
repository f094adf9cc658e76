-- ===== src/Tree.antt =====
-- The spanning tree and what travels on it (make_stp_packet, broadcast_stp, broadcast_on_tree,
-- handle_stp and handle_flood of mixnet/node.c). A handler takes the granted allocations, the
-- configuration and the state, and returns the new state with the packets it sends, in order.
pub mod Broadcast
pub mod Election
pub mod Blocking
pub mod Flooding
use cmu_mixnet.Prelude.{
  ℕ, zero, suc, ◌+◌, Bool, true, false, ◌&&◌, ◌||◌, Option, none, some, List, [], ◌∷◌, ◌++◌,
  if◌then◌else◌, ◌==◌, ltb, leb, set, u8, u16,
}
use cmu_mixnet.Packet.{StpPayload, Packet, packet_header_size, stp_size, stp}
use cmu_mixnet.Config.{Config, Alloc, Send, stp_copy, tree_copy}
use cmu_mixnet.State.{NodeState, blocked_at, port_of, unblock_all}

-- p == except_port, where none is the -1 that excepts no port.
abbrev pub is_excepted : Option ℕ → ℕ → Bool
is_excepted none p = false
is_excepted (some q) p = p == q

abbrev pub bid : Config → NodeState → StpPayload
bid c s = record { root_address = s.root; path_length = s.path_len; node_address = c.node_addr }

unfoldable pub make_stp_packet : Alloc → ℕ → Config → NodeState → Option Packet
make_stp_packet m p c s =
    if m stp_copy p
    then some (record { total_size = u16 (packet_header_size + stp_size); payload = stp (bid c s) })
    else none

-- The ports from `p` on, `n` of them.
unfoldable pub stp_to_ports : Alloc → ℕ → ℕ → Config → NodeState → Option ℕ → List Send
unfolding make_stp_packet
stp_to_ports m zero p c s except = []
stp_to_ports m (suc n) p c s except =
    let rest = stp_to_ports m n (p + 1) c s except in
    if is_excepted except p
    then rest
    else elim (make_stp_packet m p c s) [ none ↦ rest | some packet ↦ (u8 p, packet) ∷ rest ]

unfoldable pub broadcast_stp : Alloc → Config → NodeState → Option ℕ → List Send
unfolding stp_to_ports
broadcast_stp m c s except = stp_to_ports m c.num_neighbors 0 c s except

-- A copy of the packet for port `p`.
unfoldable pub clone_packet : Alloc → ℕ → Packet → Option Packet
clone_packet m p packet = if m tree_copy p then some packet else none

unfoldable pub copies_to_ports : Alloc → ℕ → ℕ → NodeState → Option ℕ → Packet → List Send
unfolding clone_packet
copies_to_ports m zero p s except packet = []
copies_to_ports m (suc n) p s except packet =
    let rest = copies_to_ports m n (p + 1) s except packet in
    if is_excepted except p || blocked_at s p
    then rest
    else elim (clone_packet m p packet) [ none ↦ rest | some copy ↦ (u8 p, copy) ∷ rest ]

unfoldable pub broadcast_on_tree : Alloc → Config → NodeState → Option ℕ → Packet → List Send
unfolding copies_to_ports
broadcast_on_tree m c s except packet = copies_to_ports m c.num_neighbors 0 s except packet

-- The four branches that change the node's own state.
unfoldable pub adopt_root : Config → NodeState → StpPayload → NodeState
adopt_root c s p = unblock_all c (record s {
  root = p.root_address;
  path_len = u16 (p.path_length + 1);
  next_hop = p.node_address;
})

unfoldable pub follow_parent : NodeState → StpPayload → NodeState
follow_parent s p = record s { path_len = u16 (p.path_length + 1) }

abbrev pub block : List Bool → Option ℕ → List Bool
block blocked none = blocked
block blocked (some q) = set blocked q true

unfoldable pub switch_parent : Config → NodeState → ℕ → StpPayload → NodeState
switch_parent c s port p = record s {
  blocked = set (block s.blocked (port_of c s s.next_hop)) port false;
  path_len = u16 (p.path_length + 1);
  next_hop = p.node_address;
}

unfoldable pub block_sibling : NodeState → ℕ → NodeState
block_sibling s port = record s { blocked = set s.blocked port true }

-- A better path to the same root, or one as good through a smaller neighbor.
abbrev pub is_better_path : NodeState → StpPayload → Bool
is_better_path s p =
    ltb (p.path_length + 1) s.path_len
    || (ltb p.path_length s.path_len && ltb p.node_address s.next_hop)

-- The branch chain.
unfoldable pub stp_branch : Alloc → Config → NodeState → ℕ → StpPayload → NodeState × List Send
stp_branch m c s port p =
    if ltb p.root_address s.root
    then (let s' = adopt_root c s p in (s', broadcast_stp m c s' none))
    else if (p.root_address == s.root) && (p.node_address == s.next_hop)
    then (let s' = follow_parent s p in (s', broadcast_stp m c s' (some port)))
    else if (p.root_address == s.root) && is_better_path s p
    then (let s' = switch_parent c s port p in (s', broadcast_stp m c s' none))
    else if (p.root_address == s.root) && leb p.path_length s.path_len
    then (block_sibling s port, [])
    else (s, [])

-- The sender claims to be our child.
unfoldable pub child_rule : NodeState → ℕ → StpPayload → NodeState
child_rule s port p =
    if (p.root_address == s.root) && (p.path_length == s.path_len + 1)
    then record s { blocked = set s.blocked port false }
    else s

-- The sender shows that our path to the root is alive.
unfoldable pub alive_rule : NodeState → StpPayload → ℕ → NodeState
alive_rule s p now =
    if (p.node_address == s.next_hop) && (p.root_address == s.root)
    then record s { reelection_start_ms = now }
    else s

unfoldable pub handle_stp : Alloc → Config → NodeState → ℕ → StpPayload → ℕ → NodeState × List Send
unfolding stp_branch child_rule alive_rule
handle_stp m c s port p now =
    let known = record s { neighbor_addr = set s.neighbor_addr port p.node_address } in
    let (s', sent) = stp_branch m c known port p in (alive_rule (child_rule s' port p) p now, sent)

-- (uint8_t) c->num_neighbors
abbrev pub user_port : Config → ℕ
user_port c = u8 c.num_neighbors

unfoldable pub handle_flood : Alloc → Config → NodeState → ℕ → Packet → List Send
handle_flood m c s port packet =
    let from_user = port == user_port c in
    let copies = broadcast_on_tree m c s (some port) packet in
    if from_user
    then copies
    else if blocked_at s port
    then []
    else copies ++ (user_port c, packet) ∷ []
