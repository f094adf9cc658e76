-- ===== src/LinkState.antt =====
-- Link-state advertisements (make_lsa_packet, originate_lsa and handle_lsa of mixnet/node.c).
use cmu_mixnet.Prelude.{
  ℕ, zero, suc, ◌+◌, ◌*◌, Bool, true, false, ◌||◌, Option, none, some, List, [], ◌∷◌, if◌then◌else◌,
  ◌==◌, ltb, get_or, take, u16,
}
use cmu_mixnet.Packet.{
  LinkParams, LsaPayload, Packet, lsa, packet_header_size, lsa_size, link_params_size,
  invalid_mixaddr,
}
use cmu_mixnet.Config.{Config, Alloc, Send, lsa_copy}
use cmu_mixnet.Topology.{graph_update}
use cmu_mixnet.State.{NodeState, neighbor_at, blocked_at}
use cmu_mixnet.Fib.{update_shortest_path}
use cmu_mixnet.Tree.{broadcast_on_tree, user_port}

-- LSA_PACKET_SIZE(n)
abbrev pub lsa_packet_size : ℕ → ℕ
lsa_packet_size n = packet_header_size + lsa_size + link_params_size * n

-- The links of the ports from `p` on, `n` of them.
unfoldable pub own_links : ℕ → ℕ → Config → NodeState → List LinkParams
own_links zero p c s = []
own_links (suc n) p c s =
    record { neighbor_mixaddr = neighbor_at s p; cost = get_or c.link_costs p 0 }
    ∷ own_links n (p + 1) c s

abbrev pub own_lsa : Config → NodeState → LsaPayload
unfolding own_links
own_lsa c s = record {
  node_address = c.node_addr;
  neighbor_count = c.num_neighbors;
  links = own_links c.num_neighbors 0 c s;
}

unfoldable pub make_lsa_packet : Alloc → Config → NodeState → Option Packet
unfolding own_links
make_lsa_packet m c s =
    if m lsa_copy 0
    then some
        (record { total_size = u16 (lsa_packet_size c.num_neighbors); payload = lsa (own_lsa c s) })
    else none

-- Every port from `p` on, `n` of them, has told its neighbor's address.
pub all_known : ℕ → ℕ → NodeState → Bool
all_known zero p s = true
all_known (suc n) p s = if neighbor_at s p == invalid_mixaddr then false else all_known n (p + 1) s

-- Install an advertisement, and rebuild the forwarding table if the topology changed.
unfoldable pub consume_lsa : Alloc → Config → NodeState → LsaPayload → NodeState
consume_lsa m c s p =
    let (changed, g) = graph_update m s.topology p.node_address (take p.neighbor_count p.links) in
    let s' = record s { topology = g } in if changed then update_shortest_path m c s' else s'

unfoldable pub originate_lsa : Alloc → Config → NodeState → NodeState × List Send
unfolding make_lsa_packet all_known consume_lsa
originate_lsa m c s =
    if all_known c.num_neighbors 0 s
    then elim (make_lsa_packet m c s) [
      | none ↦ (s, [])
      | some packet ↦
          let s' = consume_lsa m c s (own_lsa c s) in (s', broadcast_on_tree m c s' none packet)
    ]
    else (s, [])

unfoldable pub handle_lsa :
    Alloc → Config → NodeState → ℕ → (size : ℕ) → LsaPayload → NodeState × List Send
unfolding consume_lsa
handle_lsa m c s port size p =
    if port == user_port c
    then (s, [])
    else if ltb size (lsa_packet_size 0) || ltb size (lsa_packet_size p.neighbor_count)
    then (s, [])
    else if p.node_address == c.node_addr
    then (s, [])
    else if blocked_at s port
    then (s, [])
    else let s' = consume_lsa m c s p in
      (s', broadcast_on_tree m c s' (some port) (record { total_size = size; payload = lsa p }))
