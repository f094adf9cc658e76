-- ===== src/Mixing.antt =====
-- The way from a routed packet to the wire, and the batch that mixing holds back
-- (send_to_next_hop of mixnet/node.c).
pub mod Batch
use cmu_mixnet.Prelude.{
  ℕ, none, some, List, [], ◌∷◌, ◌++◌, map, if◌then◌else◌, ltb, leb, length, get_or, u8,
}
use cmu_mixnet.Packet.{RoutingHeader, Routed, packet_of}
use cmu_mixnet.Config.{Config, Send}
use cmu_mixnet.State.{MixSlot, NodeState, port_of}

-- The route entry that the hop index points at, or the destination at the end of the route.
unfoldable pub next_hop_of : RoutingHeader → ℕ
next_hop_of h =
    if ltb h.hop_index h.route_length then get_or h.route h.hop_index 0 else h.dst_address

abbrev pub sent_slot : MixSlot → Send
sent_slot slot = (slot.port, slot.packet)

-- The buffer with one more slot in use; it is flushed when the batch is complete.
unfoldable pub enqueue : Config → NodeState → List MixSlot → MixSlot → NodeState × List Send
enqueue c s held slot =
    let held' = held ++ slot ∷ [] in
    if leb c.mixing_factor (length held')
    then (record s { mix = some [] }, map sent_slot held')
    else (record s { mix = some held' }, [])

unfoldable pub send_to_next_hop : Config → NodeState → Routed → NodeState × List Send
send_to_next_hop c s r = elim (port_of c s (next_hop_of r.header)) [
  | none ↦ (s, [])
  | some port ↦ elim s.mix [
    | none ↦ (s, (u8 port, packet_of r) ∷ [])
    | some held ↦ enqueue c s held (record { port = u8 port; packet = packet_of r })
  ]
]
