-- ===== src/Node/Remixed.antt =====
-- The handler of routed packets keeps what holds of a node.
use cmu_mixnet.Prelude.{
  ℕ, ◌+◌, ◌≡◌, refl, ap, ◌∙◌, inl, inr, not, Option, List, ltb, ◌==◌, Option-cases, Bool-cases,
  length, u16,
}
use cmu_mixnet.Packet.{Routed, max_mixnet_packet_size}
use cmu_mixnet.Config.{Config, Alloc}
use cmu_mixnet.State.{NodeState, MixSlot}
use cmu_mixnet.Fib.{fib_lookup}
use cmu_mixnet.Fib.Stable.{IsRouting-same}
use cmu_mixnet.Tree.{user_port}
use cmu_mixnet.Mixing.{send_to_next_hop}
use cmu_mixnet.Mixing.Batch.{IsMixing, send_to_next_hop-Batched}
use cmu_mixnet.Routing.{
  routed_size, tail_size, chosen_route, with_route, routed_packet_is_well_formed, source_route,
  make_ping_reply, is_request_body, is_next_hop, deliver, forward, handle_routed,
}
use cmu_mixnet.Node.Invariant.{IsTree-same, IsNode}

-- A packet on its way changes the mixing buffer only.
abbrev IsRemixed : Config → NodeState → NodeState → Type 0
IsRemixed c s s' = (mix : Option (List MixSlot)) × (s' ≡ record s { mix = mix }) × IsMixing c s'

send_to_next_hop-IsRemixed :
    (c : Config) (s : NodeState) (r : Routed)
    → IsMixing c s
    → IsRemixed c s (send_to_next_hop c s r).0
send_to_next_hop-IsRemixed c s r h =
    let (mix, same, kept, _, _) = send_to_next_hop-Batched c s r h in (mix, same, kept)

source_route-IsRemixed :
    (m : Alloc) (c : Config) (s : NodeState) (r : Routed) (now random : ℕ)
    → IsMixing c s
    → IsRemixed c s (source_route m c s r now random).0
unfolding source_route
source_route-IsRemixed m c s r now random h =
    elim (Option-cases (fib_lookup s r.header.dst_address)) [
      | inl e ↦ rw (e, source_route) (s.mix, refl, h)
      | inr (entry, e) ↦
          let route = chosen_route m c s r.header.dst_address entry.route random in
          elim (Bool-cases
            (ltb max_mixnet_packet_size (routed_size (length route) + tail_size r))) [
              | inl big ↦ rw (e, big, source_route) (s.mix, refl, h)
              | inr fits ↦
                  rw (e, fits, source_route)
                    (send_to_next_hop-IsRemixed c s (with_route r route now) h)
            ]
    ]

deliver-IsRemixed :
    (m : Alloc) (c : Config) (s : NodeState) (r : Routed)
    → IsMixing c s
    → IsRemixed c s (deliver m c s r).0
unfolding deliver
deliver-IsRemixed m c s r h = elim (Bool-cases (is_request_body r.body)) [
  | inr e ↦ rw (e, deliver) (s.mix, refl, h)
  | inl e ↦ elim (Option-cases (make_ping_reply m r)) [
    | inl e' ↦ rw (e, e', deliver) (s.mix, refl, h)
    | inr (reply, e') ↦ rw (e, e', deliver) (send_to_next_hop-IsRemixed c s reply h)
  ]
]

forward-IsRemixed :
    (c : Config) (s : NodeState) (r : Routed) → IsMixing c s → IsRemixed c s (forward c s r).0
unfolding forward
forward-IsRemixed c s r h =
    let next : Routed = record r {
      header = record (r.header) { hop_index = u16 (r.header.hop_index + 1) };
    } in
    elim (Bool-cases (is_next_hop c r.header)) [
      | inl e ↦ rw (e, forward) (send_to_next_hop-IsRemixed c s next h)
      | inr e ↦ rw (e, forward) (s.mix, refl, h)
    ]

handle_routed-IsRemixed :
    (m : Alloc) (c : Config) (s : NodeState) (port : ℕ) (r : Routed) (now random : ℕ)
    → IsMixing c s
    → IsRemixed c s (handle_routed m c s port r now random).0
unfolding handle_routed
handle_routed-IsRemixed m c s port r now random h =
    elim (Bool-cases (not (routed_packet_is_well_formed r (not (port == user_port c))))) [
      | inl e ↦ rw (e, handle_routed) (s.mix, refl, h)
      | inr e ↦ elim (Bool-cases (port == user_port c)) [
        | inl f ↦ rw (e, f, handle_routed) (source_route-IsRemixed m c s r now random h)
        | inr f ↦ elim (Bool-cases (r.header.dst_address == c.node_addr)) [
          | inl g ↦ rw (e, f, g, handle_routed) (deliver-IsRemixed m c s r h)
          | inr g ↦ rw (e, f, g, handle_routed) (forward-IsRemixed c s r h)
        ]
      ]
    ]

pub handle_routed-IsNode :
    (m : Alloc) (c : Config) (s : NodeState) (port : ℕ) (r : Routed) (now random : ℕ)
    → IsNode c s
    → IsNode c (handle_routed m c s port r now random).0
handle_routed-IsNode m c s port r now random h =
    let s' = (handle_routed m c s port r now random).0 in
    let (mix, same, mixing) = handle_routed-IsRemixed m c s port r now random h.mixing in
    record {
      routing = IsRouting-same s s' (ap NodeState.topology same) (ap NodeState.fib same) h.routing;
      tree =
          IsTree-same c s s' (ap NodeState.root same) (ap NodeState.path_len same)
            (ap NodeState.next_hop same) h.tree;
      mixing = mixing;
      ports = record {
        addresses = ap (λ (x : NodeState). length x.neighbor_addr) same ∙ h.ports.addresses;
        blocks = ap (λ (x : NodeState). length x.blocked) same ∙ h.ports.blocks;
      };
    }
