-- ===== src/Tree/Broadcast.antt =====
-- Which ports a broadcast reaches.
use mathlib.Core.List.Memᴰ
use mathlib.Core.Logic.{⊎_elim}
use cmu_mixnet.Prelude.{
  ℕ, zero, suc, ◌+◌, ◌≤◌, ◌<◌, ◌≡◌, ◌⊎◌, ◌↔◌, false, Option, List, ◌∷◌, Memᴰ, arith, u8,
}
use cmu_mixnet.Packet.{Packet, stp}
use cmu_mixnet.Config.{Config, Alloc, IsGranted, Send, stp_copy, tree_copy}
use cmu_mixnet.State.{NodeState, blocked_at}
use cmu_mixnet.Tree.{
  is_excepted, bid, make_stp_packet, stp_to_ports, broadcast_stp, clone_packet, copies_to_ports,
  broadcast_on_tree,
}

-- The packet of a bid.
abbrev pub bid_packet : Config → NodeState → Packet
bid_packet c s = record { total_size = 18; payload = stp (bid c s) }

-- Membership in a list that one more port may add to.
Memᴰ-cons_iff : (x : Send) (a : Send) (xs : List Send) → Memᴰ x (a ∷ xs) ↔ ((x ≡ a) ⊎ Memᴰ x xs)
Memᴰ-cons_iff x a xs = (Memᴰ.cases_cons, ⊎_elim Memᴰ.head Memᴰ.tail)

stp_to_ports_mem :
    (m : Alloc) (n p : ℕ) (c : Config) (s : NodeState) (except : Option ℕ) (q : ℕ) (packet : Packet)
    → IsGranted m
    → p + n ≤ 256
    → Memᴰ (q, packet) (stp_to_ports m n p c s except)
      ↔ ((p ≤ q) × (q < p + n) × (is_excepted except q ≡ false) × (packet ≡ bid_packet c s))
unfolding stp_to_ports make_stp_packet
stp_to_ports_mem m zero p c s except q packet granted small =
    (λ k. absurd (Memᴰ.not-nil k), λ k. absurd (omega arith))
stp_to_ports_mem m (suc n) p c s except q packet granted small = ground (
  arith,
  stp_to_ports_mem m n (p + 1) c s except q packet granted,
  granted stp_copy p,
  Memᴰ-cons_iff (q, packet) (u8 p, bid_packet c s) (stp_to_ports m n (p + 1) c s except),
)

copies_to_ports_mem :
    (m : Alloc) (n p : ℕ) (s : NodeState) (except : Option ℕ) (sent : Packet) (q : ℕ)
    (packet : Packet)
    → IsGranted m
    → p + n ≤ 256
    → Memᴰ (q, packet) (copies_to_ports m n p s except sent) ↔ (
        (p ≤ q)
        × (q < p + n)
        × (is_excepted except q ≡ false)
        × (blocked_at s q ≡ false)
        × (packet ≡ sent))
unfolding copies_to_ports clone_packet
copies_to_ports_mem m zero p s except sent q packet granted small =
    (λ k. absurd (Memᴰ.not-nil k), λ k. absurd (omega arith))
copies_to_ports_mem m (suc n) p s except sent q packet granted small = ground (
  arith,
  copies_to_ports_mem m n (p + 1) s except sent q packet granted,
  granted tree_copy p,
  Memᴰ-cons_iff (q, packet) (u8 p, sent) (copies_to_ports m n (p + 1) s except sent),
)

-- With memory granted, and ports that fit uint8_t, the node's bid goes out on every port but the
-- excepted one, on blocked ports too, and nothing else is sent.
pub broadcast_stp_mem :
    (m : Alloc) (c : Config) (s : NodeState) (except : Option ℕ) (q : ℕ) (packet : Packet)
    → IsGranted m
    → c.num_neighbors ≤ 256
    → Memᴰ (q, packet) (broadcast_stp m c s except)
      ↔ ((q < c.num_neighbors) × (is_excepted except q ≡ false) × (packet ≡ bid_packet c s))
unfolding broadcast_stp
broadcast_stp_mem m c s except q packet granted small =
    ground (arith, stp_to_ports_mem m c.num_neighbors 0 c s except q packet granted)

-- With memory granted, and ports that fit uint8_t, a copy of the packet goes out on every tree link
-- but the excepted one, and on no other port.
pub broadcast_on_tree_mem :
    (m : Alloc) (c : Config) (s : NodeState) (except : Option ℕ) (sent : Packet) (q : ℕ)
    (packet : Packet)
    → IsGranted m
    → c.num_neighbors ≤ 256
    → Memᴰ (q, packet) (broadcast_on_tree m c s except sent) ↔ (
        (q < c.num_neighbors)
        × (is_excepted except q ≡ false)
        × (blocked_at s q ≡ false)
        × (packet ≡ sent))
unfolding broadcast_on_tree
broadcast_on_tree_mem m c s except sent q packet granted small =
    ground (arith, copies_to_ports_mem m c.num_neighbors 0 s except sent q packet granted)
