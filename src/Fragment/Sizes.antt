-- ===== src/Fragment/Sizes.antt =====
-- The packets that the node makes are the ones that its ports accept.
use cmu_mixnet.Prelude.{
  ℕ, zero, suc, ◌+◌, ◌*◌, ◌≤◌, ◌≡◌, refl, ◌++◌, inl, inr, Bool, true, false, ◌&&◌, ◌||◌, Option,
  some, List, [], ◌∷◌, arith, ◌==◌, ltb, leb, Bool-cases,
}
use cmu_mixnet.Packet.{
  Payload, stp, flood, lsa, routed, unknown, user_bytes, ping_body, Packet, packet_type,
}
use cmu_mixnet.Config.{Config, Alloc, Send, lsa_copy}
use cmu_mixnet.State.{NodeState}
use cmu_mixnet.Tree.{
  make_stp_packet, stp_to_ports, broadcast_stp, clone_packet, copies_to_ports, broadcast_on_tree,
}
use cmu_mixnet.LinkState.{make_lsa_packet}
use cmu_mixnet.ErrorCode.{ErrorCode}

-- The bytes of a packet on the wire, counted off the structs of mixnet/packet.h: the header has 12;
-- an STP packet has three addresses behind it; an LSA packet an address, a count, and four bytes for
-- each link; a PING packet the routing header's 8, two for each hop, and 10 of its own. A DATA
-- packet may have any size, and no other type is known.
abbrev pub has_wire_size : ℕ → Payload → Bool
has_wire_size n (stp p) = n == 18
has_wire_size n flood = n == 12
has_wire_size n (lsa p) = n == 16 + 4 * p.neighbor_count
has_wire_size n (routed h (user_bytes b)) = true
has_wire_size n (routed h (ping_body p)) = n == 30 + 2 * h.route_length
has_wire_size n (unknown t) = false

-- The declared size is in bounds and the packet's size on the wire.
unfoldable pub well_sized : Packet → Bool
well_sized p = leb 12 p.total_size && leb p.total_size 4096 && has_wire_size p.total_size p.payload

-- FLOOD, DATA and PING by their numbers.
abbrev pub is_for_user : Packet → Bool
is_for_user p =
    (packet_type p.payload == 1) || (packet_type p.payload == 3) || (packet_type p.payload == 4)

-- A well-sized packet on a port of a neighbor, or a FLOOD, DATA or PING packet on the user's port.
unfoldable pub acceptable : ℕ → ℕ → Packet → Bool
unfolding packet_type
acceptable n q p = well_sized p && (ltb q n || ((q == n) && is_for_user p))

unfoldable pub all_acceptable : ℕ → List Send → Bool
all_acceptable n [] = true
all_acceptable n ((q, p) ∷ xs) = acceptable n q p && all_acceptable n xs

pub all_acceptable-append :
    (n : ℕ) (xs ys : List Send)
    → all_acceptable n xs ≡ true
    → all_acceptable n ys ≡ true
    → all_acceptable n (xs ++ ys) ≡ true
unfolding all_acceptable
all_acceptable-append n [] ys h k = k
all_acceptable-append n ((q, p) ∷ xs) ys h k =
    ground (arith, all_acceptable-append n xs ys (ground arith) k)

stp_to_ports-acceptable :
    (m : Alloc) (k i : ℕ) (c : Config) (s : NodeState) (except : Option ℕ)
    → i + k ≤ c.num_neighbors
    → c.num_neighbors ≤ 255
    → all_acceptable c.num_neighbors (stp_to_ports m k i c s except) ≡ true
unfolding stp_to_ports make_stp_packet acceptable all_acceptable well_sized
stp_to_ports-acceptable m zero i c s except lt small = refl
stp_to_ports-acceptable m (suc k) i c s except lt small =
    ground (arith, stp_to_ports-acceptable m k (i + 1) c s except (omega arith) small)

copies_to_ports-acceptable :
    (m : Alloc) (k n i : ℕ) (s : NodeState) (except : Option ℕ) (p : Packet)
    → i + k ≤ n
    → n ≤ 255
    → well_sized p ≡ true
    → all_acceptable n (copies_to_ports m k i s except p) ≡ true
unfolding copies_to_ports clone_packet acceptable all_acceptable
copies_to_ports-acceptable m zero n i s except p lt small ok = refl
copies_to_ports-acceptable m (suc k) n i s except p lt small ok =
    ground (arith, copies_to_ports-acceptable m k n (i + 1) s except p (omega arith) small ok)

-- Every hello fits its port: with at most 255 neighbors, no bid that this node sends is refused.
pub broadcast_stp-acceptable :
    (m : Alloc) (c : Config) (s : NodeState) (except : Option ℕ)
    → c.num_neighbors ≤ 255
    → all_acceptable c.num_neighbors (broadcast_stp m c s except) ≡ true
unfolding broadcast_stp
broadcast_stp-acceptable m c s except small =
    stp_to_ports-acceptable m c.num_neighbors 0 c s except (omega arith) small

pub broadcast_on_tree-acceptable :
    (m : Alloc) (c : Config) (s : NodeState) (except : Option ℕ) (p : Packet)
    → c.num_neighbors ≤ 255
    → well_sized p ≡ true
    → all_acceptable c.num_neighbors (broadcast_on_tree m c s except p) ≡ true
unfolding broadcast_on_tree
broadcast_on_tree-acceptable m c s except p small ok =
    copies_to_ports-acceptable m c.num_neighbors c.num_neighbors 0 s except p (omega arith) small ok

pub make_lsa_packet-well_sized :
    (m : Alloc) (c : Config) (s : NodeState) (p : Packet)
    → c.num_neighbors ≤ 255
    → make_lsa_packet m c s ≡ some p
    → well_sized p ≡ true
unfolding make_lsa_packet well_sized
make_lsa_packet-well_sized m c s p small h = elim (Bool-cases (m lsa_copy 0)) [
  | inl e ↦ ground arith
  | inr e ↦ absurd (ground arith)
]
