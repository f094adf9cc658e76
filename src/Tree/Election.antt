-- ===== src/Tree/Election.antt =====
-- The spanning-tree variables: root, distance and parent.
use cmu_mixnet.Prelude.{
  ℕ, ◌+◌, ◌≤◌, ◌<◌, ◌≡◌, ◌≢◌, Bool, ◌&&◌, ◌||◌, arith, ◌==◌, ltb, if◌then◌else◌,
}
use cmu_mixnet.Packet.{StpPayload, invalid_mixaddr}
use cmu_mixnet.Config.{Config, Alloc}
use cmu_mixnet.State.{NodeState, unblock_all}
use cmu_mixnet.Tree.{adopt_root, follow_parent, switch_parent, block_sibling, handle_stp}

-- root == config.node_addr <=> path_len == 0 <=> next_hop == INVALID_MIXADDR, and the root is never
-- worse than the node itself.
pub record IsTree (c : Config) (s : NodeState) : Type 0 where
  pub root-le : s.root ≤ c.node_addr
  pub own_root : s.root ≡ c.node_addr → (s.path_len ≡ 0) × (s.next_hop ≡ invalid_mixaddr)
  pub no_distance : s.path_len ≡ 0 → s.root ≡ c.node_addr
  pub no_parent : s.next_hop ≡ invalid_mixaddr → s.root ≡ c.node_addr

-- A view of the tree: the root, the distance to it and the parent, compared in this order.
pub record View : Type 0 where
  pub root : ℕ
  pub distance : ℕ
  pub parent : ℕ

abbrev pub view : NodeState → View
view s = record { root = s.root; distance = s.path_len; parent = s.next_hop }

-- What the sender of a bid offers.
abbrev pub offer : StpPayload → View
offer p = record { root = p.root_address; distance = p.path_length + 1; parent = p.node_address }

abbrev pub view_lt : View → View → Bool
view_lt a b =
    ltb a.root b.root
    || ((a.root == b.root)
        && (ltb a.distance b.distance || ((a.distance == b.distance) && ltb a.parent b.parent)))

-- The offer of the parent under the same root is taken whatever it is, any other only if it is
-- smaller.
abbrev pub elected : View → View → View
elected now new =
    if ((new.root == now.root) && (new.parent == now.parent)) || view_lt new now then new else now

-- An STP packet with a distance that can be incremented makes the node's root, distance and parent
-- the lexicographically smaller of what they were and what the sender offers, except that the
-- parent's offer under the same root replaces them.
pub handle_stp_elects :
    (m : Alloc) (c : Config) (s : NodeState) (port : ℕ) (p : StpPayload) (now : ℕ)
    → p.path_length < 65535
    → view (handle_stp m c s port p now).0 ≡ elected (view s) (offer p)
unfolding handle_stp adopt_root follow_parent switch_parent block_sibling unblock_all
handle_stp_elects m c s port p now h = ground arith

-- The three readings of "I am the root" stay equivalent under every STP packet whose sender has a
-- valid address and a distance that can be incremented.
pub handle_stp-IsTree :
    (m : Alloc) (c : Config) (s : NodeState) (port : ℕ) (p : StpPayload) (now : ℕ)
    → IsTree c s
    → p.path_length < 65535
    → p.node_address ≢ invalid_mixaddr
    → IsTree c (handle_stp m c s port p now).0
unfolding handle_stp adopt_root follow_parent switch_parent block_sibling unblock_all
handle_stp-IsTree m c s port p now t small valid = ground arith
