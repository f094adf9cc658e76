-- ===== src/Node/Kept.antt =====
-- The handlers of STP packets and of link-state advertisements keep what holds of a node.
use mathlib.Core.List.Memᴰ
use cmu_mixnet.Prelude.{
  ℕ, zero, suc, ◌+◌, ◌≤◌, ◌≡◌, refl, sym, ap, subst, ◌∙◌, inl, inr, true, false, List, [], ◌∷◌,
  Memᴰ, arith, Option-cases, Bool-cases, length, length-set, set, take,
}
use cmu_mixnet.Packet.{StpPayload, LinkParams, LsaPayload, stp, lsa}
use cmu_mixnet.Config.{Config, Alloc}
use cmu_mixnet.Topology.{Graph, graph_update}
use cmu_mixnet.Topology.Update.{graph_update-Updated}
use cmu_mixnet.Topology.Invariant.{graph_update-IsTopology}
use cmu_mixnet.State.{NodeState, port_of, unblock_all}
use cmu_mixnet.Fib.{fib_reset, fill_table, update_shortest_path}
use cmu_mixnet.Fib.Stable.{
  IsRouting, IsRouting-same, IsRouting-grown, update_shortest_path-IsRouting,
}
use cmu_mixnet.Tree.{
  adopt_root, follow_parent, switch_parent, block_sibling, stp_branch, child_rule, alive_rule,
  handle_stp,
}
use cmu_mixnet.Tree.Election.{handle_stp-IsTree}
use cmu_mixnet.LinkState.{own_links, consume_lsa}
use cmu_mixnet.Node.Invariant.{
  HasCosts, IsHonest, IsTree-same, IsMixing-same, IsNode, HasPorts, length-clear_ports,
}

take_mem : (n : ℕ) (ls : List LinkParams) (l : LinkParams) → Memᴰ l (take n ls) → Memᴰ l ls
take_mem zero ls l m = absurd (Memᴰ.not-nil m)
take_mem (suc n) [] l m = absurd (Memᴰ.not-nil m)
take_mem (suc n) (x ∷ ls) l m = elim (Memᴰ.cases_cons m) [
  | inl e ↦ Memᴰ.head e
  | inr later ↦ Memᴰ.tail (take_mem n ls l later)
]

pub own_links_fit :
    (n p : ℕ) (c : Config) (s : NodeState)
    → HasCosts c
    → (l : LinkParams) → Memᴰ l (own_links n p c s)
    → l.cost ≤ 65535
unfolding own_links
own_links_fit zero p c s costs l m = absurd (Memᴰ.not-nil m)
own_links_fit (suc n) p c s costs l m = elim (Memᴰ.cases_cons m) [
  | inl e ↦ omega (arith, ap LinkParams.cost e, costs p)
  | inr later ↦ own_links_fit n (p + 1) c s costs l later
]

-- An advertisement that changes nothing may still name new addresses.
consume_lsa-IsRouting :
    (m : Alloc) (c : Config) (s : NodeState) (p : LsaPayload)
    → IsRouting c s
    → ((l : LinkParams) → Memᴰ l p.links → l.cost ≤ 65535)
    → IsRouting c (consume_lsa m c s p)
unfolding consume_lsa
consume_lsa-IsRouting m c s p r small =
    let ls = take p.neighbor_count p.links in
    let update = graph_update m s.topology p.node_address ls in
    let up = graph_update-Updated m s.topology p.node_address ls r.topology.indexed in
    elim (Bool-cases update.0) [
      | inl e ↦
          rw (e, consume_lsa)
            (update_shortest_path-IsRouting m c (record s { topology = update.1 })
              (graph_update-IsTopology m s.topology p.node_address ls r.topology
                (λ l k. small l (take_mem p.neighbor_count p.links l k))))
      | inr e ↦ elim up.outcome [
        | inl (_, same) ↦
            rw (e, consume_lsa)
              (subst (λ (g : Graph). IsRouting c (record s { topology = g })) (sym same)
                (IsRouting-grown s up.base r up.extends up.indexed))
        | inr (id, found, changed, _, _) ↦ absurd (cc)
      ]
    ]

-- An STP packet touches the tree and the two arrays.
stp_branch-HasPorts :
    (m : Alloc) (c : Config) (s : NodeState) (port : ℕ) (p : StpPayload)
    → HasPorts c s
    → HasPorts c (stp_branch m c s port p).0
unfolding stp_branch adopt_root follow_parent switch_parent block_sibling unblock_all
stp_branch-HasPorts m c s port p h =
    let whole = length-clear_ports c.num_neighbors 0 s.blocked in
    let sibling = length-set s.blocked port true in
    let direct = length-set s.blocked port false in
    let from_blocked =
      λ (q : ℕ). length-set (set s.blocked q true) port false ∙ length-set s.blocked q true in
    record {
      addresses = ground (arith, h.addresses);
      blocks = elim (Option-cases (port_of c s s.next_hop)) [
        | inl e ↦ ground (arith, h.blocks, whole, sibling, direct)
        | inr (q, e) ↦ ground (arith, h.blocks, whole, sibling, from_blocked q)
      ];
    }

rules-HasPorts :
    (c : Config) (s : NodeState) (port : ℕ) (p : StpPayload) (now : ℕ)
    → HasPorts c s
    → HasPorts c (alive_rule (child_rule s port p) p now)
unfolding alive_rule child_rule
rules-HasPorts c s port p now h = record {
  addresses = ground (arith, h.addresses);
  blocks = ground (arith, h.blocks, length-set s.blocked port false);
}

handle_stp_frame :
    (m : Alloc) (c : Config) (s : NodeState) (port : ℕ) (p : StpPayload) (now : ℕ)
    → (let s' = (handle_stp m c s port p now).0 in
        (s'.topology ≡ s.topology) × (s'.fib ≡ s.fib) × (s'.mix ≡ s.mix))
unfolding handle_stp stp_branch adopt_root follow_parent switch_parent block_sibling unblock_all
    alive_rule child_rule
handle_stp_frame m c s port p now = (ground arith, ground arith, ground arith)

pub handle_stp-IsNode :
    (m : Alloc) (c : Config) (s : NodeState) (port : ℕ) (p : StpPayload) (now : ℕ)
    → IsNode c s
    → IsHonest (stp p)
    → IsNode c (handle_stp m c s port p now).0
unfolding handle_stp
handle_stp-IsNode m c s port p now h honest =
    let known : NodeState = record s { neighbor_addr = set s.neighbor_addr port p.node_address } in
    let s' = (handle_stp m c s port p now).0 in
    let (topology, fib, mix) = handle_stp_frame m c s port p now in
    record {
      routing = IsRouting-same s s' topology fib h.routing;
      tree = handle_stp-IsTree m c s port p now h.tree honest.0 honest.1;
      mixing = IsMixing-same c s s' mix h.mixing;
      ports = rules-HasPorts c (stp_branch m c known port p).0 port p now (
          stp_branch-HasPorts m c known port p (record {
            addresses = length-set s.neighbor_addr port p.node_address ∙ h.ports.addresses;
            blocks = h.ports.blocks;
          }));
    }

update_frame :
    (m : Alloc) (c : Config) (s : NodeState)
    → (s' : NodeState) × (update_shortest_path m c s
        ≡ record s { topology = s'.topology; fib = s'.fib })
unfolding update_shortest_path fill_table fib_reset
update_frame m c s = (update_shortest_path m c s, ground arith)

consume_lsa_frame :
    (m : Alloc) (c : Config) (s : NodeState) (p : LsaPayload)
    → (s' : NodeState) × (consume_lsa m c s p ≡ record s { topology = s'.topology; fib = s'.fib })
unfolding consume_lsa
consume_lsa_frame m c s p =
    let update = graph_update m s.topology p.node_address (take p.neighbor_count p.links) in
    elim (Bool-cases update.0) [
      | inl e ↦ rw (e, consume_lsa) (update_frame m c (record s { topology = update.1 }))
      | inr e ↦ rw (e, consume_lsa) (record s { topology = update.1 }, refl)
    ]

pub consume_lsa-IsNode :
    (m : Alloc) (c : Config) (s : NodeState) (p : LsaPayload)
    → IsNode c s
    → IsHonest (lsa p)
    → IsNode c (consume_lsa m c s p)
consume_lsa-IsNode m c s p h honest =
    let s' = consume_lsa m c s p in
    let (x, same) = consume_lsa_frame m c s p in
    record {
      routing = consume_lsa-IsRouting m c s p h.routing honest;
      tree =
          IsTree-same c s s' (ap NodeState.root same) (ap NodeState.path_len same)
            (ap NodeState.next_hop same) h.tree;
      mixing = IsMixing-same c s s' (ap NodeState.mix same) h.mixing;
      ports = record {
        addresses = ap (λ (x : NodeState). length x.neighbor_addr) same ∙ h.ports.addresses;
        blocks = ap (λ (x : NodeState). length x.blocked) same ∙ h.ports.blocks;
      };
    }
