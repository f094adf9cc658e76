-- ===== src/Node/Invariant.antt =====
-- What holds of a node between any two rounds of its loop.
use mathlib.Core.List.Memᴰ
use cmu_mixnet.Prelude.{
  ℕ, zero, suc, ◌+◌, ◌≤◌, ◌<◌, ◌≡◌, ◌≢◌, refl, Memᴰ, get_or, sym, ap, subst, ◌∙◌, inl, inr, Bool,
  false, set, none, some, List, [], ◌∷◌, arith, ltb, Bool-cases, length, length-set,
  length-replicate,
}
use cmu_mixnet.Config.{Config, Alloc}
use cmu_mixnet.Node.{Round}
use cmu_mixnet.Packet.{LinkParams, Payload, stp, flood, lsa, routed, unknown, invalid_mixaddr}
use cmu_mixnet.Topology.Invariant.{IsTopology}
use cmu_mixnet.State.{NodeState, empty_graph, state_init, clear_ports, become_root}
use cmu_mixnet.Fib.{fib_lookup}
use cmu_mixnet.Fib.Stable.{IsRouting}
use cmu_mixnet.Tree.Election.{IsTree}
use cmu_mixnet.Mixing.Batch.{IsMixing}

-- The arrays that the ports index have an element for each neighbor.
pub record HasPorts (c : Config) (s : NodeState) : Type 0 where
  pub addresses : length s.neighbor_addr ≡ c.num_neighbors
  pub blocks : length s.blocked ≡ c.num_neighbors

pub record IsNode (c : Config) (s : NodeState) : Type 0 where
  pub routing : IsRouting c s
  pub tree : IsTree c s
  pub mixing : IsMixing c s
  pub ports : HasPorts c s

pub empty_graph-IsTopology : IsTopology empty_graph
empty_graph-IsTopology = record {
  indexed = record {
    ids = λ i lt. absurd (omega arith);
    room = omega arith;
    capacity_u16 = omega arith;
  };
  closed = λ u l m. absurd (Memᴰ.not-nil m);
  costs_u16 = λ u l m. absurd (Memᴰ.not-nil m);
}

empty_table : (s : NodeState) (dst : ℕ) → s.fib ≡ [] → fib_lookup s dst ≡ none
unfolding fib_lookup
empty_table s dst e = ground arith

empty-IsRouting :
    (c : Config) (s : NodeState) → s.topology ≡ empty_graph → s.fib ≡ [] → IsRouting c s
empty-IsRouting c s e f = record {
  topology = subst IsTopology (sym e) empty_graph-IsTopology;
  sized = omega (arith, ap length f);
  sound = record { entries = λ dst entry h. absurd (let e = empty_table s dst f in cc) };
}

pub length-clear_ports :
    (n p : ℕ) (blocked : List Bool) → length (clear_ports n p blocked) ≡ length blocked
unfolding clear_ports
length-clear_ports zero p blocked = refl
length-clear_ports (suc n) p blocked =
    length-clear_ports n (p + 1) (set blocked p false) ∙ length-set blocked p false

-- The state that a node starts from.
pub state_init-IsNode :
    (m : Alloc) (c : Config) (hello reelection lsa_ms : ℕ) (s : NodeState)
    → state_init m c hello reelection lsa_ms ≡ some s
    → IsNode c s
unfolding state_init become_root
state_init-IsNode m c hello reelection lsa_ms s h = record {
  routing = empty-IsRouting c s (ground arith) (ground arith);
  tree = record {
    root-le = ground arith;
    own_root = ground arith;
    no_distance = ground arith;
    no_parent = ground arith;
  };
  mixing = elim (Bool-cases (ltb 1 c.mixing_factor)) [
    | inl big ↦ inr (ground arith, ([], ground arith, ground arith))
    | inr small ↦ inl (ground arith, ground arith)
  ];
  ports = record {
    addresses = ground (arith, length-replicate c.num_neighbors invalid_mixaddr);
    blocks = ground (arith, length-replicate c.num_neighbors false);
  };
}

-- What the parts look at.
pub IsTree-same :
    (c : Config) (s s' : NodeState)
    → s'.root ≡ s.root
    → s'.path_len ≡ s.path_len
    → s'.next_hop ≡ s.next_hop
    → IsTree c s
    → IsTree c s'
IsTree-same c s s' e f g h = record {
  root-le = ground (arith, h.root-le);
  own_root = ground (arith, h.own_root);
  no_distance = ground (arith, h.no_distance);
  no_parent = ground (arith, h.no_parent);
}

pub IsMixing-same : (c : Config) (s s' : NodeState) → s'.mix ≡ s.mix → IsMixing c s → IsMixing c s'
IsMixing-same c s s' e h = rw (e) h

-- What a neighbor that runs the protocol sends: a distance that can be incremented and a valid
-- address, and link costs of uint16_t.
abbrev pub IsHonest : Payload → Type 0
IsHonest (stp p) = (p.path_length < 65535) × (p.node_address ≢ invalid_mixaddr)
IsHonest flood = Unit
IsHonest (lsa p) = (l : LinkParams) → Memᴰ l p.links → l.cost ≤ 65535
IsHonest (routed h b) = Unit
IsHonest (unknown t) = Unit

abbrev pub MeetsHonest : Round → Type 0
MeetsHonest e = elim e.received [ none ↦ Unit | some (port, packet) ↦ IsHonest packet.payload ]

abbrev pub MeetHonest : List Round → Type 0
MeetHonest [] = Unit
MeetHonest (e ∷ es) = MeetsHonest e × MeetHonest es

-- The costs of the configuration are of uint16_t.
abbrev pub HasCosts : Config → Type 0
HasCosts c = (p : ℕ) → get_or c.link_costs p 0 ≤ 65535
