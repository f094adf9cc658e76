-- ===== src/Tests/Network.antt =====
-- Node 1 of a triangle, whose link to node 3 costs more than the way over node 2.
use mathlib.Core.List.Memᴰ
use cmu_mixnet.Prelude.{
  ℕ, ◌≤◌, ◌≡◌, refl, inl, inr, Bool, true, false, ◌&&◌, none, List, [], ◌∷◌, Memᴰ, leb, arith,
}
use cmu_mixnet.Packet.{LinkParams}
use cmu_mixnet.Config.{Config, Alloc, IsGranted}
use cmu_mixnet.Topology.{Graph, graph_update}
use cmu_mixnet.Topology.Invariant.{IsTopology, graph_update-IsTopology}
use cmu_mixnet.State.{NodeState, empty_graph}

abbrev pub granting : Alloc
granting s i = true

pub granting-IsGranted : IsGranted granting
granting-IsGranted s i = refl

abbrev pub link : ℕ → ℕ → LinkParams
link addr cost = record { neighbor_mixaddr = addr; cost = cost }

abbrev pub links_1 : List LinkParams
links_1 = link 2 5 ∷ link 3 20 ∷ []

abbrev pub links_2 : List LinkParams
links_2 = link 1 5 ∷ link 3 7 ∷ []

abbrev pub links_3 : List LinkParams
links_3 = link 1 20 ∷ link 2 7 ∷ []

abbrev pub triangle : Graph
triangle =
    (graph_update granting
      (graph_update granting (graph_update granting empty_graph 1 links_1).1 2 links_2).1 3
      links_3).1

abbrev all_fit : List LinkParams → Bool
all_fit [] = true
all_fit (l ∷ ls) = leb l.cost 65535 && all_fit ls

pub links_fit :
    (ls : List LinkParams) → all_fit ls ≡ true → (l : LinkParams) → Memᴰ l ls → l.cost ≤ 65535
links_fit [] h l m = absurd (Memᴰ.not-nil m)
links_fit (x ∷ ls) h l m = elim (Memᴰ.cases_cons m) [
  | inl e ↦ ground arith
  | inr n ↦ links_fit ls (ground arith) l n
]

empty_graph-IsTopology : IsTopology empty_graph
empty_graph-IsTopology = record {
  indexed = record {
    ids = λ i lt. absurd (omega arith);
    room = omega arith;
    capacity_u16 = omega arith;
  };
  closed = λ u l m. absurd (Memᴰ.not-nil m);
  costs_u16 = λ u l m. absurd (Memᴰ.not-nil m);
}

pub triangle-IsTopology : IsTopology triangle
triangle-IsTopology =
    graph_update-IsTopology granting _ 3 links_3
      (graph_update-IsTopology granting _ 2 links_2
        (graph_update-IsTopology granting empty_graph 1 links_1 empty_graph-IsTopology
          (links_fit links_1 refl))
        (links_fit links_2 refl))
      (links_fit links_3 refl)

abbrev pub node_1 : Config
node_1 = record {
  node_addr = 1;
  num_neighbors = 2;
  root_hello_interval_ms = 100;
  reelection_interval_ms = 1000;
  do_random_routing = true;
  mixing_factor = 1;
  link_costs = 5 ∷ 20 ∷ [];
}

abbrev pub state_1 : NodeState
state_1 = record {
  root = 1;
  path_len = 0;
  next_hop = 65535;
  neighbor_addr = 2 ∷ 3 ∷ [];
  blocked = false ∷ false ∷ [];
  hello_start_ms = 0;
  reelection_start_ms = 0;
  topology = triangle;
  lsa_start_ms = 0;
  fib = [];
  mix = none;
}
