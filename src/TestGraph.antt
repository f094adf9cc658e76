-- ===== src/TestGraph.antt =====
-- The graph of a test (class graph of testing/common/graph.h and graph.cpp). `num_nodes` is the
-- length of both lists. `none` is a failed assertion.
pub mod Shapes
pub mod Symmetric
use cmu_mixnet.Prelude.{
  ℕ, zero, suc, ◌+◌, Bool, true, false, not, ◌&&◌, ◌||◌, Option, none, some, List, [], ◌∷◌, ◌++◌,
  if◌then◌else◌, ◌==◌, ltb, length, get_or, set, replicate,
}

pub record TestNode : Type 0 where
  pub mixing_factor : ℕ
  pub do_random_routing : Bool
  pub link_costs : List ℕ
  pub mixaddr : ℕ

pub record TestGraph : Type 0 where
  pub nodes : List TestNode
  pub topology : List (List ℕ)

pub record HalfEdge : Type 0 where
  pub id : ℕ
  pub cost : ℕ

abbrev pub test_node : ℕ → TestNode
test_node mixaddr = record {
  mixing_factor = 1;
  do_random_routing = false;
  link_costs = [];
  mixaddr = mixaddr;
}

-- By default the nodes' addresses are their indices.
abbrev pub test_nodes : ℕ → ℕ → List TestNode
test_nodes zero i = []
test_nodes (suc n) i = test_node i ∷ test_nodes n (i + 1)

unfoldable pub new_graph : ℕ → TestGraph
new_graph n = record { nodes = test_nodes n 0; topology = replicate n [] }

-- nodes_.at(id), for an index in range.
abbrev pub node_at : TestGraph → ℕ → TestNode
node_at g id = get_or g.nodes id (test_node 65535)

-- topology_[id], for an index in range.
abbrev pub neighbors_of : TestGraph → ℕ → List ℕ
neighbors_of g id = get_or g.topology id []

-- std::find over a list of neighbors.
unfoldable pub has_neighbor : ℕ → List ℕ → Bool
has_neighbor id [] = false
has_neighbor id (x ∷ xs) = (x == id) || has_neighbor id xs

abbrev pub add_link_cost : ℕ → ℕ → TestGraph → TestGraph
add_link_cost id cost g = record g {
  nodes =
      set g.nodes id
        (record (node_at g id) { link_costs = (node_at g id).link_costs ++ cost ∷ [] });
}

abbrev pub add_neighbor : ℕ → ℕ → TestGraph → TestGraph
add_neighbor id other g = record g {
  topology = set g.topology id (neighbors_of g id ++ other ∷ []);
}

unfoldable pub add_edge : HalfEdge → HalfEdge → TestGraph → Option TestGraph
unfolding has_neighbor
add_edge src dst g =
    let n = length g.nodes in
    if not (ltb src.id n && ltb dst.id n)
      || ((src.id == dst.id) || has_neighbor dst.id (neighbors_of g src.id))
    then none
    else some (
        add_neighbor dst.id src.id (
          add_neighbor src.id dst.id
            (add_link_cost dst.id dst.cost (add_link_cost src.id src.cost g))))

-- set_mixaddrs
pub with_mixaddrs : List TestNode → List ℕ → List TestNode
with_mixaddrs [] addrs = []
with_mixaddrs (x ∷ xs) [] = x ∷ xs
with_mixaddrs (x ∷ xs) (addr ∷ addrs) = record x { mixaddr = addr } ∷ with_mixaddrs xs addrs

pub set_mixaddrs : List ℕ → TestGraph → Option TestGraph
unfolding with_mixaddrs
set_mixaddrs addrs g =
    if length addrs == length g.nodes
    then some (record g { nodes = with_mixaddrs g.nodes addrs })
    else none

-- get_node_id, with -1 as `none`.
pub get_node_id : ℕ → ℕ → List TestNode → Option ℕ
get_node_id addr i [] = none
get_node_id addr i (x ∷ xs) =
    let rest = get_node_id addr (i + 1) xs in if x.mixaddr == addr then some i else rest
