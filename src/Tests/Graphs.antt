-- ===== src/Tests/Graphs.antt =====
-- A test's graph of three nodes, and what is sent of it.
use cmu_mixnet.Prelude.{
  ℕ, zero, suc, ◌+◌, ◌≤◌, ◌<◌, ◌≡◌, refl, true, false, none, some, List, [], ◌∷◌, arith, length,
  get_or,
}
use cmu_mixnet.Message.{Buffer, topology, get16, put16}
use cmu_mixnet.Headers.{request-Says}
use cmu_mixnet.Control
use cmu_mixnet.Control.States.{get32, init_node_context}
use cmu_mixnet.Networking.Accepting.{NetAddr}
use cmu_mixnet.TestGraph.{
  TestNode, TestGraph, HalfEdge, new_graph, node_at, neighbors_of, has_neighbor, add_edge,
}
use cmu_mixnet.TestGraph.Shapes.{ring, generate_topology}
use cmu_mixnet.TestGraph.Shapes.Named.{near_in, generate_topology_lem}
use cmu_mixnet.TestGraph.Symmetric.{IsSymmetric, Built, fresh_graph, with_edge, Built-IsSymmetric}
use cmu_mixnet.Orchestrator
use cmu_mixnet.Orchestrator.Foreach.{request_for}
use cmu_mixnet.Orchestrator.Payloads.{
  SockaddrIn, FragmentMetadata, new_fragment, fragment_at, no_address, slot, put32, fill_topology,
  fill_resolve,
}
use cmu_mixnet.Orchestrator.Resolving.{IsLawful, IsNetAddr, fill_resolve_lem}
use cmu_mixnet.Configuring.{IsEncodable, test_config, configured_lem}
use cmu_mixnet.Tests.Framework.{zeros}

abbrev to : ℕ → ℕ → HalfEdge
to id cost = record { id = id; cost = cost }

abbrev node_of : ℕ → List ℕ → TestNode
node_of mixaddr costs = record {
  mixing_factor = 1;
  do_random_routing = false;
  link_costs = costs;
  mixaddr = mixaddr;
}

-- The nodes 0, 1 and 2 in a row.
abbrev two_edges : TestGraph
two_edges = record {
  nodes = node_of 0 (5 ∷ []) ∷ node_of 1 (5 ∷ 7 ∷ []) ∷ node_of 2 (9 ∷ []) ∷ [];
  topology = (1 ∷ []) ∷ (0 ∷ 2 ∷ []) ∷ (1 ∷ []) ∷ [];
}

two_edges-Built : Built 3 two_edges
unfolding add_edge has_neighbor new_graph
two_edges-Built = with_edge (to 1 7) (to 2 9) (with_edge (to 0 5) (to 1 5) fresh_graph refl) refl

Built-IsSymmetric_example : IsSymmetric two_edges
Built-IsSymmetric_example = Built-IsSymmetric 3 two_edges two_edges-Built

costs_fit : (p : ℕ) → get_or (node_at two_edges 1).link_costs p 0 ≤ 65535
costs_fit zero = omega arith
costs_fit (suc zero) = omega arith
costs_fit (suc (suc p)) = omega arith

two_edges-IsEncodable : IsEncodable two_edges 1000 100 1
two_edges-IsEncodable = record {
  id = omega arith;
  mixaddr = omega arith;
  mixing = omega arith;
  reelection = omega arith;
  root_hello = omega arith;
  costs = costs_fit;
  beside = refl;
  room = omega arith;
}

configured_lem_example :
    (b' : Buffer) × (request_for 16
        (fill_topology two_edges 1000 100)
        1
        (Orchestrator.prepare_header 0 topology zeros)
      ≡ some b')
    × (Control.check_header 16 1 true true topology b' ≡ some none)
    × ((init_node_context b').0 ≡ test_config two_edges 1000 100 1)
configured_lem_example =
    configured_lem 16 two_edges 1000 100 1 0 (Orchestrator.prepare_header 0 topology zeros) true
      true two_edges-IsEncodable (request-Says 0 topology zeros (omega arith))

-- Family, port and address one after the other, the low byte first.
abbrev system : SockaddrIn
system = record {
  size = 8;
  af_inet = 2;
  address_at = λ b i. record {
    sin_family = get16 b i;
    sin_port = get16 b (i + 2);
    s_addr = get32 b (i + 4);
  };
  put_address = λ i a b. put32 (i + 4) a.s_addr (put16 (i + 2) a.sin_port (put16 i a.sin_family b));
}

same_address :
    (a b : NetAddr)
    → a.sin_family ≡ b.sin_family
    → a.sin_port ≡ b.sin_port
    → a.s_addr ≡ b.s_addr
    → a ≡ b
same_address a b h1 h2 h3 = cc

system-IsLawful : IsLawful system
system-IsLawful = record {
  read_back = λ i a b h.
      same_address _ a (ground (arith, h.family_u16)) (ground (arith, h.port_u16))
        (ground (arith, h.addr_u32));
  elsewhere = λ i j a b apart.
      same_address _ _ (ground (arith, apart)) (ground (arith, apart)) (ground (arith, apart));
  before = λ i a b j lt. ground arith;
}

abbrev client : ℕ → NetAddr
client port = record { sin_family = 2; sin_port = port; s_addr = 16777343 }

abbrev fragment_with : List NetAddr → FragmentMetadata
fragment_with clients = record new_fragment { mixnet_client_netaddrs = clients }

abbrev connected_fragments : List FragmentMetadata
connected_fragments =
    fragment_with (client 4001 ∷ [])
    ∷ fragment_with (client 4002 ∷ client 4003 ∷ [])
    ∷ fragment_with (client 4004 ∷ [])
    ∷ []

client_range : (port : ℕ) → port < 65536 → IsNetAddr (client port)
client_range port lt = record { family_u16 = omega arith; port_u16 = lt; addr_u32 = omega arith }

nowhere : IsNetAddr no_address
nowhere = record { family_u16 = omega arith; port_u16 = omega arith; addr_u32 = omega arith }

in_range :
    (other j : ℕ)
    → IsNetAddr (get_or (fragment_at connected_fragments other).mixnet_client_netaddrs j no_address)
in_range zero zero = client_range 4001 (omega arith)
in_range (suc zero) zero = client_range 4002 (omega arith)
in_range (suc zero) (suc zero) = client_range 4003 (omega arith)
in_range (suc (suc zero)) zero = client_range 4004 (omega arith)
in_range zero (suc j) = nowhere
in_range (suc zero) (suc (suc j)) = nowhere
in_range (suc (suc zero)) (suc j) = nowhere
in_range (suc (suc (suc other))) j = nowhere

fill_resolve_lem_example :
    (b' : Buffer) × (fill_resolve system two_edges connected_fragments 1 zeros ≡ some b')
    × ((k : ℕ)
        → k < length (neighbors_of two_edges 1)
        → (j : ℕ) × (get_or (neighbors_of two_edges (get_or (neighbors_of two_edges 1) k 0)) j 0
            ≡ 1)
          × (system.address_at b' (slot system k)
              ≡ get_or
                  (fragment_at connected_fragments
                    (get_or (neighbors_of two_edges 1) k 0)).mixnet_client_netaddrs
                  j
                  no_address))
    × ((j : ℕ) → j < 8 → b' j ≡ zeros j)
fill_resolve_lem_example =
    fill_resolve_lem system system-IsLawful two_edges connected_fragments 1 in_range zeros
      (Built-IsSymmetric 3 two_edges two_edges-Built)

generate_topology_lem_example :
    (g : TestGraph) × (generate_topology ring [] (new_graph 4) ≡ some g)
    × ((i j : ℕ) → has_neighbor j (neighbors_of g i) ≡ near_in ring 4 i j)
generate_topology_lem_example = generate_topology_lem ring 4 (omega arith) (λ e. omega arith)
