-- ===== src/Tests/Delivery.antt =====
-- A packet from node 1 of the triangle over node 2 to node 3.
use cmu_mixnet.Prelude.{ℕ, ◌≡◌, refl, true, some, List, [], ◌∷◌, ◌++◌, arith}
use cmu_mixnet.Packet.{user_bytes, Routed, packet_of}
use cmu_mixnet.Config.{Config, Send}
use cmu_mixnet.Topology.{graph_update, id_find, id_lookup}
use cmu_mixnet.Paths.{run_dijkstra, path_is_better}
use cmu_mixnet.State.{FibEntry, NodeState}
use cmu_mixnet.Fib.{fib_reset, fill_table, install_routes, update_shortest_path, fib_lookup}
use cmu_mixnet.Routing.{
  random_route, path_between, detour_via, chosen_route, routed_packet_is_well_formed,
}
use cmu_mixnet.Routing.Along.{
  Stop, first_stop, handled_at, Departs, CanForward, Carried, at_end, departed, routed_arrives,
}
use cmu_mixnet.Tests.Network.{granting, node_1, state_1}

abbrev routed_1 : NodeState
routed_1 = update_shortest_path granting node_1 state_1

-- The nodes behind node 1, from their address and their neighbors.
abbrev config_of : ℕ → Config
config_of addr = record node_1 { node_addr = addr }

abbrev stop_of : ℕ → ℕ → List ℕ → Stop
stop_of addr port neighbors = record {
  alloc = granting;
  config = config_of addr;
  state = record state_1 { neighbor_addr = neighbors };
  arrival_port = port;
  now = 0;
  random = 0;
}

abbrev source : Stop
source = record {
  alloc = granting;
  config = node_1;
  state = routed_1;
  arrival_port = 2;
  now = 0;
  random = 0;
}

abbrev forwarder : Stop
forwarder = stop_of 2 0 (1 ∷ 3 ∷ [])

abbrev destination : Stop
destination = stop_of 3 1 (1 ∷ 2 ∷ [])

abbrev greeting : Routed
greeting = record {
  total_size = 23;
  header = record { src_address = 1; dst_address = 3; route_length = 0; hop_index = 0; route = [] };
  body = user_bytes (7 ∷ 8 ∷ 9 ∷ []);
}

abbrev entry : FibEntry
entry = record { reachable = true; route = 2 ∷ [] }

entry_of_3 : fib_lookup routed_1 3 ≡ some entry
unfolding fib_lookup update_shortest_path run_dijkstra graph_update id_lookup id_find path_is_better
    install_routes fib_reset fill_table
entry_of_3 = refl

-- The only detour is over node 2, which the shortest path goes over too.
chosen_for_3 : chosen_route granting node_1 routed_1 3 (2 ∷ []) 0 ≡ 2 ∷ []
unfolding chosen_route random_route path_between detour_via fib_lookup update_shortest_path
    run_dijkstra graph_update id_lookup id_find path_is_better install_routes fib_reset fill_table
chosen_for_3 = refl

greeting-Departs : Departs source (forwarder ∷ []) greeting
unfolding routed_packet_is_well_formed first_stop update_shortest_path run_dijkstra graph_update
    id_lookup id_find path_is_better install_routes fib_reset fill_table
greeting-Departs = record {
  from_user = refl;
  well_formed = refl;
  entry = entry;
  known = entry_of_3;
  chosen = chosen_for_3;
  small = omega arith;
  can = record {
    unmixed = refl;
    few_ports = omega arith;
    valid = λ e. absurd (omega (arith, e));
    linked = (0, omega arith, refl);
  };
}

forwarder-CanForward : CanForward (forwarder ∷ []) 3
unfolding CanForward
forwarder-CanForward = (
  λ e. absurd (omega (arith, e)),
  λ e. absurd (omega (arith, e)),
  record {
    unmixed = refl;
    few_ports = omega arith;
    valid = λ e. absurd (omega (arith, e));
    linked = (1, omega arith, refl);
  },
  tt,
)

routed_arrives_example :
    Carried (source ∷ forwarder ∷ []) greeting (at_end (departed source (forwarder ∷ []) greeting))
    × ((replies : List Send) × ((handled_at destination
            (at_end (departed source (forwarder ∷ []) greeting))).1
          ≡ replies ++ (2, packet_of (at_end (departed source (forwarder ∷ []) greeting))) ∷ []))
routed_arrives_example =
    routed_arrives source (forwarder ∷ []) destination greeting greeting-Departs
      forwarder-CanForward refl (λ e. absurd (omega (arith, e)))
