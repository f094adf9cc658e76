-- ===== src/Tests/Routes.antt =====
-- Shortest paths, the forwarding table and detours on the triangle.
use cmu_mixnet.Prelude.{
  ℕ, ◌+◌, ◌≤◌, ◌<◌, ◌≡◌, ◌≢◌, refl, ◌⊎◌, ◌↔◌, true, false, ◌&&◌, some, List, [], ◌∷◌, Memᴰ, arith,
  length, ◌==◌, if◌then◌else◌, ◌*◌,
}
use cmu_mixnet.Packet.{max_mixnet_route_length}
use cmu_mixnet.Topology.{graph_update, id_find, id_lookup}
use cmu_mixnet.Topology.Update.{links_of, graph_update_refines}
use cmu_mixnet.Topology.Change.{graph_update_unchanged}
use cmu_mixnet.Paths.{SpVertex, sp_at, infinite_cost, run_dijkstra, path_is_better}
use cmu_mixnet.Paths.Walk.{Walk, here, step, IsTopology-IsSized, IsShortest}
use cmu_mixnet.Paths.Correct.{
  IsDone, run_dijkstra_returns, run_dijkstra_shortest, run_dijkstra_bounds,
}
use cmu_mixnet.State.{FibEntry, NodeState}
use cmu_mixnet.Fib.{fib_reset, fill_table, install_routes, update_shortest_path, fib_lookup}
use cmu_mixnet.Fib.Shortest.{
  fib_lookup-IsShortest, fib_lookup_complete, update_shortest_path-IsTopology,
  update_shortest_path-IsSound,
}
use cmu_mixnet.Routing.{path_between, detour_via, random_route}
use cmu_mixnet.Routing.Detour.{IsDetour, random_route_lem}
use cmu_mixnet.Tests.Network.{
  granting, granting-IsGranted, link, links_2, triangle, triangle-IsTopology, node_1, state_1,
}

abbrev row : ℕ → List ℕ → SpVertex
row cost path = record { cost = cost; path = path; settled = true }

abbrev rows : List SpVertex
rows = row 5 (2 ∷ []) ∷ row 12 (2 ∷ 3 ∷ []) ∷ row 0 [] ∷ []

rows_of_triangle : run_dijkstra granting triangle 2 ≡ some rows
unfolding run_dijkstra graph_update id_lookup id_find path_is_better
rows_of_triangle = refl

size_of_triangle : length triangle.v ≡ 3
unfolding graph_update id_lookup id_find
size_of_triangle = refl

self_of_triangle : id_find triangle 1 ≡ some 2
unfolding graph_update id_lookup id_find
self_of_triangle = refl

run_dijkstra_shortest_example :
    ((sp_at rows 1).cost ≢ infinite_cost → Walk triangle 2 1 12 (2 ∷ 3 ∷ []))
    × ((c : ℕ) (p : List ℕ)
        → Walk triangle 2 1 c p
        → ((sp_at rows 1).cost ≢ infinite_cost) × (12 ≤ c))
run_dijkstra_shortest_example =
    run_dijkstra_shortest granting triangle 2 rows 1 (IsTopology-IsSized triangle-IsTopology)
      (omega (arith, size_of_triangle)) rows_of_triangle

run_dijkstra_returns_example :
    (sp : List SpVertex) × (run_dijkstra granting triangle 2 ≡ some sp) × IsDone sp
run_dijkstra_returns_example =
    run_dijkstra_returns granting triangle 2 (IsTopology-IsSized triangle-IsTopology)
      (omega (arith, size_of_triangle)) refl

run_dijkstra_bounds_example :
    (3 ≡ length triangle.v) × (2 ≤ length triangle.v) × (12 ≢ infinite_cost → 12 ≤ 65535 * 2)
run_dijkstra_bounds_example =
    run_dijkstra_bounds granting triangle 2 rows 1 (IsTopology-IsSized triangle-IsTopology)
      (omega (arith, size_of_triangle)) rows_of_triangle

abbrev routed_1 : NodeState
routed_1 = update_shortest_path granting node_1 state_1

entry_of_3 : fib_lookup routed_1 3 ≡ some (record { reachable = true; route = 2 ∷ [] })
unfolding fib_lookup update_shortest_path run_dijkstra graph_update id_lookup id_find path_is_better
    install_routes fib_reset fill_table
entry_of_3 = refl

fib_lookup-IsShortest_example :
    (self id cost : ℕ) × (id_find triangle 1 ≡ some self)
    × (id_find triangle 3 ≡ some id)
    × IsShortest triangle self id cost (2 ∷ 3 ∷ [])
    × (1 ≤ max_mixnet_route_length)
fib_lookup-IsShortest_example =
    fib_lookup-IsShortest granting node_1 state_1 3 (record { reachable = true; route = 2 ∷ [] })
      triangle-IsTopology entry_of_3

way_to_2 : Walk triangle 2 0 5 (2 ∷ [])
unfolding graph_update id_lookup id_find
way_to_2 = step (link 2 5) 0 here (Memᴰ.head refl) refl

id_of_2 : id_find triangle 2 ≡ some 0
unfolding graph_update id_lookup id_find
id_of_2 = refl

fib_lookup_complete_example :
    ((entry : FibEntry) × (fib_lookup routed_1 2 ≡ some entry))
    ⊎ ((cost : ℕ) × (q : List ℕ) × IsShortest triangle 2 0 cost q
        × (max_mixnet_route_length + 1 < length q))
fib_lookup_complete_example =
    fib_lookup_complete granting node_1 state_1 2 2 0 5 (2 ∷ []) granting-IsGranted
      triangle-IsTopology self_of_triangle id_of_2 (λ e. absurd (omega arith)) way_to_2

graph_update_refines_example : links_of (graph_update granting triangle 2 (link 1 9 ∷ [])).1 2 ≡ (
    if (graph_update granting triangle 2 (link 1 9 ∷ [])).0 && (2 == 2)
    then some (link 1 9 ∷ [])
    else links_of triangle 2)
graph_update_refines_example =
    graph_update_refines granting triangle 2 (link 1 9 ∷ []) 2 triangle-IsTopology.indexed

graph_update_unchanged_example :
    ((graph_update granting triangle 2 links_2).0 ≡ false) ↔ (links_of triangle 2 ≡ some links_2)
graph_update_unchanged_example =
    graph_update_unchanged granting triangle 2 links_2 granting-IsGranted
      triangle-IsTopology.indexed (omega (arith, size_of_triangle))

detour : random_route granting node_1 routed_1 2 0 ≡ some (2 ∷ 3 ∷ [])
unfolding random_route path_between detour_via fib_lookup update_shortest_path run_dijkstra
    graph_update id_lookup id_find path_is_better install_routes fib_reset fill_table
detour = refl

random_route_lem_example :
    (self id : ℕ) × (id_find routed_1.topology 1 ≡ some self)
    × (id_find routed_1.topology 2 ≡ some id)
    × IsDetour node_1 routed_1.topology self id 2 (2 ∷ 3 ∷ [])
random_route_lem_example =
    random_route_lem granting node_1 routed_1 2 0 (2 ∷ 3 ∷ [])
      (update_shortest_path-IsTopology granting node_1 state_1 triangle-IsTopology)
      (update_shortest_path-IsSound granting node_1 state_1 triangle-IsTopology) detour
