-- ===== src/Fib.antt =====
-- The forwarding table (fib_reset, install_route, update_shortest_path and fib_lookup of
-- mixnet/node.c).
pub mod Install
pub mod Shortest
pub mod Stable
use cmu_mixnet.Prelude.{
  ℕ, zero, suc, ◌+◌, ◌-◌, ◌^◌, Bool, true, false, ◌||◌, Option, none, some, List, [], if◌then◌else◌,
  ◌==◌, ltb, length, get_or, set, replicate, take, u16,
}
use cmu_mixnet.Packet.{max_mixnet_route_length}
use cmu_mixnet.Config.{Config, Alloc, fib_table, fib_route}
use cmu_mixnet.Topology.{id_find}
use cmu_mixnet.Paths.{SpVertex, sp_at, infinite_cost, run_dijkstra}
use cmu_mixnet.State.{FibEntry, NodeState}

abbrev pub unreachable : FibEntry
unreachable = record { reachable = false; route = [] }

-- s->fib[id]; every read is in range.
abbrev pub fib_at : List FibEntry → ℕ → FibEntry
fib_at fib id = get_or fib id unreachable

unfoldable pub fib_reset : Alloc → NodeState → ℕ → Bool × NodeState
fib_reset m s count =
    if count == 0
    then (true, record s { fib = [] })
    else if m fib_table 0
    then (true, record s { fib = replicate count unreachable })
    else (false, record s { fib = [] })

-- (uint16_t)(path_len - 1)
abbrev pub hops_of : SpVertex → ℕ
hops_of x = u16 (length x.path + 2 ^ 16 - 1)

-- The new entry, or none where the entry stays as it was.
pub install_route : Alloc → List SpVertex → ℕ → Option FibEntry
install_route m sp dst =
    let hops = hops_of (sp_at sp dst) in
    if ltb max_mixnet_route_length hops
    then none
    else if (hops == 0) || m fib_route dst
    then some (record { reachable = true; route = take hops (sp_at sp dst).path })
    else none

-- The body of the loop over the vertex ids.
pub install_entry : Alloc → ℕ → ℕ → List SpVertex → List FibEntry → List FibEntry
install_entry m self id sp fib =
    if (id == self) || ((sp_at sp id).cost == infinite_cost)
    then fib
    else elim (install_route m sp id) [ none ↦ fib | some entry ↦ set fib id entry ]

-- The vertex ids from `id` on, `n` of them.
unfoldable pub install_routes : Alloc → ℕ → ℕ → ℕ → List SpVertex → List FibEntry → List FibEntry
unfolding install_route install_entry
install_routes m self zero id sp fib = fib
install_routes m self (suc n) id sp fib =
    install_routes m self n (id + 1) sp (install_entry m self id sp fib)

-- From the search for our own vertex on, over a table that was just reset.
unfoldable pub fill_table : Alloc → Config → NodeState → NodeState
fill_table m c s =
    let g = s.topology in
    elim (id_find g c.node_addr) [
      | none ↦ s
      | some self ↦ elim (run_dijkstra m g self) [
        | none ↦ s
        | some sp ↦ record s { fib = install_routes m self (length g.v) 0 sp s.fib }
      ]
    ]

unfoldable pub update_shortest_path : Alloc → Config → NodeState → NodeState
update_shortest_path m c s =
    let (sized, s') = fib_reset m s (length s.topology.v) in if sized then fill_table m c s' else s'

unfoldable pub fib_lookup : NodeState → ℕ → Option FibEntry
fib_lookup s dst = elim (id_find s.topology dst) [
  | none ↦ none
  | some id ↦
      if ltb id (length s.fib)
      then if (fib_at s.fib id).reachable then some (fib_at s.fib id) else none
      else none
]
