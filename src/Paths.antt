-- ===== src/Paths.antt =====
-- Shortest paths (struct sp_vertex, path_is_better and run_dijkstra of mixnet/node.c). The length
-- of a path is the length of its list.
pub mod Stable
pub mod Walk
pub mod Pick
pub mod Relax
pub mod Count
pub mod Invariant
pub mod Correct
use cmu_mixnet.Prelude.{
  ℕ, zero, suc, ◌+◌, Bool, true, false, ◌||◌, Option, none, some, List, [], ◌∷◌, ◌++◌, map,
  if◌then◌else◌, ◌==◌, ltb, length, get_or, set, u32,
}
use cmu_mixnet.Packet.{LinkParams}
use cmu_mixnet.Config.{Alloc, sp_table}
use cmu_mixnet.Topology.{Graph, vertex_at, id_find}

-- INFINITE_COST
abbrev pub infinite_cost : ℕ
infinite_cost = 4294967295

pub record SpVertex : Type 0 where
  pub cost : ℕ
  pub path : List ℕ
  pub settled : Bool

abbrev pub unreached : SpVertex
unreached = record { cost = infinite_cost; path = []; settled = false }

-- sp[id]; every read is in range.
abbrev pub sp_at : List SpVertex → ℕ → SpVertex
sp_at sp id = get_or sp id unreached

-- The comparison of two paths from our end; a prefix is the smaller one.
pub path_lt : List ℕ → List ℕ → Bool
path_lt [] [] = false
path_lt [] (y ∷ ys) = true
path_lt (x ∷ xs) [] = false
path_lt (x ∷ xs) (y ∷ ys) = if x == y then path_lt xs ys else ltb x y

unfoldable pub path_is_better : ℕ → List ℕ → ℕ → List ℕ → Bool
unfolding path_lt
path_is_better cost_a path_a cost_b path_b =
    if cost_a == cost_b then path_lt path_a path_b else ltb cost_a cost_b

-- The better of the best vertex so far and vertex `i`, with its row.
pub choose : ℕ → SpVertex → Option (ℕ × SpVertex) → Option (ℕ × SpVertex)
choose i x best = if x.settled || (x.cost == infinite_cost) then best else elim best [
  | none ↦ some (i, x)
  | some (u, y) ↦ if path_is_better x.cost x.path y.cost y.path then some (i, x) else some (u, y)
]

-- The scan for the vertex to settle, from vertex `i` on.
pub pick : List SpVertex → ℕ → Option (ℕ × SpVertex) → Option (ℕ × SpVertex)
unfolding choose
pick [] i best = best
pick (x ∷ xs) i best = pick xs (i + 1) (choose i x best)

-- One link of the vertex `u` that was settled.
pub relax_link : Graph → ℕ → LinkParams → List SpVertex → List SpVertex
relax_link g u link sp = elim (id_find g link.neighbor_mixaddr) [
  | none ↦ sp
  | some w ↦
      let from = sp_at sp u in
      let to = sp_at sp w in
      let cost = u32 (from.cost + link.cost) in
      let candidate = from.path ++ link.neighbor_mixaddr ∷ [] in
      if to.settled
      then sp
      else if path_is_better cost candidate to.cost to.path
      then set sp w (record to { cost = cost; path = candidate })
      else sp
]

pub relax : Graph → ℕ → List LinkParams → List SpVertex → List SpVertex
unfolding relax_link
relax g u [] sp = sp
relax g u (l ∷ ls) sp = relax g u ls (relax_link g u l sp)

pub settle : List SpVertex → ℕ → List SpVertex
settle sp u = set sp u (record (sp_at sp u) { settled = true })

-- The `for (;;)` loop on fuel; it ends when no vertex is left to settle.
pub dijkstra_loop : ℕ → Graph → List SpVertex → List SpVertex
unfolding pick relax settle
dijkstra_loop zero g sp = sp
dijkstra_loop (suc fuel) g sp = elim (pick sp 0 none) [
  | none ↦ sp
  | some (u, x) ↦ dijkstra_loop fuel g (relax g u (vertex_at g u).links (settle sp u))
]

pub initial_rows : Graph → ℕ → List SpVertex
initial_rows g self =
    set (map (λ _. unreached) g.v) self (record { cost = 0; path = []; settled = false })

-- `none` is the NULL of an empty graph or of no memory.
unfoldable pub run_dijkstra : Alloc → Graph → ℕ → Option (List SpVertex)
unfolding dijkstra_loop initial_rows
run_dijkstra m g self =
    if length g.v == 0
    then none
    else if m sp_table 0
    then some (dijkstra_loop (suc (length g.v)) g (initial_rows g self))
    else none
