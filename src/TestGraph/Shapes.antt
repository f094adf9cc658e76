-- ===== src/TestGraph/Shapes.antt =====
-- The topologies that a test asks for by name (generate_topology of testing/common/graph.cpp).
pub mod Links
pub mod Named
use cmu_mixnet.Prelude.{
  ℕ, zero, suc, ◌+◌, ◌-◌, ◌%◌, ◌≤◌, ◌<◌, ◌≡◌, refl, sym, ap, subst, ◌∙◌, inl, inr, Bool, true,
  false, not, ◌&&◌, ◌||◌, Option, none, some, List, [], ◌∷◌, arith, if◌then◌else◌, ◌==◌, ltb, leb,
  Bool-cases, Option-cases, length, length-replicate, get_or, get_or-replicate,
}
use cmu_mixnet.TestGraph.{TestGraph, HalfEdge, add_edge}

-- enum class type
pub data Shape : Type 0 where
  line ring star full_mesh : Shape

-- A half edge with the default cost.
abbrev pub half_edge : ℕ → HalfEdge
half_edge id = record { id = id; cost = 1 }

-- std::iota from `i` on, `n` values.
pub iota : ℕ → ℕ → List ℕ
iota zero i = []
iota (suc n) i = i ∷ iota n (i + 1)

-- add_edge(idxs[a], idxs[b])
pub connect : List ℕ → ℕ → ℕ → TestGraph → Option TestGraph
connect idxs a b g = add_edge (half_edge (get_or idxs a 0)) (half_edge (get_or idxs b 0)) g

-- The loops from `i` on, with `n` edges to add.
pub line_loop : List ℕ → ℕ → ℕ → TestGraph → Option TestGraph
line_loop idxs zero i g = some g
line_loop idxs (suc n) i g = elim (connect idxs i (i + 1) g) [
  | none ↦ none
  | some g' ↦ line_loop idxs n (i + 1) g'
]

pub ring_loop : List ℕ → ℕ → ℕ → TestGraph → Option TestGraph
ring_loop idxs zero i g = some g
ring_loop idxs (suc n) i g = elim (connect idxs i ((i + 1) % length idxs) g) [
  | none ↦ none
  | some g' ↦ ring_loop idxs n (i + 1) g'
]

-- The edges from `a` to `n` vertices from `i` on.
pub star_loop : List ℕ → ℕ → ℕ → ℕ → TestGraph → Option TestGraph
star_loop idxs a zero i g = some g
star_loop idxs a (suc n) i g = elim (connect idxs a i g) [
  | none ↦ none
  | some g' ↦ star_loop idxs a n (i + 1) g'
]

pub mesh_loop : List ℕ → ℕ → ℕ → TestGraph → Option TestGraph
unfolding star_loop
mesh_loop idxs zero i g = some g
mesh_loop idxs (suc n) i g = elim (star_loop idxs i n (i + 1) g) [
  | none ↦ none
  | some g' ↦ mesh_loop idxs n (i + 1) g'
]

pub add_shape : Shape → List ℕ → TestGraph → Option TestGraph
unfolding line_loop ring_loop star_loop mesh_loop
add_shape line idxs g = line_loop idxs (length idxs - 1) 0 g
add_shape ring idxs g = if ltb 2 (length idxs) then ring_loop idxs (length idxs) 0 g else none
add_shape full_mesh idxs g = mesh_loop idxs (length idxs) 0 g
add_shape star idxs g = star_loop idxs 0 (length idxs - 1) 1 g

pub generate_topology : Shape → List ℕ → TestGraph → Option TestGraph
unfolding add_shape
generate_topology t idxs g =
    if ltb (length g.nodes) 2
    then some g
    else add_shape t (if length idxs == 0 then iota (length g.nodes) 0 else idxs) g
