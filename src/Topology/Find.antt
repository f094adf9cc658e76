-- ===== src/Topology/Find.antt =====
-- What id_find says of the vertex that it finds.
use cmu_mixnet.Prelude.{
  ℕ, ◌<◌, ◌≡◌, inl, inr, some, List, [], ◌∷◌, arith, ◌==◌, Bool-cases, Option-cases, length, get_or,
}
use cmu_mixnet.Topology.{Vertex, Graph, no_vertex, vertex_at, id_scan, id_find}

pub id_scan_lem :
    (vs : List Vertex) (addr i : ℕ)
    → id_scan vs addr ≡ some i
    → (i < length vs) × ((get_or vs i no_vertex).addr ≡ addr)
unfolding id_scan
id_scan_lem [] addr i h = cc
id_scan_lem (x ∷ xs) addr i h = elim (Bool-cases (x.addr == addr)) [
  | inl same ↦ ground arith
  | inr other ↦ elim (Option-cases (id_scan xs addr)) [
    | inl e ↦ ground arith
    | inr (j, e) ↦ ground (arith, id_scan_lem xs addr j e)
  ]
]

pub id_find_lem :
    (g : Graph) (addr i : ℕ)
    → id_find g addr ≡ some i
    → (i < length g.v) × ((vertex_at g i).addr ≡ addr)
unfolding id_find
id_find_lem g addr i h = id_scan_lem g.v addr i h
