-- ===== src/Paths/Stable.antt =====
-- Walks when the topology grows by vertices without links.
use cmu_mixnet.Prelude.{ℕ, ◌<◌, ◌≡◌, sym, ap, subst, ◌∙◌, some, List, Memᴰ, length}
use mathlib.Core.Option.{some-injective}
use cmu_mixnet.Packet.{LinkParams}
use cmu_mixnet.Topology.{Vertex, Graph, vertex_at, id_find}
use cmu_mixnet.Topology.Find.{id_find_lem}
use cmu_mixnet.Topology.Intern.{IsIndexed, Extends}
use cmu_mixnet.Topology.Invariant.{IsTopology, row_mem}
use cmu_mixnet.Paths.Walk.{Walk, here, step, IsShortest}

-- A link of the smaller graph is a link of the larger one.
mem_row :
    {g g' : Graph} (u : ℕ) (l : LinkParams)
    → Extends g g'
    → u < length g.v
    → Memᴰ l (vertex_at g u).links
    → Memᴰ l (vertex_at g' u).links
mem_row {g} {g'} u l e lt m = subst (λ (x : Vertex). Memᴰ l x.links) (sym (e.rows u lt)) m

-- The walks of the two graphs are the same.
Walk-grown :
    {g g' : Graph} {from w c : ℕ} {p : List ℕ}
    → Extends g g'
    → from < length g.v
    → Walk g from w c p
    → Walk g' from w c p × (w < length g.v)
Walk-grown e lt here = (here, lt)
Walk-grown {g} {g'} e lt (step {u} l w walk m found) =
    let (walk', in_range) = Walk-grown e lt walk in
    (
      step l w walk' (mem_row u l e in_range m) (e.found l.neighbor_mixaddr w found),
      (id_find_lem g l.neighbor_mixaddr w found).0,
    )

Walk-shrunk :
    {g g' : Graph} {from w c : ℕ} {p : List ℕ}
    → IsTopology g
    → Extends g g'
    → Walk g' from w c p
    → Walk g from w c p
Walk-shrunk t e here = here
Walk-shrunk {g} {g'} t e (step {u} l w walk m found) =
    let old = row_mem u l e m in
    let (v, at) = t.closed u l old in
    let same : v ≡ w = some-injective _ _ (sym (e.found l.neighbor_mixaddr v at) ∙ found) in
    step l w (Walk-shrunk t e walk) old (at ∙ ap some same)

-- A shortest path stays one.
pub IsShortest-grown :
    {g g' : Graph} {from w c : ℕ} {p : List ℕ}
    → IsTopology g
    → Extends g g'
    → from < length g.v
    → IsShortest g from w c p
    → IsShortest g' from w c p
IsShortest-grown t e lt short = record {
  walk = (Walk-grown e lt short.walk).0;
  least = λ d q walk. short.least d q (Walk-shrunk t e walk);
}

-- An address found under an old id was found there before.
pub found-grown :
    {g g' : Graph} (addr i : ℕ)
    → IsIndexed g
    → Extends g g'
    → id_find g' addr ≡ some i
    → i < length g.v
    → id_find g addr ≡ some i
found-grown {g} {g'} addr i h e found lt =
    let at = (id_find_lem g' addr i found).1 in
    ap (id_find g) (sym at ∙ ap Vertex.addr (e.rows i lt)) ∙ h.ids i lt
