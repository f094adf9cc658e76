-- ===== src/Topology/Invariant.antt =====
-- The well-formedness of the topology, kept by graph_update.
use mathlib.Core.List.Memᴰ
use mathlib.Core.Logic.{⊎_elim}
use cmu_mixnet.Prelude.{
  ℕ, ◌≤◌, ◌<◌, ◌≡◌, sym, ap, subst, ◌∙◌, ◌⊎◌, inl, inr, true, some, List, Memᴰ, arith, ◌==◌, ltb,
  Bool-cases, length, length-set,
}
use cmu_mixnet.Packet.{LinkParams}
use cmu_mixnet.Config.{Alloc}
use cmu_mixnet.Topology.{Vertex, Graph, vertex_at, id_find, graph_update}
use cmu_mixnet.Topology.Find.{id_find_lem}
use cmu_mixnet.Topology.Intern.{IsIndexed, Extends}
use cmu_mixnet.Topology.Update.{
  replaced, id_find-replaced, vertex_at-replaced, graph_update-Updated,
}

pub record IsTopology (g : Graph) : Type 0 where
  pub indexed : IsIndexed g
  -- graph_update interns every address an LSA names
  pub closed :
      (u : ℕ) (l : LinkParams)
      → Memᴰ l (vertex_at g u).links
      → (w : ℕ) × (id_find g l.neighbor_mixaddr ≡ some w)
  pub costs_u16 : (u : ℕ) (l : LinkParams) → Memᴰ l (vertex_at g u).links → l.cost ≤ 65535

pub row_mem :
    {g g' : Graph} (u : ℕ) (l : LinkParams)
    → Extends g g'
    → Memᴰ l (vertex_at g' u).links
    → Memᴰ l (vertex_at g u).links
row_mem {g} {g'} u l e m = elim (Bool-cases (ltb u (length g.v))) [
  | inl inside ↦ subst (λ (x : Vertex). Memᴰ l x.links) (e.rows u (ground arith)) m
  | inr outside ↦ absurd (Memᴰ.not-nil (subst (Memᴰ l) (e.fresh u (ground arith)).1 m))
]

pub IsTopology-Extends : {g g' : Graph} → IsTopology g → Extends g g' → IsIndexed g' → IsTopology g'
IsTopology-Extends {g} {g'} t e h = record {
  indexed = h;
  closed =
      λ u l m. let (w, p) = t.closed u l (row_mem u l e m) in (w, e.found l.neighbor_mixaddr w p);
  costs_u16 = λ u l m. t.costs_u16 u l (row_mem u l e m);
}

IsIndexed-replaced :
    (g : Graph) (id : ℕ) (ls : List LinkParams)
    → id < length g.v
    → IsIndexed g
    → IsIndexed (replaced g id ls)
IsIndexed-replaced g id ls lt h = record {
  ids = λ i in_range.
      let same_addr : (vertex_at (replaced g id ls) i).addr ≡ (vertex_at g i).addr =
        ground (arith, vertex_at-replaced g id ls i lt) in
      id_find-replaced g id ls _
      ∙ ap (id_find g) same_addr
      ∙ h.ids i (
          omega
            (arith, length-set g.v id (record (vertex_at g id) { advertised = true; links = ls })));
  room = omega (
    arith,
    h.room,
    length-set g.v id (record (vertex_at g id) { advertised = true; links = ls }),
  );
  capacity_u16 = h.capacity_u16;
}

-- A link of the replaced graph is one of the new links, or was there before.
replaced_mem :
    (g : Graph) (id : ℕ) (ls : List LinkParams) (u : ℕ) (l : LinkParams)
    → id < length g.v
    → Memᴰ l (vertex_at (replaced g id ls) u).links
    → Memᴰ l ls ⊎ Memᴰ l (vertex_at g u).links
replaced_mem g id ls u l lt m = elim (Bool-cases (id == u)) [
  | inl same ↦
      let row : (vertex_at (replaced g id ls) u).links ≡ ls =
        ground (arith, vertex_at-replaced g id ls u lt) in
      inl (subst (Memᴰ l) row m)
  | inr other ↦
      let row : (vertex_at (replaced g id ls) u).links ≡ (vertex_at g u).links =
        ground (arith, vertex_at-replaced g id ls u lt) in
      inr (subst (Memᴰ l) row m)
]

IsTopology-replaced :
    (g : Graph) (id : ℕ) (ls : List LinkParams)
    → id < length g.v
    → IsTopology g
    → ((l : LinkParams) → Memᴰ l ls → (w : ℕ) × (id_find g l.neighbor_mixaddr ≡ some w))
    → ((l : LinkParams) → Memᴰ l ls → l.cost ≤ 65535)
    → IsTopology (replaced g id ls)
IsTopology-replaced g id ls lt t located small = record {
  indexed = IsIndexed-replaced g id ls lt t.indexed;
  closed = λ u l m.
      let (w, p) = ⊎_elim (located l) (t.closed u l) (replaced_mem g id ls u l lt m) in
      (w, id_find-replaced g id ls l.neighbor_mixaddr ∙ p);
  costs_u16 = λ u l m. ⊎_elim (small l) (t.costs_u16 u l) (replaced_mem g id ls u l lt m);
}

-- On every path through graph_update, with or without memory, the graph stays well formed: each
-- vertex is found under its own address, the array has room for the vertices within uint16_t, and
-- the far end of every link has an id. The links installed have to carry uint16_t costs.
pub graph_update-IsTopology :
    (m : Alloc) (g : Graph) (origin : ℕ) (ls : List LinkParams)
    → IsTopology g
    → ((l : LinkParams) → Memᴰ l ls → l.cost ≤ 65535)
    → IsTopology (graph_update m g origin ls).1
graph_update-IsTopology m g origin ls t small =
    let up = graph_update-Updated m g origin ls t.indexed in
    let base = IsTopology-Extends t up.extends up.indexed in
    elim up.outcome [
      | inl (_, same) ↦ subst IsTopology (sym same) base
      | inr (id, found, _, new, located) ↦ subst IsTopology (sym new) (
          IsTopology-replaced up.base id ls (id_find_lem up.base origin id found).0 base located
            small)
    ]
