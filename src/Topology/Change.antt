-- ===== src/Topology/Change.antt =====
-- When graph_update answers that something changed.
use cmu_mixnet.Prelude.{
  ℕ, ◌+◌, ◌≤◌, ◌<◌, ◌≡◌, refl, sym, ◌∙◌, ◌↔◌, inl, inr, true, false, some, List, [], ◌∷◌, arith,
  Option-cases, length, length-append,
}
use cmu_mixnet.Packet.{LinkParams}
use cmu_mixnet.Config.{Alloc, IsGranted, vertex_rows, row_links}
use cmu_mixnet.Topology.{
  Graph, new_vertex, vertex_at, id_find, grow, id_lookup, intern_links, install_links, graph_update,
}
use cmu_mixnet.Topology.Intern.{IsIndexed, Extends-trans, id_lookup_lem, intern_links_lem}
use cmu_mixnet.Topology.Update.{links_of, same_links_iff, Extends-links_of}

id_lookup_total :
    (m : Alloc) (g : Graph) (addr : ℕ)
    → IsGranted m
    → IsIndexed g
    → length g.v < 32768
    → (i : ℕ) × ((id_lookup m g addr).0 ≡ some i)
      × (length (id_lookup m g addr).1.v ≤ length g.v + 1)
unfolding id_lookup grow
id_lookup_total m g addr granted h small = elim (Option-cases (id_find g addr)) [
  | inr (i, e) ↦ (i, ground arith, ground arith)
  | inl e ↦
      let room = h.room in
      (
        length g.v,
        ground (arith, granted vertex_rows g.capacity),
        ground (arith, granted vertex_rows g.capacity, length-append g.v (new_vertex addr ∷ [])),
      )
]

intern_links_total :
    (m : Alloc) (g : Graph) (ls : List LinkParams)
    → IsGranted m
    → IsIndexed g
    → length g.v + length ls ≤ 32768
    → ((intern_links m g ls).0 ≡ true) × (length (intern_links m g ls).1.v ≤ length g.v + length ls)
unfolding intern_links
intern_links_total m g [] granted h small = (refl, omega arith)
intern_links_total m g (l ∷ ls) granted h small =
    let (i, e, n) = id_lookup_total m g l.neighbor_mixaddr granted h (omega arith) in
    let looked = id_lookup_lem m g l.neighbor_mixaddr h in
    let (done, n') =
      intern_links_total m (id_lookup m g l.neighbor_mixaddr).1 ls granted looked.indexed
        (omega arith) in
    rw (e, intern_links) (done, omega arith)

install_flag :
    (m : Alloc) (g : Graph) (origin id : ℕ) (ls : List LinkParams)
    → IsGranted m
    → id_find g origin ≡ some id
    → ((install_links m g id ls).0 ≡ false) ↔ (links_of g origin ≡ some ls)
unfolding install_links
install_flag m g origin id ls granted found =
    let at = same_links_iff (vertex_at g id).links ls in
    ground (arith, found, at, granted row_links 0)

-- With memory granted, in a well-formed graph (IsIndexed) whose vertices and the links given are
-- together fewer than 32768, graph_update answers false exactly when the origin has advertised these
-- very links before, so a node's first advertisement is never taken for a repeat, not even an empty
-- one.
pub graph_update_unchanged :
    (m : Alloc) (g : Graph) (origin : ℕ) (ls : List LinkParams)
    → IsGranted m
    → IsIndexed g
    → length g.v + length ls < 32768
    → ((graph_update m g origin ls).0 ≡ false) ↔ (links_of g origin ≡ some ls)
unfolding graph_update
graph_update_unchanged m g origin ls granted h small =
    let (done, n) = intern_links_total m g ls granted h (omega arith) in
    let interned = intern_links_lem m g ls h in
    let g1 = (intern_links m g ls).1 in
    let (id, e, n') = id_lookup_total m g1 origin granted interned.indexed (omega arith) in
    let looked = id_lookup_lem m g1 origin interned.indexed in
    let g2 = (id_lookup m g1 origin).1 in
    let flag = install_flag m g2 origin id ls granted (looked.located id e) in
    let kept = Extends-links_of origin h (Extends-trans interned.extends looked.extends) in
    rw (done, e, graph_update) (λ p. sym kept ∙ flag.0 p, λ q. flag.1 (kept ∙ q))
