-- ===== src/Topology/Update.antt =====
-- graph_update as an update of a map from addresses to advertised links.
use cmu_mixnet.Prelude.{
  ℕ, zero, suc, ◌<◌, ◌≡◌, refl, sym, ap, ◌∙◌, ◌⊎◌, ◌↔◌, inl, inr, Bool, true, false, ◌&&◌, Option,
  none, some, List, [], ◌∷◌, Memᴰ, arith, ◌==◌, ltb, Bool-cases, Option-cases, if◌then◌else◌,
  length, get_or, set, get_or-set,
}
use cmu_mixnet.Packet.{LinkParams}
use cmu_mixnet.Config.{Alloc}
use cmu_mixnet.Topology.{
  Vertex, Graph, no_vertex, vertex_at, id_scan, id_find, id_lookup, same_links, intern_links,
  install_links, graph_update,
}
use cmu_mixnet.Topology.Find.{id_find_lem}
use cmu_mixnet.Topology.Intern.{IsIndexed, Extends, Extends-trans, id_lookup_lem, intern_links_lem}

abbrev row_links : Vertex → Option (List LinkParams)
row_links x = if x.advertised then some x.links else none

-- The links that a node has advertised, if it has: the map that a graph stands for.
abbrev pub links_of : Graph → ℕ → Option (List LinkParams)
links_of g addr = elim (id_find g addr) [ none ↦ none | some id ↦ row_links (vertex_at g id) ]

pub same_links_iff : (ks ls : List LinkParams) → (same_links ks ls ≡ true) ↔ (ks ≡ ls)
unfolding same_links
same_links_iff [] [] = (λ h. refl, λ h. refl)
same_links_iff [] (l ∷ ls) = (λ h. cc, λ h. cc)
same_links_iff (k ∷ ks) [] = (λ h. cc, λ h. cc)
same_links_iff (k ∷ ks) (l ∷ ls) = ground (arith, same_links_iff ks ls)

pub Extends-links_of :
    {g g' : Graph} (addr : ℕ) → IsIndexed g → Extends g g' → links_of g' addr ≡ links_of g addr
Extends-links_of {g} {g'} addr h e = elim (Option-cases (id_find g addr)) [
  | inr (i, old) ↦ ground (arith, e.found addr i old, e.rows i (id_find_lem g addr i old).0)
  | inl new ↦ elim (Option-cases (id_find g' addr)) [
    | inl still ↦ ground arith
    | inr (i, now) ↦ elim (Bool-cases (ltb i (length g.v))) [
      | inl inside ↦
          let at = (id_find_lem g' addr i now).1 in
          let same = ap Vertex.addr (e.rows i (ground arith)) in
          let found = h.ids i (ground arith) in
          absurd (grind (arith, ap (id_find g) (sym same ∙ at)))
      | inr outside ↦ ground (arith, e.fresh i (ground arith))
    ]
  ]
]

id_scan-set :
    (vs : List Vertex) (i : ℕ) (x : Vertex) (addr : ℕ)
    → x.addr ≡ (get_or vs i no_vertex).addr
    → id_scan (set vs i x) addr ≡ id_scan vs addr
unfolding id_scan
id_scan-set [] i x addr h = refl
id_scan-set (v ∷ vs) zero x addr h = ground arith
id_scan-set (v ∷ vs) (suc i) x addr h = ground (arith, id_scan-set vs i x addr h)

-- The graph with the row of vertex `id` replaced.
abbrev pub replaced : Graph → ℕ → List LinkParams → Graph
replaced g id ls = record g {
  v = set g.v id (record (vertex_at g id) { advertised = true; links = ls });
}

pub id_find-replaced :
    (g : Graph) (id : ℕ) (ls : List LinkParams) (addr : ℕ)
    → id_find (replaced g id ls) addr ≡ id_find g addr
unfolding id_find
id_find-replaced g id ls addr = id_scan-set g.v id _ addr refl

pub vertex_at-replaced :
    (g : Graph) (id : ℕ) (ls : List LinkParams) (i : ℕ)
    → id < length g.v
    → vertex_at (replaced g id ls) i ≡ (
        if id == i
        then record (vertex_at g id) { advertised = true; links = ls }
        else vertex_at g i)
vertex_at-replaced g id ls i lt = ground (
  arith,
  get_or-set g.v id i (record (vertex_at g id) { advertised = true; links = ls }) no_vertex,
)

links_of-replaced :
    (g : Graph) (id : ℕ) (ls : List LinkParams) (origin addr : ℕ)
    → id_find g origin ≡ some id
    → links_of (replaced g id ls) addr ≡ (if addr == origin then some ls else links_of g addr)
links_of-replaced g id ls origin addr h =
    let (lt, at) = id_find_lem g origin id h in
    elim (Bool-cases (addr == origin)) [
      | inl same ↦
          let e : addr ≡ origin = ground arith in
          let found : id_find g addr ≡ some id = ap (id_find g) e ∙ h in
          ground (arith, id_find-replaced g id ls addr, vertex_at-replaced g id ls id lt)
      | inr other ↦ elim (Option-cases (id_find g addr)) [
        | inl missing ↦ ground (arith, id_find-replaced g id ls addr)
        | inr (j, found) ↦
            let at_j = (id_find_lem g addr j found).1 in
            let apart : (id == j) ≡ false = ground arith in
            ground (arith, id_find-replaced g id ls addr, vertex_at-replaced g id ls j lt)
      ]
    ]

-- What installing does, whether or not there is memory for the copy.
abbrev Installed : Graph → ℕ → List LinkParams → Bool → Graph → Type 0
Installed g id ls changed g' =
    ((changed ≡ false) × (g' ≡ g)) ⊎ ((changed ≡ true) × (g' ≡ replaced g id ls))

install_links_cases :
    (m : Alloc) (g : Graph) (id : ℕ) (ls : List LinkParams)
    → Installed g id ls (install_links m g id ls).0 (install_links m g id ls).1
unfolding install_links
install_links_cases m g id ls = ground arith

-- The whole update: the graph is extended by interning, and then kept or one row of it replaced.
pub record Updated (g : Graph) (origin : ℕ) (ls : List LinkParams) (changed : Bool) (g' : Graph)
    : Type 0 where
  pub base : Graph
  pub extends : Extends g base
  pub indexed : IsIndexed base
  pub outcome :
      ((changed ≡ false) × (g' ≡ base))
      ⊎ ((id : ℕ) × (id_find base origin ≡ some id)
          × (changed ≡ true)
          × (g' ≡ replaced base id ls)
          × ((l : LinkParams) → Memᴰ l ls → (w : ℕ) × (id_find base l.neighbor_mixaddr ≡ some w)))

pub graph_update-Updated :
    (m : Alloc) (g : Graph) (origin : ℕ) (ls : List LinkParams)
    → IsIndexed g
    → Updated g origin ls (graph_update m g origin ls).0 (graph_update m g origin ls).1
unfolding graph_update
graph_update-Updated m g origin ls h =
    let interned = intern_links_lem m g ls h in
    let g1 = (intern_links m g ls).1 in
    let looked = id_lookup_lem m g1 origin interned.indexed in
    elim (Bool-cases (intern_links m g ls).0) [
      | inr failed ↦
          rw (failed, graph_update)
            (record {
              base = g1;
              extends = interned.extends;
              indexed = interned.indexed;
              outcome = inl (refl, refl);
            })
      | inl done ↦ elim (Option-cases (id_lookup m g1 origin).0) [
        | inl full ↦
            rw (done, full, graph_update)
              (record {
                base = (id_lookup m g1 origin).1;
                extends = Extends-trans interned.extends looked.extends;
                indexed = looked.indexed;
                outcome = inl (refl, refl);
              })
        | inr (id, e) ↦
            rw (done, e, graph_update)
              (record {
                base = (id_lookup m g1 origin).1;
                extends = Extends-trans interned.extends looked.extends;
                indexed = looked.indexed;
                outcome = elim (install_links_cases m (id_lookup m g1 origin).1 id ls) [
                  | inl kept ↦ inl kept
                  | inr (changed, new) ↦ inr (
                    id,
                    looked.located id e,
                    changed,
                    new,
                    λ l k.
                        let (w, p) = interned.located done l k in
                        (w, looked.extends.found l.neighbor_mixaddr w p),
                  )
                ];
              })
      ]
    ]

-- graph_update answers true exactly when it replaced the origin's row, and whatever memory it is
-- granted, the advertised links of every other node stay as they were: the graph is a map from
-- addresses to advertised links, and this is its update.
pub graph_update_refines :
    (m : Alloc) (g : Graph) (origin : ℕ) (ls : List LinkParams) (addr : ℕ)
    → IsIndexed g
    → links_of (graph_update m g origin ls).1 addr
      ≡ (if (graph_update m g origin ls).0 && (addr == origin) then some ls else links_of g addr)
graph_update_refines m g origin ls addr h =
    let up = graph_update-Updated m g origin ls h in
    let kept = Extends-links_of addr h up.extends in
    elim up.outcome [
      | inl (no_change, same) ↦ rw (no_change, same) kept
      | inr (id, found, changed, new, _) ↦
          rw (changed, new)
            (links_of-replaced up.base id ls origin addr found
              ∙ ap (λ (o : Option (List LinkParams)). if addr == origin then some ls else o) kept)
    ]
