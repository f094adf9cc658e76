-- ===== src/Topology/Intern.antt =====
-- Interning addresses: ids are stable, rows stay, and a new vertex has no links.
use mathlib.Core.List.Memᴰ
use cmu_mixnet.Prelude.{
  ℕ, zero, suc, ◌≤◌, ◌<◌, ◌≡◌, refl, sym, ap, ◌∙◌, inl, inr, Bool, true, false, Option, none, some,
  List, [], ◌∷◌, ◌++◌, Memᴰ, arith, ◌==◌, ==_refl, Bool-cases, Option-cases, ltb, if◌then◌else◌,
  length, length-append, get_or, get_or-append, get_or-beyond,
}
use cmu_mixnet.Packet.{LinkParams}
use cmu_mixnet.Config.{Alloc}
use cmu_mixnet.Topology.{
  Vertex, Graph, no_vertex, new_vertex, vertex_at, id_scan, id_find, grow, id_lookup, intern_links,
}

-- Every vertex is found under its own address, and the array has room for the vertices.
pub record IsIndexed (g : Graph) : Type 0 where
  pub ids : (i : ℕ) → i < length g.v → id_find g (vertex_at g i).addr ≡ some i
  pub room : length g.v ≤ g.capacity
  pub capacity_u16 : g.capacity ≤ 65535

-- The second graph has the first one's vertices under their ids, and others without links.
pub record Extends (g g' : Graph) : Type 0 where
  pub longer : length g.v ≤ length g'.v
  pub rows : (i : ℕ) → i < length g.v → vertex_at g' i ≡ vertex_at g i
  pub fresh :
      (i : ℕ)
      → length g.v ≤ i
      → ((vertex_at g' i).advertised ≡ false) × ((vertex_at g' i).links ≡ [])
  pub found : (addr i : ℕ) → id_find g addr ≡ some i → id_find g' addr ≡ some i

pub Extends-refl : (g : Graph) → Extends g g
Extends-refl g = record {
  longer = omega arith;
  rows = λ i h. refl;
  fresh = λ i h. (
    ap Vertex.advertised (get_or-beyond g.v i no_vertex h),
    ap Vertex.links (get_or-beyond g.v i no_vertex h),
  );
  found = λ addr i h. h;
}

pub Extends-trans : {g g' h : Graph} → Extends g g' → Extends g' h → Extends g h
Extends-trans {g} {g'} {h} e f = record {
  longer = omega (arith, e.longer, f.longer);
  rows = λ i lt. f.rows i (omega (arith, e.longer)) ∙ e.rows i lt;
  fresh = λ i le. elim (Bool-cases (ltb i (length g'.v))) [
    | inl inside ↦
        let same = f.rows i (ground arith) in
        (ap Vertex.advertised same ∙ (e.fresh i le).0, ap Vertex.links same ∙ (e.fresh i le).1)
    | inr outside ↦ f.fresh i (ground arith)
  ];
  found = λ addr i p. f.found addr i (e.found addr i p);
}

id_scan-append :
    (vs : List Vertex) (x : Vertex) (addr : ℕ)
    → id_scan (vs ++ x ∷ []) addr ≡ elim (id_scan vs addr) [
      | some i ↦ some i
      | none ↦ if x.addr == addr then some (length vs) else none
    ]
unfolding id_scan
id_scan-append [] x addr = ground arith
id_scan-append (v ∷ vs) x addr = ground (arith, id_scan-append vs x addr)

append_at :
    (vs : List Vertex) (x : Vertex) (i : ℕ)
    → length vs ≤ i
    → get_or (vs ++ x ∷ []) i no_vertex ≡ (if i == length vs then x else no_vertex)
append_at [] x zero h = refl
append_at [] x (suc i) h = ground arith
append_at (v ∷ vs) x zero h = absurd (omega arith)
append_at (v ∷ vs) x (suc i) h = ground (arith, append_at vs x i)

-- The graph with one vertex appended, under a capacity that has room for it.
abbrev appended : Graph → ℕ → ℕ → Graph
appended g addr cap = record { v = g.v ++ new_vertex addr ∷ []; capacity = cap }

found-appended :
    (g : Graph) (addr cap a i : ℕ) → id_find g a ≡ some i → id_find (appended g addr cap) a ≡ some i
unfolding id_find
found-appended g addr cap a i h = ground (arith, id_scan-append g.v (new_vertex addr) a)

new-appended :
    (g : Graph) (addr cap : ℕ)
    → id_find g addr ≡ none
    → id_find (appended g addr cap) addr ≡ some (length g.v)
unfolding id_find
new-appended g addr cap h = ground (arith, id_scan-append g.v (new_vertex addr) addr, ==_refl addr)

Extends-appended : (g : Graph) (addr cap : ℕ) → Extends g (appended g addr cap)
Extends-appended g addr cap = record {
  longer = omega (arith, length-append g.v (new_vertex addr ∷ []));
  rows = λ i h. get_or-append g.v (new_vertex addr ∷ []) i no_vertex h;
  fresh = λ i h. ground (arith, append_at g.v (new_vertex addr) i);
  found = found-appended g addr cap;
}

IsIndexed-appended :
    (g : Graph) (addr cap : ℕ)
    → IsIndexed g
    → id_find g addr ≡ none
    → length g.v < cap
    → cap ≤ 65535
    → IsIndexed (appended g addr cap)
IsIndexed-appended g addr cap h e room cap_u16 = record {
  ids = λ i lt. elim (Bool-cases (ltb i (length g.v))) [
    | inl old ↦
        let same = get_or-append g.v (new_vertex addr ∷ []) i no_vertex (ground arith) in
        ap (id_find (appended g addr cap)) (ap Vertex.addr same)
        ∙ found-appended g addr cap _ i (h.ids i (ground arith))
    | inr new ↦
        let last : i ≡ length g.v = ground (arith, length-append g.v (new_vertex addr ∷ [])) in
        let at : vertex_at (appended g addr cap) i ≡ new_vertex addr =
          ground (arith, append_at g.v (new_vertex addr) i) in
        ap (id_find (appended g addr cap)) (ap Vertex.addr at)
        ∙ new-appended g addr cap e
        ∙ ap some (sym last)
  ];
  room = omega (arith, length-append g.v (new_vertex addr ∷ []));
  capacity_u16 = cap_u16;
}

grow_lem :
    (m : Alloc) (g g' : Graph)
    → IsIndexed g
    → grow m g ≡ some g'
    → (g'.v ≡ g.v) × (length g.v < g'.capacity) × (g'.capacity ≤ 65535)
unfolding grow
grow_lem m g g' h e =
    let h1 = h.room in let h2 = h.capacity_u16 in (ground arith, ground arith, ground arith)

-- What a lookup gives: the graph extended, and the id under which the address is found now.
pub record LookedUp (g : Graph) (addr : ℕ) (id : Option ℕ) (g' : Graph) : Type 0 where
  pub extends : Extends g g'
  pub located : (i : ℕ) → id ≡ some i → id_find g' addr ≡ some i
  pub indexed : IsIndexed g'

pub id_lookup_lem :
    (m : Alloc) (g : Graph) (addr : ℕ)
    → IsIndexed g
    → LookedUp g addr (id_lookup m g addr).0 (id_lookup m g addr).1
unfolding id_lookup
id_lookup_lem m g addr h = elim (Option-cases (id_find g addr)) [
  | inr (i, e) ↦
      rw (e, id_lookup) (record { extends = Extends-refl g; located = λ j p. e ∙ p; indexed = h })
  | inl e ↦ elim (Option-cases (grow m g)) [
    | inl full ↦
        rw (e, full, id_lookup)
          (record { extends = Extends-refl g; located = λ j p. cc; indexed = h })
    | inr (g', room) ↦
        let (same, lt, cap) = grow_lem m g g' h room in
        rw (e, room, id_lookup)
          (record {
            extends = Extends-appended g addr g'.capacity;
            located = λ j p. new-appended g addr g'.capacity e ∙ p;
            indexed = IsIndexed-appended g addr g'.capacity h e lt cap;
          })
  ]
]

-- Interning a list of links keeps ids and rows; when it succeeds every address is found.
pub record Interned (g : Graph) (ls : List LinkParams) (done : Bool) (g' : Graph) : Type 0 where
  pub extends : Extends g g'
  pub located :
      done ≡ true
      → (l : LinkParams) → Memᴰ l ls
      → (w : ℕ) × (id_find g' l.neighbor_mixaddr ≡ some w)
  pub indexed : IsIndexed g'

pub intern_links_lem :
    (m : Alloc) (g : Graph) (ls : List LinkParams)
    → IsIndexed g
    → Interned g ls (intern_links m g ls).0 (intern_links m g ls).1
unfolding intern_links
intern_links_lem m g [] h = record {
  extends = Extends-refl g;
  located = λ d l k. absurd (Memᴰ.not-nil k);
  indexed = h;
}
intern_links_lem m g (l ∷ ls) h =
    let looked = id_lookup_lem m g l.neighbor_mixaddr h in
    elim (Option-cases (id_lookup m g l.neighbor_mixaddr).0) [
      | inl e ↦
          rw (e, intern_links)
            (record { extends = looked.extends; located = λ d k q. cc; indexed = looked.indexed })
      | inr (i, e) ↦
          let rest = intern_links_lem m (id_lookup m g l.neighbor_mixaddr).1 ls looked.indexed in
          rw (e, intern_links)
            (record {
              extends = Extends-trans looked.extends rest.extends;
              located = λ d k q. elim (Memᴰ.cases_cons q) [
                | inl here ↦ (
                  i,
                  ap
                        (λ (x : LinkParams).
                          id_find (intern_links m (id_lookup m g l.neighbor_mixaddr).1 ls).1
                            x.neighbor_mixaddr)
                        here
                      ∙ rest.extends.found l.neighbor_mixaddr i (looked.located i e),
                )
                | inr later ↦ rest.located d k later
              ];
              indexed = rest.indexed;
            })
    ]
