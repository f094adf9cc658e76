-- ===== src/Topology.antt =====
-- The adjacency list of the network (struct vertex, struct graph, id_find, id_lookup and
-- graph_update of mixnet/node.c). The number of links of a row and the number of vertices are the
-- lengths of their lists.
pub mod Find
pub mod Intern
pub mod Update
pub mod Invariant
pub mod Change
use mathlib.Core.Option
use cmu_mixnet.Prelude.{
  ℕ, suc, ◌*◌, Bool, true, false, ◌&&◌, ◌||◌, Option, none, some, List, [], ◌∷◌, ◌++◌,
  if◌then◌else◌, ◌==◌, ltb, length, get_or, set,
}
use cmu_mixnet.Packet.{LinkParams}
use cmu_mixnet.Config.{Alloc, vertex_rows, row_links}

pub record Vertex : Type 0 where
  pub addr : ℕ
  pub advertised : Bool
  pub links : List LinkParams

pub record Graph : Type 0 where
  pub v : List Vertex
  pub capacity : ℕ

abbrev pub no_vertex : Vertex
no_vertex = record { addr = 0; advertised = false; links = [] }

-- g->v[id]; every read is in range.
abbrev pub vertex_at : Graph → ℕ → Vertex
vertex_at g id = get_or g.v id no_vertex

pub id_scan : List Vertex → ℕ → Option ℕ
id_scan [] addr = none
id_scan (x ∷ xs) addr = if x.addr == addr then some 0 else Option.map suc (id_scan xs addr)

unfoldable pub id_find : Graph → ℕ → Option ℕ
unfolding id_scan
id_find g addr = id_scan g.v addr

-- Room for one more vertex, or none when there is no memory or the capacity leaves uint16_t.
pub grow : Alloc → Graph → Option Graph
grow m g =
    let cap : ℕ = if g.capacity == 0 then 8 else g.capacity * 2 in
    if length g.v == g.capacity
    then if ltb 65535 cap
      then none
      else if m vertex_rows g.capacity
      then some (record g { capacity = cap })
      else none
    else some g

abbrev pub new_vertex : ℕ → Vertex
new_vertex addr = record { addr = addr; advertised = false; links = [] }

-- The vertex id of an address, found or appended, and the graph after it.
unfoldable pub id_lookup : Alloc → Graph → ℕ → Option ℕ × Graph
unfolding grow
id_lookup m g addr = elim (id_find g addr) [
  | some id ↦ (some id, g)
  | none ↦ elim (grow m g) [
    | none ↦ (none, g)
    | some g' ↦ (some (length g.v), record g' { v = g.v ++ new_vertex addr ∷ [] })
  ]
]

-- memcmp(...) == 0 on two rows, with the comparison of their lengths before it.
pub same_links : List LinkParams → List LinkParams → Bool
same_links [] [] = true
same_links [] (l ∷ ls) = false
same_links (k ∷ ks) [] = false
same_links (k ∷ ks) (l ∷ ls) =
    (k.neighbor_mixaddr == l.neighbor_mixaddr) && (k.cost == l.cost) && same_links ks ls

-- The loop that interns every address of an advertisement.
pub intern_links : Alloc → Graph → List LinkParams → Bool × Graph
intern_links m g [] = (true, g)
intern_links m g (l ∷ ls) =
    let (id, g') = id_lookup m g l.neighbor_mixaddr in
    elim id [ none ↦ (false, g') | some _ ↦ intern_links m g' ls ]

-- From the row pointer on: keep a row that is the same already, replace any other.
pub install_links : Alloc → Graph → ℕ → List LinkParams → Bool × Graph
unfolding same_links
install_links m g id links =
    let row = vertex_at g id in
    if row.advertised && same_links row.links links
    then (false, g)
    else if (length links == 0) || m row_links 0
    then (true, record g { v = set g.v id (record row { advertised = true; links = links }) })
    else (false, g)

unfoldable pub graph_update : Alloc → Graph → ℕ → List LinkParams → Bool × Graph
unfolding intern_links install_links
graph_update m g origin links =
    let (interned, g1) = intern_links m g links in
    let (id, g2) = id_lookup m g1 origin in
    if interned
    then elim id [ none ↦ (false, g2) | some i ↦ install_links m g2 i links ]
    else (false, g1)
