-- ===== src/TestGraph/Symmetric.antt =====
-- The adjacency lists of a test's graph are symmetric, and run beside the lists of link costs.
use cmu_mixnet.Prelude.{
  ℕ, zero, suc, ◌+◌, ◌<◌, ◌≡◌, refl, sym, ap, subst, ◌∙◌, inl, inr, true, false, not, ◌&&◌, ◌||◌,
  some, List, [], ◌∷◌, ◌++◌, arith, if◌then◌else◌, ◌==◌, ltb, Bool-cases, length, length-append,
  length-set, length-replicate, get_or, get_or-set, get_or-replicate,
}
use mathlib.Core.Option.{some-injective}
use cmu_mixnet.TestGraph.{
  TestNode, TestGraph, HalfEdge, test_node, test_nodes, new_graph, node_at, neighbors_of,
  has_neighbor, add_link_cost, add_neighbor, add_edge, with_mixaddrs, set_mixaddrs,
}

pub record IsSymmetric (g : TestGraph) : Type 0 where
  pub sized : length g.topology ≡ length g.nodes
  pub in_range :
      (i j : ℕ)
      → has_neighbor j (neighbors_of g i) ≡ true
      → (i < length g.nodes) × (j < length g.nodes)
  pub mirrored :
      (i j : ℕ)
      → has_neighbor j (neighbors_of g i) ≡ true
      → has_neighbor i (neighbors_of g j) ≡ true
  pub costs : (i : ℕ) → length (node_at g i).link_costs ≡ length (neighbors_of g i)

has_neighbor-append :
    (xs : List ℕ) (x j : ℕ) → has_neighbor j (xs ++ x ∷ []) ≡ (has_neighbor j xs || (x == j))
unfolding has_neighbor
has_neighbor-append [] x j = ground arith
has_neighbor-append (y ∷ xs) x j = ground (arith, has_neighbor-append xs x j)

neighbors_of-add :
    (g : TestGraph) (id other i : ℕ)
    → id < length g.topology
    → neighbors_of (add_neighbor id other g) i
      ≡ (if id == i then neighbors_of g id ++ other ∷ [] else neighbors_of g i)
neighbors_of-add g id other i lt =
    ground (arith, get_or-set g.topology id i (neighbors_of g id ++ other ∷ []) [])

costs-add :
    (g : TestGraph) (id cost i : ℕ)
    → id < length g.nodes
    → (node_at (add_link_cost id cost g) i).link_costs
      ≡ (if id == i then (node_at g id).link_costs ++ cost ∷ [] else (node_at g i).link_costs)
costs-add g id cost i lt = ground (
  arith,
  get_or-set g.nodes id i
      (record (node_at g id) { link_costs = (node_at g id).link_costs ++ cost ∷ [] })
      (test_node 65535),
)

-- What an edge that passes the assertions makes of the graph.
pub record Joined (a b : ℕ) (g g' : TestGraph) : Type 0 where
  pub sizes : (length g'.nodes ≡ length g.nodes) × (length g'.topology ≡ length g.topology)
  pub fits : (a < length g.nodes) × (b < length g.nodes)
  pub apart : (a == b) ≡ false
  pub lists :
      (i : ℕ)
      → neighbors_of g' i ≡ (
          if a == i
          then neighbors_of g a ++ b ∷ []
          else if b == i
          then neighbors_of g b ++ a ∷ []
          else neighbors_of g i)
  pub lengths :
      (i : ℕ)
      → length (node_at g' i).link_costs
        ≡ (length (node_at g i).link_costs + (if (a == i) || (b == i) then 1 else 0))

pub add_edge-Joined :
    (src dst : HalfEdge) (g g' : TestGraph)
    → length g.topology ≡ length g.nodes
    → add_edge src dst g ≡ some g'
    → Joined src.id dst.id g g'
unfolding add_edge
add_edge-Joined src dst g g' sized h =
    elim (Bool-cases (
      not (ltb src.id (length g.nodes) && ltb dst.id (length g.nodes))
      || ((src.id == dst.id) || has_neighbor dst.id (neighbors_of g src.id)))) [
        | inl refused ↦ let never = rw (refused, add_edge) at h in absurd (cc)
        | inr fine ↦
            let made = some-injective _ _ (rw (fine, add_edge) at h) in
            let g1 = add_link_cost src.id src.cost g in
            let g2 = add_link_cost dst.id dst.cost g1 in
            let g3 = add_neighbor src.id dst.id g2 in
            let s1 = length-set g.nodes src.id (record (node_at g src.id) {
              link_costs = (node_at g src.id).link_costs ++ src.cost ∷ [];
            }) in
            let s2 = length-set g1.nodes dst.id (record (node_at g1 dst.id) {
              link_costs = (node_at g1 dst.id).link_costs ++ dst.cost ∷ [];
            }) in
            let t1 = length-set g.topology src.id (neighbors_of g src.id ++ dst.id ∷ []) in
            let t2 = length-set g3.topology dst.id (neighbors_of g3 dst.id ++ src.id ∷ []) in
            let apart : (src.id == dst.id) ≡ false = ground arith in
            let src_lt : src.id < length g.nodes = ground arith in
            let dst_lt : dst.id < length g.nodes = ground arith in
            subst (Joined src.id dst.id g) made (record {
              sizes = (s2 ∙ s1, t2 ∙ t1);
              fits = (src_lt, dst_lt);
              apart = apart;
              lists = λ i.
                  let last =
                    neighbors_of-add g3 dst.id src.id i (omega (arith, t1, dst_lt, sized)) in
                  let at_dst =
                    neighbors_of-add g2 src.id dst.id dst.id (omega (arith, src_lt, sized)) in
                  let at_i = neighbors_of-add g2 src.id dst.id i (omega (arith, src_lt, sized)) in
                  ground (arith, last, at_dst, at_i);
              lengths = λ i.
                  let last = costs-add g1 dst.id dst.cost i (omega (arith, s1, dst_lt)) in
                  let at_dst = costs-add g src.id src.cost dst.id src_lt in
                  let at_i = costs-add g src.id src.cost i src_lt in
                  ground (
                    arith,
                    last,
                    at_dst,
                    at_i,
                    length-append (node_at g src.id).link_costs (src.cost ∷ []),
                    length-append (node_at g1 dst.id).link_costs (dst.cost ∷ []),
                  );
            })
      ]

-- The neighbors after a new edge.
pub has_neighbor-Joined :
    (a b : ℕ) (g g' : TestGraph) (i j : ℕ)
    → Joined a b g g'
    → has_neighbor j (neighbors_of g' i)
      ≡ (has_neighbor j (neighbors_of g i) || (((a == i) && (b == j)) || ((b == i) && (a == j))))
has_neighbor-Joined a b g g' i j joined =
    let row = ap (has_neighbor j) (joined.lists i) in
    let apart = joined.apart in
    ground (
      arith,
      row,
      has_neighbor-append (neighbors_of g a) b j,
      has_neighbor-append (neighbors_of g b) a j,
    )

Joined-IsSymmetric : (a b : ℕ) (g g' : TestGraph) → IsSymmetric g → Joined a b g g' → IsSymmetric g'
Joined-IsSymmetric a b g g' h joined =
    let (n, t) = joined.sizes in
    let (a_lt, b_lt) = joined.fits in
    let apart = joined.apart in
    record {
      sized = t ∙ h.sized ∙ sym n;
      in_range = λ i j near.
          let new = has_neighbor-Joined a b g g' i j joined in
          let old = h.in_range i j in (ground (arith, n, old), ground (arith, n, old));
      mirrored = λ i j near.
          let new = has_neighbor-Joined a b g g' i j joined in
          let back = has_neighbor-Joined a b g g' j i joined in
          let old = h.mirrored i j in ground (arith, old);
      costs = λ i.
          let row = ap length (joined.lists i) in
          let longer = joined.lengths i in
          ground (
            arith,
            h.costs i,
            row,
            longer,
            length-append (neighbors_of g a) (b ∷ []),
            length-append (neighbors_of g b) (a ∷ []),
          );
    }

-- The graphs that a test can make.
pub data Built (n : ℕ) : TestGraph → Type 0 where
  fresh_graph : Built n (new_graph n)
  with_edge :
      {g g' : TestGraph} (src dst : HalfEdge)
      → Built n g
      → add_edge src dst g ≡ some g'
      → Built n g'
  readdressed :
      {g g' : TestGraph} (addrs : List ℕ) → Built n g → set_mixaddrs addrs g ≡ some g' → Built n g'

pub length-test_nodes : (n i : ℕ) → length (test_nodes n i) ≡ n
length-test_nodes zero i = refl
length-test_nodes (suc n) i = ap suc (length-test_nodes n (i + 1))

no_costs : (n i k : ℕ) → (get_or (test_nodes n i) k (test_node 65535)).link_costs ≡ []
no_costs zero i k = refl
no_costs (suc n) i zero = refl
no_costs (suc n) i (suc k) = no_costs n (i + 1) k

new_graph-IsSymmetric : (n : ℕ) → IsSymmetric (new_graph n)
unfolding new_graph has_neighbor
new_graph-IsSymmetric n =
    let nobody : (i j : ℕ) → has_neighbor j (neighbors_of (new_graph n) i) ≡ false =
      λ i j. ap (has_neighbor j) (get_or-replicate n i []) in
    record {
      sized = length-replicate n [] ∙ sym (length-test_nodes n 0);
      in_range = λ i j near. absurd (let e = nobody i j in cc);
      mirrored = λ i j near. absurd (let e = nobody i j in cc);
      costs = λ i. ap length (no_costs n 0 i) ∙ sym (ap length (get_or-replicate n i []));
    }

with_mixaddrs_lem :
    (nodes : List TestNode) (addrs : List ℕ) (i : ℕ)
    → (length (with_mixaddrs nodes addrs) ≡ length nodes)
      × ((get_or (with_mixaddrs nodes addrs) i (test_node 65535)).link_costs
          ≡ (get_or nodes i (test_node 65535)).link_costs)
unfolding with_mixaddrs
with_mixaddrs_lem [] addrs i = (refl, refl)
with_mixaddrs_lem (x ∷ xs) [] i = (refl, refl)
with_mixaddrs_lem (x ∷ xs) (addr ∷ addrs) zero = (ap suc (with_mixaddrs_lem xs addrs 0).0, refl)
with_mixaddrs_lem (x ∷ xs) (addr ∷ addrs) (suc i) =
    (ap suc (with_mixaddrs_lem xs addrs i).0, (with_mixaddrs_lem xs addrs i).1)

set_mixaddrs-IsSymmetric :
    (addrs : List ℕ) (g g' : TestGraph)
    → IsSymmetric g
    → set_mixaddrs addrs g ≡ some g'
    → IsSymmetric g'
unfolding set_mixaddrs
set_mixaddrs-IsSymmetric addrs g g' h made = elim (Bool-cases (length addrs == length g.nodes)) [
  | inr refused ↦ let never = rw (refused, set_mixaddrs) at made in absurd (cc)
  | inl fits ↦
      let same = some-injective _ _ (rw (fits, set_mixaddrs) at made) in
      let n = (with_mixaddrs_lem g.nodes addrs 0).0 in
      subst IsSymmetric same (record {
        sized = h.sized ∙ sym n;
        in_range =
            λ i j near. let (x, y) = h.in_range i j near in (omega (arith, n), omega (arith, n));
        mirrored = h.mirrored;
        costs = λ i. ap length (with_mixaddrs_lem g.nodes addrs i).1 ∙ h.costs i;
      })
]

-- In every graph that a test makes of nodes, edges and addresses, the neighbors of each node have
-- it as a neighbor too, every neighbor is a node, and a node has as many link costs as neighbors.
pub Built-IsSymmetric : (n : ℕ) (g : TestGraph) → Built n g → IsSymmetric g
Built-IsSymmetric n g fresh_graph = new_graph-IsSymmetric n
Built-IsSymmetric n g (with_edge {g = before} src dst built made) =
    let h = Built-IsSymmetric n before built in
    Joined-IsSymmetric src.id dst.id before g h (add_edge-Joined src dst before g h.sized made)
Built-IsSymmetric n g (readdressed {g = before} addrs built made) =
    set_mixaddrs-IsSymmetric addrs before g (Built-IsSymmetric n before built) made
