-- ===== src/TestGraph/Shapes/Links.antt =====
-- The loops of generate_topology that add edges between the first nodes of a graph.
use mathlib.Core.Path.{ap₂}
use cmu_mixnet.Prelude.{
  ℕ, zero, suc, ◌+◌, ◌-◌, ◌<◌, ◌≡◌, refl, sym, ap, subst, ◌∙◌, inl, inr, Bool, false, not, ◌&&◌,
  ◌||◌, Option, some, [], arith, ◌==◌, ltb, Option-cases, length, length-replicate, get_or,
  get_or-replicate,
}
use cmu_mixnet.TestGraph.{TestGraph, new_graph, neighbors_of, has_neighbor, add_edge}
use cmu_mixnet.TestGraph.Symmetric.{add_edge-Joined, has_neighbor-Joined, length-test_nodes}
use cmu_mixnet.TestGraph.Shapes.{half_edge, iota, connect, line_loop, star_loop, mesh_loop}

-- Which nodes are neighbors.
abbrev pub Near : Type 0
Near = ℕ → ℕ → Bool

pub record IsShaped (n : ℕ) (near : Near) (g : TestGraph) : Type 0 where
  pub nodes : length g.nodes ≡ n
  pub rows : length g.topology ≡ n
  pub near_iff : (i j : ℕ) → has_neighbor j (neighbors_of g i) ≡ near i j

pub reshaped :
    (n : ℕ) (near near' : Near) (g : TestGraph)
    → IsShaped n near g
    → ((i j : ℕ) → near i j ≡ near' i j)
    → IsShaped n near' g
reshaped n near near' g h same = record {
  nodes = h.nodes;
  rows = h.rows;
  near_iff = λ i j. h.near_iff i j ∙ same i j;
}

abbrev pub with_link : ℕ → ℕ → Near → Near
with_link a b near i j = near i j || (((a == i) && (b == j)) || ((b == i) && (a == j)))

get_or-iota : (n i k : ℕ) → k < n → get_or (iota n i) k 0 ≡ i + k
unfolding iota
get_or-iota zero i k lt = absurd (omega arith)
get_or-iota (suc n) i zero lt = omega arith
get_or-iota (suc n) i (suc k) lt = omega (arith, get_or-iota n (i + 1) k (omega arith))

pub length-iota : (n i : ℕ) → length (iota n i) ≡ n
unfolding iota
length-iota zero i = refl
length-iota (suc n) i = ap suc (length-iota n (i + 1))

accepted :
    (a b : ℕ) (g : TestGraph)
    → a < length g.nodes
    → b < length g.nodes
    → (a == b) ≡ false
    → has_neighbor b (neighbors_of g a) ≡ false
    → (g' : TestGraph) × (add_edge (half_edge a) (half_edge b) g ≡ some g')
unfolding add_edge
accepted a b g lt lt' apart new = elim (Option-cases (add_edge (half_edge a) (half_edge b) g)) [
  | inl refused ↦ absurd (ground (arith, refused))
  | inr taken ↦ taken
]

-- A new edge between two nodes that are not neighbors yet is accepted.
pub connect_lem :
    (n a b : ℕ) (near : Near) (g : TestGraph)
    → IsShaped n near g
    → a < n
    → b < n
    → (a == b) ≡ false
    → near a b ≡ false
    → (g' : TestGraph) × (connect (iota n 0) a b g ≡ some g') × IsShaped n (with_link a b near) g'
unfolding connect
connect_lem n a b near g h lt lt' apart new =
    let first : get_or (iota n 0) a 0 ≡ a = omega (arith, get_or-iota n 0 a lt) in
    let second : get_or (iota n 0) b 0 ≡ b = omega (arith, get_or-iota n 0 b lt') in
    let (g', made) =
      accepted a b g (omega (arith, h.nodes)) (omega (arith, h.nodes)) apart
        (h.near_iff a b ∙ new) in
    let joined = add_edge-Joined (half_edge a) (half_edge b) g g' (h.rows ∙ sym h.nodes) made in
    let (m, t) = joined.sizes in
    (
      g',
      ap₂ (λ (x y : ℕ). add_edge (half_edge x) (half_edge y) g) first second ∙ made,
      record {
        nodes = m ∙ h.nodes;
        rows = t ∙ h.rows;
        near_iff = λ i j.
            has_neighbor-Joined a b g g' i j joined
            ∙ ap (λ (x : Bool). x || (((a == i) && (b == j)) || ((b == i) && (a == j))))
                (h.near_iff i j);
      },
    )

-- A loop that has come to `k` has one more edge.
abbrev pub Ends : ℕ → Near → Option TestGraph → Type 0
Ends n near found = (g : TestGraph) × (found ≡ some g) × IsShaped n near g

abbrev pub near_line : ℕ → Near
near_line k i j = ((j == i + 1) && ltb i k) || ((i == j + 1) && ltb j k)

pub line_loop_lem :
    (n m k : ℕ) (g : TestGraph)
    → IsShaped n (near_line k) g
    → k + m + 1 ≡ n
    → Ends n (near_line (n - 1)) (line_loop (iota n 0) m k g)
unfolding line_loop
line_loop_lem n zero k g h e =
    (g, refl, reshaped n (near_line k) (near_line (n - 1)) g h (λ i j. ground arith))
line_loop_lem n (suc m) k g h e =
    let (g1, made, h1) =
      connect_lem n k (k + 1) (near_line k) g h (omega arith) (omega arith) (ground arith)
        (ground arith) in
    let h2 =
      reshaped n (with_link k (k + 1) (near_line k)) (near_line (k + 1)) g1 h1
        (λ i j. ground arith) in
    let (g2, rest, h3) = line_loop_lem n m (k + 1) g1 h2 (omega arith) in
    (g2, rw (made, line_loop) rest, h3)

-- Every two of the first `k` vertices, the vertex `k` with those before `l`.
abbrev pub near_mesh : ℕ → ℕ → ℕ → Near
near_mesh n k l i j =
    not (i == j)
    && (ltb i n && ltb j n)
    && ((ltb i k || ltb j k) || ((i == k) && ltb j l) || ((j == k) && ltb i l))

pub star_loop_lem :
    (n k m l : ℕ) (g : TestGraph)
    → IsShaped n (near_mesh n k l) g
    → k < l
    → l + m ≡ n
    → Ends n (near_mesh n k n) (star_loop (iota n 0) k m l g)
unfolding star_loop
star_loop_lem n k zero l g h lt e =
    (g, refl, subst (λ (x : ℕ). IsShaped n (near_mesh n k x) g) (omega arith) h)
star_loop_lem n k (suc m) l g h lt e =
    let (g1, made, h1) =
      connect_lem n k l (near_mesh n k l) g h (omega arith) (omega arith) (ground arith)
        (ground arith) in
    let h2 =
      reshaped n (with_link k l (near_mesh n k l)) (near_mesh n k (l + 1)) g1 h1
        (λ i j. ground arith) in
    let (g2, rest, h3) = star_loop_lem n k m (l + 1) g1 h2 (omega arith) (omega arith) in
    (g2, rw (made, star_loop) rest, h3)

pub mesh_loop_lem :
    (n m k : ℕ) (g : TestGraph)
    → IsShaped n (near_mesh n k (k + 1)) g
    → k + m ≡ n
    → Ends n (near_mesh n n (n + 1)) (mesh_loop (iota n 0) m k g)
unfolding mesh_loop
mesh_loop_lem n zero k g h e =
    (g, refl, subst (λ (x : ℕ). IsShaped n (near_mesh n x (x + 1)) g) (omega arith) h)
mesh_loop_lem n (suc m) k g h e =
    let (g1, made, h1) = star_loop_lem n k m (k + 1) g h (omega arith) (omega arith) in
    let h2 =
      reshaped n (near_mesh n k n) (near_mesh n (k + 1) (k + 1 + 1)) g1 h1 (λ i j. ground arith) in
    let (g2, rest, h3) = mesh_loop_lem n m (k + 1) g1 h2 (omega arith) in
    (g2, rw (made, mesh_loop) rest, h3)

pub fresh : (n : ℕ) (near : Near) → ((i j : ℕ) → near i j ≡ false) → IsShaped n near (new_graph n)
unfolding new_graph has_neighbor
fresh n near nobody = record {
  nodes = length-test_nodes n 0;
  rows = length-replicate n [];
  near_iff = λ i j. ap (has_neighbor j) (get_or-replicate n i []) ∙ sym (nobody i j);
}
