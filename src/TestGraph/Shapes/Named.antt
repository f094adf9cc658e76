-- ===== src/TestGraph/Shapes/Named.antt =====
-- What generate_topology makes of a graph without edges.
use native.Mathlib.Nat.{mod_self, mod-eq_of_lt}
use cmu_mixnet.Prelude.{
  ℕ, zero, suc, ◌+◌, ◌-◌, ◌%◌, ◌<◌, ◌≡◌, refl, ap, subst, ◌∙◌, inl, inr, true, false, not, ◌&&◌,
  ◌||◌, some, [], arith, if◌then◌else◌, ◌==◌, ltb, Bool-cases, length,
}
use cmu_mixnet.TestGraph.{TestGraph, new_graph, neighbors_of, has_neighbor}
use cmu_mixnet.TestGraph.Symmetric.{length-test_nodes}
use cmu_mixnet.TestGraph.Shapes.{
  Shape, line, ring, star, full_mesh, iota, ring_loop, add_shape, generate_topology,
}
use cmu_mixnet.TestGraph.Shapes.Links.{
  Near, IsShaped, reshaped, with_link, connect_lem, length-iota, Ends, near_line, line_loop_lem,
  near_mesh, star_loop_lem, mesh_loop_lem, fresh,
}

-- The vertex behind `i` on a ring.
pub behind : ℕ → ℕ → ℕ
behind n i = if i + 1 == n then 0 else i + 1

abbrev near_ring : ℕ → ℕ → Near
near_ring n k i j = ((j == behind n i) && ltb i k) || ((i == behind n j) && ltb j k)

next_lem : (n k : ℕ) → k < n → (k + 1) % n ≡ behind n k
unfolding behind
next_lem n k lt = elim (Bool-cases (k + 1 == n)) [
  | inl last ↦
      let e : k + 1 ≡ n = ground arith in ap (λ (x : ℕ). x % n) e ∙ mod_self n ∙ ground arith
  | inr before ↦ mod-eq_of_lt (ground arith) ∙ ground arith
]

-- Whether `i` and `j` are neighbors in a topology of `n` nodes.
pub near_in : Shape → ℕ → Near
near_in line n i j = (ltb i n && ltb j n) && ((j == i + 1) || (i == j + 1))
near_in ring n i j = (ltb i n && ltb j n) && ((j == behind n i) || (i == behind n j))
near_in star n i j = (ltb i n && ltb j n) && (not (i == j) && ((i == 0) || (j == 0)))
near_in full_mesh n i j = (ltb i n && ltb j n) && not (i == j)

behind_apart : (n k : ℕ) → 1 < n → k < n → (behind n k < n) × ((k == behind n k) ≡ false)
unfolding behind
behind_apart n k big lt = (ground arith, ground arith)

ring_new : (n k : ℕ) → 2 < n → k < n → near_ring n k k (behind n k) ≡ false
unfolding behind
ring_new n k big lt = ground arith

ring_grows : (n k i j : ℕ) → with_link k (behind n k) (near_ring n k) i j ≡ near_ring n (k + 1) i j
ring_grows n k i j = elim (Bool-cases (k == i)) [
  | inl e ↦
      let f : behind n k ≡ behind n i = ap (behind n) (ground arith) in
      elim (Bool-cases (k == j)) [
        | inl e' ↦ let f' : behind n k ≡ behind n j = ap (behind n) (ground arith) in ground arith
        | inr e' ↦ ground arith
      ]
  | inr e ↦ elim (Bool-cases (k == j)) [
    | inl e' ↦ let f' : behind n k ≡ behind n j = ap (behind n) (ground arith) in ground arith
    | inr e' ↦ ground arith
  ]
]

ring_closed : (n : ℕ) → 1 < n → (i j : ℕ) → near_ring n n i j ≡ near_in ring n i j
unfolding near_in
ring_closed n big i j =
    let to_i = λ (lt : i < n). (behind_apart n i big lt).0 in
    let to_j = λ (lt : j < n). (behind_apart n j big lt).0 in ground (arith, to_i, to_j)

ring_loop_lem :
    (n m k : ℕ) (g : TestGraph)
    → 2 < n
    → IsShaped n (near_ring n k) g
    → k + m ≡ n
    → Ends n (near_ring n n) (ring_loop (iota n 0) m k g)
unfolding ring_loop
ring_loop_lem n zero k g big h e =
    (g, refl, subst (λ (x : ℕ). IsShaped n (near_ring n x) g) (omega arith) h)
ring_loop_lem n (suc m) k g big h e =
    let (inside, apart) = behind_apart n k (omega arith) (omega arith) in
    let (g1, made, h1) =
      connect_lem n k (behind n k) (near_ring n k) g h (omega arith) inside apart
        (ring_new n k big (omega arith)) in
    let h2 =
      reshaped n (with_link k (behind n k) (near_ring n k)) (near_ring n (k + 1)) g1 h1
        (ring_grows n k) in
    let (g2, rest, h3) = ring_loop_lem n m (k + 1) g1 big h2 (omega arith) in
    let next : (k + 1) % length (iota n 0) ≡ behind n k =
      ap (λ (x : ℕ). (k + 1) % x) (length-iota n 0) ∙ next_lem n k (omega arith) in
    (g2, rw (next, made, ring_loop) rest, h3)

add_shape_lem :
    (t : Shape) (n : ℕ)
    → 1 < n
    → (t ≡ ring → 2 < n)
    → Ends n (near_in t n) (add_shape t (iota n 0) (new_graph n))
unfolding add_shape near_in
add_shape_lem line n big big_ring =
    let (g, made, h) =
      line_loop_lem n (n - 1) 0 (new_graph n) (fresh n (near_line 0) (λ i j. ground arith))
        (omega arith) in
    (
      g,
      rw (length-iota n 0) made,
      reshaped n (near_line (n - 1)) (near_in line n) g h (λ i j. ground arith),
    )
add_shape_lem ring n big big_ring =
    let (g, made, h) =
      ring_loop_lem n n 0 (new_graph n) (big_ring refl)
        (fresh n (near_ring n 0) (λ i j. ground arith)) (omega arith) in
    let enough : ltb 2 n ≡ true = ground (arith, big_ring refl) in
    (
      g,
      rw (length-iota n 0, enough) made,
      reshaped n (near_ring n n) (near_in ring n) g h (ring_closed n big),
    )
add_shape_lem star n big big_ring =
    let (g, made, h) =
      star_loop_lem n 0 (n - 1) 1 (new_graph n) (fresh n (near_mesh n 0 1) (λ i j. ground arith))
        (omega arith) (omega arith) in
    (
      g,
      rw (length-iota n 0) made,
      reshaped n (near_mesh n 0 n) (near_in star n) g h (λ i j. ground arith),
    )
add_shape_lem full_mesh n big big_ring =
    let (g, made, h) =
      mesh_loop_lem n n 0 (new_graph n) (fresh n (near_mesh n 0 (0 + 1)) (λ i j. ground arith))
        (omega arith) in
    (
      g,
      rw (length-iota n 0) made,
      reshaped n (near_mesh n n (n + 1)) (near_in full_mesh n) g h (λ i j. ground arith),
    )

-- On two nodes or more, three for a ring, generate_topology with no indices makes the topology that
-- it is asked for out of a graph without edges: no assertion fails, and two nodes are neighbors
-- exactly if they stand beside each other on the line or on the ring, if one of them is the star's
-- centre, or, in the full mesh, if they are two.
pub generate_topology_lem :
    (t : Shape) (n : ℕ)
    → 1 < n
    → (t ≡ ring → 2 < n)
    → (g : TestGraph) × (generate_topology t [] (new_graph n) ≡ some g)
      × ((i j : ℕ) → has_neighbor j (neighbors_of g i) ≡ near_in t n i j)
unfolding generate_topology new_graph
generate_topology_lem t n big big_ring =
    let (g, made, h) = add_shape_lem t n big big_ring in
    let nodes = length-test_nodes n 0 in
    let some_nodes : ltb n 2 ≡ false = ground arith in
    (g, rw (nodes, some_nodes, generate_topology) made, h.near_iff)
