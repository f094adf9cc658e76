-- ===== src/Paths/Correct.antt =====
-- Dijkstra's loop ends, and its rows are the shortest walks.
use cmu_mixnet.Prelude.{
  ℕ, zero, suc, ◌+◌, ◌*◌, ◌≤◌, ◌<◌, ◌≡◌, refl, sym, ap, subst, ◌∙◌, ◌≢◌, inl, inr, true, false,
  none, some, List, [], ◌∷◌, map, arith, ◌==◌, Bool-cases, Option-cases, if◌then◌else◌, length,
  get_or-set, length-set,
}
use cmu_mixnet.Config.{Alloc, sp_table}
use cmu_mixnet.Topology.{Graph, Vertex, vertex_at}
use cmu_mixnet.Paths.{
  SpVertex, infinite_cost, unreached, sp_at, pick, relax, settle, dijkstra_loop, initial_rows,
  run_dijkstra,
}
use cmu_mixnet.Paths.Walk.{Walk, here, step, IsSized}
use cmu_mixnet.Paths.Pick.{best_cost, IsOpen, pick-le, pick-IsOpen}
use cmu_mixnet.Paths.Count.{count_settled, count_settled-le}
use cmu_mixnet.Paths.Invariant.{Inv, next-Inv, count_next}

-- No open vertex is left.
abbrev pub IsDone : List SpVertex → Type 0
IsDone sp = (i : ℕ) → (sp_at sp i).settled ≡ false → (sp_at sp i).cost ≡ infinite_cost

module _ (g : Graph) (self : ℕ) where
  pick_least :
      (sp : List SpVertex) (u : ℕ) (x : SpVertex)
      → Inv g self sp
      → pick sp 0 none ≡ some (u, x)
      → (i : ℕ) → (sp_at sp i).settled ≡ false
      → (sp_at sp u).cost ≤ (sp_at sp i).cost
  pick_least sp u x inv e i h =
      let (lt, at, o) = pick-IsOpen sp u x e in
      grind
        (arith, pick-le sp 0 none i inv.capped, ap best_cost e, ap SpVertex.cost at, inv.capped u)

  pick-none : (sp : List SpVertex) → Inv g self sp → pick sp 0 none ≡ none → IsDone sp
  pick-none sp inv e i h =
      grind (arith, pick-le sp 0 none i inv.capped, ap best_cost e, inv.capped i)

  loop_lem :
      (fuel : ℕ) (sp : List SpVertex)
      → IsSized g
      → Inv g self sp
      → length sp < count_settled sp + fuel
      → Inv g self (dijkstra_loop fuel g sp) × IsDone (dijkstra_loop fuel g sp)
  unfolding dijkstra_loop
  loop_lem zero sp sized inv h = absurd (omega (arith, count_settled-le sp))
  loop_lem (suc fuel) sp sized inv h = elim (Option-cases (pick sp 0 none)) [
    | inl e ↦ rw (e, dijkstra_loop) (inv, pick-none sp inv e)
    | inr ((u, x), e) ↦
        let (lt, at, o) = pick-IsOpen sp u x e in
        let o' = subst IsOpen (sym at) o in
        let next = next-Inv g self sized sp inv u lt o' (pick_least sp u x inv e) in
        let counted = count_next g self sized sp inv u lt o' (pick_least sp u x inv e) in
        rw (e, dijkstra_loop)
          (loop_lem fuel (relax g u (vertex_at g u).links (settle sp u)) sized next
            (omega (arith, counted, next.size, inv.size)))
  ]

  blank_row : (vs : List Vertex) (i : ℕ) → sp_at (map (λ (_ : Vertex). unreached) vs) i ≡ unreached
  blank_row [] i = refl
  blank_row (v ∷ vs) zero = refl
  blank_row (v ∷ vs) (suc i) = blank_row vs i

  length-blank : (vs : List Vertex) → length (map (λ (_ : Vertex). unreached) vs) ≡ length vs
  length-blank [] = refl
  length-blank (v ∷ vs) = ap suc (length-blank vs)

  abbrev start_row : SpVertex
  start_row = record { cost = 0; path = []; settled = false }

  initial_row :
      (i : ℕ)
      → self < length g.v
      → sp_at (initial_rows g self) i ≡ (if self == i then start_row else unreached)
  unfolding initial_rows
  initial_row i lt = ground (
    arith,
    get_or-set (map (λ (_ : Vertex). unreached) g.v) self i start_row unreached,
    blank_row g.v i,
    length-blank g.v,
  )

  initial_unsettled : (i : ℕ) → self < length g.v → (sp_at (initial_rows g self) i).settled ≡ false
  initial_unsettled i lt = ground (arith, initial_row i lt)

  initial-walks :
      (i : ℕ)
      → self < length g.v
      → (sp_at (initial_rows g self) i).cost < infinite_cost
      → Walk g self i (sp_at (initial_rows g self) i).cost (sp_at (initial_rows g self) i).path
  initial-walks i lt h = elim (Bool-cases (self == i)) [
    | inl e ↦
        let row : sp_at (initial_rows g self) i ≡ start_row = ground (arith, initial_row i lt) in
        let same : self ≡ i = ground arith in
        subst (λ (r : SpVertex). Walk g self i r.cost r.path) (sym row)
          (subst (λ k. Walk g self k 0 []) same here)
    | inr e ↦ absurd (ground (arith, initial_row i lt))
  ]

  initial-Inv : self < length g.v → Inv g self (initial_rows g self)
  unfolding initial_rows
  initial-Inv lt = record {
    size = length-set _ self start_row ∙ length-blank g.v;
    source = ground (arith, initial_row self lt);
    capped = λ i. ground (arith, initial_row i lt);
    finite = λ i h. ground (arith, initial_unsettled i lt);
    bound = λ i h. ground (arith, initial_row i lt);
    short = λ i. ground (arith, initial_row i lt);
    ordered = λ x y hx hy. ground (arith, initial_unsettled x lt);
    relaxed = λ x l w h m found. ground (arith, initial_unsettled x lt);
    walks = λ i h. initial-walks i lt h;
  }

  -- The result of the loop that run_dijkstra starts.
  loop_rows :
      IsSized g
      → self < length g.v
      → Inv g self (dijkstra_loop (suc (length g.v)) g (initial_rows g self))
        × IsDone (dijkstra_loop (suc (length g.v)) g (initial_rows g self))
  loop_rows sized lt =
      let start = initial-Inv lt in
      loop_lem (suc (length g.v)) (initial_rows g self) sized start (omega (arith, start.size))

  rows_of :
      (m : Alloc) (sp : List SpVertex)
      → IsSized g
      → self < length g.v
      → run_dijkstra m g self ≡ some sp
      → Inv g self sp × IsDone sp
  unfolding run_dijkstra
  rows_of m sp sized lt e =
      let same : dijkstra_loop (suc (length g.v)) g (initial_rows g self) ≡ sp = ground arith in
      subst (λ r. Inv g self r × IsDone r) same (loop_rows sized lt)

  Walk-cost :
      (sp : List SpVertex)
      → IsSized g
      → Inv g self sp
      → IsDone sp
      → {w c : ℕ} {p : List ℕ} → Walk g self w c p
      → ((sp_at sp w).cost < infinite_cost) × ((sp_at sp w).cost ≤ c)
  Walk-cost sp sized inv done here = omega (arith, inv.source)
  Walk-cost sp sized inv done (step {u} l w walk m found) =
      let (reached, le) = Walk-cost sp sized inv done walk in
      elim (Bool-cases (sp_at sp u).settled) [
        | inl s ↦ omega (
          arith,
          inv.relaxed u l w s m found,
          inv.bound u reached,
          inv.short u,
          inv.size,
          count_settled-le sp,
          sized.count,
          sized.costs u l m,
        )
        | inr o ↦ absurd (omega (arith, done u o))
      ]

-- In a topology within the bounds of its words, from a vertex of it and with memory granted,
-- run_dijkstra returns rows, and its loop ended by its own test: every vertex that some path has
-- reached is settled.
pub run_dijkstra_returns :
    (m : Alloc) (g : Graph) (self : ℕ)
    → IsSized g
    → self < length g.v
    → m sp_table 0 ≡ true
    → (sp : List SpVertex) × (run_dijkstra m g self ≡ some sp) × IsDone sp
unfolding run_dijkstra
run_dijkstra_returns m g self sized lt granted = (
  dijkstra_loop (suc (length g.v)) g (initial_rows g self),
  ground arith,
  (loop_rows g self sized lt).1,
)

-- A row that run_dijkstra marks as reached holds a walk to its vertex over advertised links and the
-- cost of that walk; every walk leads to a reached row that costs no more than the walk does.
pub run_dijkstra_shortest :
    (m : Alloc) (g : Graph) (self : ℕ) (sp : List SpVertex) (w : ℕ)
    → IsSized g
    → self < length g.v
    → run_dijkstra m g self ≡ some sp
    → ((sp_at sp w).cost ≢ infinite_cost → Walk g self w (sp_at sp w).cost (sp_at sp w).path)
      × ((c : ℕ) (p : List ℕ)
          → Walk g self w c p
          → ((sp_at sp w).cost ≢ infinite_cost) × ((sp_at sp w).cost ≤ c))
run_dijkstra_shortest m g self sp w sized lt e =
    let (inv, done) = rows_of g self m sp sized lt e in
    (
      λ reached. inv.walks w (omega (arith, inv.capped w)),
      λ c p walk.
          let (finite, le) = Walk-cost g self sp sized inv done walk in (λ never. omega arith, le),
    )

-- Every path fits its row of `count` addresses, and a reached row's cost is at most 65535 for each
-- hop of its path.
pub run_dijkstra_bounds :
    (m : Alloc) (g : Graph) (self : ℕ) (sp : List SpVertex) (w : ℕ)
    → IsSized g
    → self < length g.v
    → run_dijkstra m g self ≡ some sp
    → (length sp ≡ length g.v)
      × (length (sp_at sp w).path ≤ length g.v)
      × ((sp_at sp w).cost ≢ infinite_cost → (sp_at sp w).cost ≤ 65535 * length (sp_at sp w).path)
run_dijkstra_bounds m g self sp w sized lt e =
    let (inv, done) = rows_of g self m sp sized lt e in
    (
      inv.size,
      omega (arith, inv.short w, inv.size, count_settled-le sp),
      λ reached. inv.bound w (omega (arith, inv.capped w, reached)),
    )
