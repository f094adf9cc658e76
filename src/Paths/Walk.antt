-- ===== src/Paths/Walk.antt =====
-- The walks of a topology out of one vertex, over advertised links, with the cost of each and the
-- addresses after its start. This is the specification of the shortest paths.
use cmu_mixnet.Prelude.{
  ℕ, ◌+◌, ◌≤◌, ◌≡◌, refl, sym, ap, ◌≢◌, some, List, [], ◌∷◌, ◌++◌, Memᴰ, length, arith,
}
use cmu_mixnet.Packet.{LinkParams}
use cmu_mixnet.Topology.{Graph, vertex_at, id_find}
use cmu_mixnet.Topology.Find.{id_find_lem}
use cmu_mixnet.Topology.Invariant.{IsTopology}

pub data Walk (g : Graph) (from : ℕ) : ℕ → ℕ → List ℕ → Type 0 where
  here : Walk g from from 0 []
  step :
      {u c : ℕ} {p : List ℕ} (l : LinkParams) (w : ℕ)
      → Walk g from u c p
      → Memᴰ l (vertex_at g u).links
      → id_find g l.neighbor_mixaddr ≡ some w
      → Walk g from w (c + l.cost) (p ++ l.neighbor_mixaddr ∷ [])

-- The number of vertices and every link's cost fit uint16_t.
pub record IsSized (g : Graph) : Type 0 where
  pub count : length g.v ≤ 65535
  pub costs : (u : ℕ) (l : LinkParams) → Memᴰ l (vertex_at g u).links → l.cost ≤ 65535

pub IsTopology-IsSized : {g : Graph} → IsTopology g → IsSized g
IsTopology-IsSized t = record {
  count = omega (arith, t.indexed.room, t.indexed.capacity_u16);
  costs = t.costs_u16;
}

-- No walk to the vertex is cheaper.
pub record IsShortest (g : Graph) (from w c : ℕ) (p : List ℕ) : Type 0 where
  pub walk : Walk g from w c p
  pub least : (d : ℕ) (q : List ℕ) → Walk g from w d q → c ≤ d

-- A walk that does not end where it starts ends in a link to its last vertex.
pub Walk-end :
    {g : Graph} {from w c : ℕ} {p : List ℕ}
    → Walk g from w c p
    → w ≢ from
    → (q : List ℕ) × (p ≡ q ++ (vertex_at g w).addr ∷ [])
Walk-end here apart = absurd (apart refl)
Walk-end {g} (step {p} l w walk m found) apart =
    (p, ap (λ (a : ℕ). p ++ a ∷ []) (sym (id_find_lem g l.neighbor_mixaddr w found).1))
