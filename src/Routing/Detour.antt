-- ===== src/Routing/Detour.antt =====
-- A detour of random routing is two walks of the topology, joined at the waypoint.
use mathlib.Core.Path.{subst₂, ap₂}
use mathlib.Core.Option.{some-injective}
use mathlib.Core.List.Memᴰ
use mathlib.Core.List.{append_assoc, append-nil}
use cmu_mixnet.Prelude.{
  ℕ, ◌+◌, ◌-◌, ◌%◌, ◌^◌, ◌≤◌, ◌<◌, ◌≡◌, refl, sym, ap, subst, ◌∙◌, ◌≢◌, inl, inr, true, false, ◌&&◌,
  none, some, List, [], ◌∷◌, ◌++◌, arith, ◌==◌, Option-cases, Bool-cases, if◌then◌else◌, length,
  length-append, get_or, take, Memᴰ, take-append, u16,
}
use cmu_mixnet.Packet.{max_mixnet_route_length}
use cmu_mixnet.Config.{Config, Alloc}
use cmu_mixnet.Topology.{Vertex, Graph, vertex_at, no_vertex, id_find}
use cmu_mixnet.Topology.Find.{id_find_lem}
use cmu_mixnet.Topology.Invariant.{IsTopology}
use cmu_mixnet.Paths.{SpVertex, sp_at, infinite_cost, run_dijkstra}
use cmu_mixnet.Paths.Walk.{Walk, here, step, IsSized, IsTopology-IsSized, Walk-end}
use cmu_mixnet.Paths.Correct.{run_dijkstra_shortest, run_dijkstra_bounds}
use cmu_mixnet.State.{FibEntry, NodeState}
use cmu_mixnet.Fib.{fib_lookup}
use cmu_mixnet.Fib.Shortest.{IsSound}
use cmu_mixnet.Routing.{
  path_between, is_eligible, count_eligible, scan_eligible, detour_via, random_route,
}

-- Walks join where the first one ends.
Walk-append :
    {g : Graph} {from u w c d : ℕ} {p q : List ℕ}
    → Walk g from u c p
    → Walk g u w d q
    → Walk g from w (c + d) (p ++ q)
Walk-append {g} {from} {u} {p} first here =
    subst₂ (λ (d : ℕ) (r : List ℕ). Walk g from u d r) (omega arith) (sym (append-nil p)) first
Walk-append {g} {from} {c = c'} {p = p'} first (step {c} {p} l w walk m found) =
    subst₂ (λ (d : ℕ) (r : List ℕ). Walk g from w d r) (omega arith)
      (append_assoc p' p (l.neighbor_mixaddr ∷ [])) (step l w (Walk-append first walk) m found)

scan_eligible_lem :
    (c : Config) (dst : ℕ) (vs : List Vertex) (k i : ℕ)
    → scan_eligible c dst vs k ≡ some i
    → (i < length vs) × (is_eligible c dst (get_or vs i no_vertex) ≡ true)
unfolding scan_eligible
scan_eligible_lem c dst [] k i h = cc
scan_eligible_lem c dst (x ∷ xs) k i h =
    let k' = if is_eligible c dst x then k - 1 else k in
    elim (Bool-cases (is_eligible c dst x && (k == 0))) [
      | inl this ↦ ground arith
      | inr later ↦ elim (Option-cases (scan_eligible c dst xs k')) [
        | inl e ↦ ground arith
        | inr (j, e) ↦ ground (arith, scan_eligible_lem c dst xs k' j e)
      ]
    ]

path_between_hops :
    (m : Alloc) (g : Graph) (from to capacity : ℕ) (hops : List ℕ) (sp : List SpVertex) (q : List ℕ)
    (last : ℕ)
    → run_dijkstra m g from ≡ some sp
    → to ≢ from
    → (sp_at sp to).path ≡ q ++ last ∷ []
    → length q < 65535
    → path_between m g from to capacity ≡ some hops
    → (q ≡ hops) × (length hops ≤ capacity)
unfolding path_between
path_between_hops m g from to capacity hops sp q last ran apart e small h =
    let n : length (sp_at sp to).path ≡ length q + 1 = ap length e ∙ length-append q (last ∷ []) in
    let k : u16 (length (sp_at sp to).path + 2 ^ 16 - 1) ≡ length q = omega arith in
    let kept : take (length q) (sp_at sp to).path ≡ q =
      ap (take (length q)) e ∙ take-append q (last ∷ []) in
    let differ : (from == to) ≡ false = ground (arith, apart) in
    let h' = rw (differ, ran, k) at h in
    let same : q ≡ hops = ground arith in
    (same, subst (λ (r : List ℕ). length r ≤ capacity) same (ground arith))

path_between_apart :
    (m : Alloc) (g : Graph) (from to capacity : ℕ) (hops : List ℕ) (sp : List SpVertex)
    → run_dijkstra m g from ≡ some sp
    → to ≢ from
    → path_between m g from to capacity ≡ some hops
    → (sp_at sp to).cost ≢ infinite_cost
unfolding path_between
path_between_apart m g from to capacity hops sp ran apart h =
    let differ : (from == to) ≡ false = ground (arith, apart) in
    let h' = rw (differ, ran) at h in λ e. absurd (ground arith)

path_between_ran :
    (m : Alloc) (g : Graph) (from to capacity : ℕ) (hops : List ℕ)
    → run_dijkstra m g from ≡ none
    → to ≢ from
    → path_between m g from to capacity ≢ some hops
unfolding path_between
path_between_ran m g from to capacity hops ran apart h =
    let differ : (from == to) ≡ false = ground (arith, apart) in
    let h' = rw (differ, ran) at h in absurd (ground arith)

-- Whatever memory the computation is granted, the hops it writes between two different vertices are
-- those of a walk, without its last one, and fit the capacity.
path_between_lem :
    (m : Alloc) (g : Graph) (from to capacity : ℕ) (hops : List ℕ)
    → IsSized g
    → from < length g.v
    → to ≢ from
    → path_between m g from to capacity ≡ some hops
    → (cost : ℕ) × Walk g from to cost (hops ++ (vertex_at g to).addr ∷ [])
      × (length hops ≤ capacity)
path_between_lem m g from to capacity hops sized lt apart h =
    elim (Option-cases (run_dijkstra m g from)) [
      | inl e ↦ absurd (path_between_ran m g from to capacity hops e apart h)
      | inr (sp, ran) ↦
          let row = sp_at sp to in
          let finite : row.cost ≢ infinite_cost =
            path_between_apart m g from to capacity hops sp ran apart h in
          let walk = (run_dijkstra_shortest m g from sp to sized lt ran).0 finite in
          let (_, short, _) = run_dijkstra_bounds m g from sp to sized lt ran in
          let (q, e) = Walk-end walk apart in
          let n : length row.path ≡ length q + 1 = ap length e ∙ length-append q _ in
          let (same, fits) =
            path_between_hops m g from to capacity hops sp q _ ran apart e
              (omega (arith, sized.count, n, short)) h in
          (
            row.cost,
            subst (λ (r : List ℕ). Walk g from to row.cost r)
                (e ∙ ap (λ (r : List ℕ). r ++ (vertex_at g to).addr ∷ []) same) walk,
            fits,
          )
    ]

-- What a detour is made of.
pub record IsDetour (c : Config) (g : Graph) (self id dst : ℕ) (route : List ℕ) : Type 0 where
  pub waypoint : ℕ
  pub eligible : is_eligible c dst (vertex_at g waypoint) ≡ true
  pub cost : ℕ
  pub walk : Walk g self id cost (route ++ dst ∷ [])
  pub through : Memᴰ (vertex_at g waypoint).addr route
  pub fits : length route ≤ max_mixnet_route_length

detour_via_cases :
    (m : Alloc) (s : NodeState) (dst wid : ℕ) (route : List ℕ)
    → detour_via m s dst wid ≡ some route
    → (did : ℕ) × (entry : FibEntry) × (tail : List ℕ) × (id_find s.topology dst ≡ some did)
      × (fib_lookup s (vertex_at s.topology wid).addr ≡ some entry)
      × (length entry.route + 1 ≤ max_mixnet_route_length)
      × (path_between m s.topology wid did (max_mixnet_route_length - length entry.route - 1)
          ≡ some tail)
      × (route ≡ entry.route ++ (vertex_at s.topology wid).addr ∷ tail)
unfolding detour_via
detour_via_cases m s dst wid route h = elim (Option-cases (id_find s.topology dst)) [
  | inl e ↦ absurd (ground arith)
  | inr (did, e) ↦ elim (Option-cases (fib_lookup s (vertex_at s.topology wid).addr)) [
    | inl e' ↦ absurd (ground arith)
    | inr (entry, e') ↦
        let room = max_mixnet_route_length - length entry.route - 1 in
        let same : u16 room ≡ room = omega arith in
        elim (Option-cases (path_between m s.topology wid did room)) [
          | inl e'' ↦ let h' = rw (e, e', same, e'', detour_via) at h in absurd (ground arith)
          | inr (tail, e'') ↦
              let h' = rw (e, e', same, e'', detour_via) at h in
              (did, entry, tail, e, e', ground arith, e'', ground arith)
        ]
  ]
]

random_route_cases :
    (m : Alloc) (c : Config) (s : NodeState) (dst random : ℕ) (route : List ℕ)
    → random_route m c s dst random ≡ some route
    → (wid : ℕ) × (wid < length s.topology.v)
      × (is_eligible c dst (vertex_at s.topology wid) ≡ true)
      × (detour_via m s dst wid ≡ some route)
unfolding random_route
random_route_cases m c s dst random route h =
    let eligible = u16 (count_eligible c dst s.topology.v) in
    elim (Option-cases (scan_eligible c dst s.topology.v (u16 (random % eligible)))) [
      | inl e ↦ absurd (ground arith)
      | inr (wid, e) ↦
          let (lt, ok) = scan_eligible_lem c dst s.topology.v _ wid e in (wid, lt, ok, ground arith)
    ]

join :
    (p q : List ℕ) (w d dst : ℕ) (route : List ℕ)
    → d ≡ dst
    → route ≡ p ++ w ∷ q
    → (p ++ w ∷ []) ++ (q ++ d ∷ []) ≡ route ++ dst ∷ []
join p q w d dst route e same =
    append_assoc p (w ∷ []) (q ++ d ∷ [])
    ∙ sym (append_assoc p (w ∷ q) (d ∷ []))
    ∙ ap₂ (λ (r : List ℕ) (x : ℕ). r ++ x ∷ []) (sym same) e

-- When the forwarding table is sound, a detour is a walk of the topology from this node to the
-- destination, through a known vertex that is neither of the two, and its hops fit a routing header.
pub random_route_lem :
    (m : Alloc) (c : Config) (s : NodeState) (dst random : ℕ) (route : List ℕ)
    → IsTopology s.topology
    → IsSound c s
    → random_route m c s dst random ≡ some route
    → (self id : ℕ) × (id_find s.topology c.node_addr ≡ some self)
      × (id_find s.topology dst ≡ some id)
      × IsDetour c s.topology self id dst route
random_route_lem m c s dst random route t sound h =
    let (wid, lt, eligible, via) = random_route_cases m c s dst random route h in
    let (did, entry, tail, found, looked, room, legs, same) =
      detour_via_cases m s dst wid route via in
    let g = s.topology in
    let w = (vertex_at g wid).addr in
    let (self, id, cost, own, w_found, short, fits) = sound.entries w entry looked in
    let (d_lt, d_addr) = id_find_lem g dst did found in
    let same_id : id ≡ wid = some-injective _ _ (sym w_found ∙ t.indexed.ids wid lt) in
    let apart : did ≢ wid = λ e. absurd (ground (arith, ap (λ (i : ℕ). (vertex_at g i).addr) e)) in
    let (cost', leg, short_leg) =
      path_between_lem m g wid did _ tail (IsTopology-IsSized t) lt apart legs in
    let first : Walk g self wid cost (entry.route ++ w ∷ []) =
      subst (λ (i : ℕ). Walk g self i cost (entry.route ++ w ∷ [])) same_id short.walk in
    (
      self,
      did,
      own,
      found,
      record {
        waypoint = wid;
        eligible = eligible;
        cost = cost + cost';
        walk =
            subst (λ (p : List ℕ). Walk g self did (cost + cost') p)
              (join entry.route tail w _ dst route d_addr same) (Walk-append first leg);
        through =
            subst (λ (p : List ℕ). Memᴰ w p) (sym same)
              (Memᴰ.append_right entry.route (Memᴰ.head refl));
        fits = omega (arith, ap length same, length-append entry.route (w ∷ tail), room, short_leg);
      },
    )
