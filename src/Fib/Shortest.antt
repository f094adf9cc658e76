-- ===== src/Fib/Shortest.antt =====
-- The forwarding table holds shortest paths.
use cmu_mixnet.Prelude.{
  ℕ, zero, suc, ◌+◌, ◌≤◌, ◌<◌, ◌≡◌, refl, sym, ap, subst, ◌∙◌, ◌≢◌, ◌⊎◌, inl, inr, true, false,
  ◌||◌, some, List, [], ◌∷◌, ◌++◌, arith, ◌==◌, ltb, Option-cases, Bool-cases, length,
  length-append, length-replicate, get_or-replicate, replicate,
}
use cmu_mixnet.Packet.{max_mixnet_route_length}
use cmu_mixnet.Config.{Config, Alloc, IsGranted, fib_table, sp_table}
use cmu_mixnet.Topology.{Graph, vertex_at, id_find}
use cmu_mixnet.Topology.Find.{id_find_lem}
use cmu_mixnet.Topology.Invariant.{IsTopology}
use cmu_mixnet.Paths.{SpVertex, sp_at, infinite_cost, run_dijkstra}
use cmu_mixnet.Paths.Walk.{Walk, IsTopology-IsSized, IsShortest, Walk-end}
use cmu_mixnet.Paths.Correct.{run_dijkstra_returns, run_dijkstra_shortest, run_dijkstra_bounds}
use cmu_mixnet.State.{FibEntry, NodeState}
use cmu_mixnet.Fib.{
  unreachable, fib_at, fib_reset, fill_table, install_route, install_routes, update_shortest_path,
  fib_lookup,
}
use cmu_mixnet.Fib.Install.{new_entry, install_routes_at, install_route_lem, install_route_cases}

-- The table is what the routes installed into an unreachable one are, or all of it is unreachable.
abbrev Rebuilt : Alloc → Config → Graph → List FibEntry → Type 0
Rebuilt m c g fib =
    ((id : ℕ) → (fib_at fib id).reachable ≡ false)
    ⊎ ((self : ℕ) × (sp : List SpVertex) × (id_find g c.node_addr ≡ some self)
        × (run_dijkstra m g self ≡ some sp)
        × (fib ≡ install_routes m self (length g.v) 0 sp (replicate (length g.v) unreachable)))

blank_fib : (n id : ℕ) → (fib_at (replicate n unreachable) id).reachable ≡ false
blank_fib n id = ap FibEntry.reachable (get_or-replicate n id unreachable)

pub fib_reset_cases :
    (m : Alloc) (s : NodeState) (count : ℕ)
    → (((fib_reset m s count).0 ≡ true)
        × ((fib_reset m s count).1 ≡ record s { fib = replicate count unreachable }))
      ⊎ (((fib_reset m s count).0 ≡ false) × ((fib_reset m s count).1 ≡ record s { fib = [] }))
unfolding fib_reset
fib_reset_cases m s zero = inl (refl, refl)
fib_reset_cases m s (suc n) =
    let positive : (suc n == 0) ≡ false = ground arith in
    elim (Bool-cases (m fib_table 0)) [
      | inl e ↦ rw (positive, e, fib_reset) (inl (refl, refl))
      | inr e ↦ rw (positive, e, fib_reset) (inr (refl, refl))
    ]

fill_table_cases :
    (m : Alloc) (c : Config) (s : NodeState)
    → s.fib ≡ replicate (length s.topology.v) unreachable
    → ((fill_table m c s).topology ≡ s.topology) × Rebuilt m c s.topology (fill_table m c s).fib
unfolding fill_table
fill_table_cases m c s blank =
    let g = s.topology in
    let all_blank : (id : ℕ) → (fib_at s.fib id).reachable ≡ false =
      λ id. ap (λ fib. (fib_at fib id).reachable) blank ∙ blank_fib (length g.v) id in
    elim (Option-cases (id_find g c.node_addr)) [
      | inl absent ↦ rw (absent, fill_table) (refl, inl all_blank)
      | inr (self, found) ↦ elim (Option-cases (run_dijkstra m g self)) [
        | inl failed ↦ rw (found, failed, fill_table) (refl, inl all_blank)
        | inr (sp, ran) ↦
            rw (found, ran, fill_table)
              (refl, inr (self, sp, refl, ran, ap (install_routes m self (length g.v) 0 sp) blank))
      ]
    ]

-- The routes are installed over a table that is unreachable everywhere, and nothing else is written
-- to the table; the topology stays.
pub update_shortest_path_cases :
    (m : Alloc) (c : Config) (s : NodeState)
    → ((update_shortest_path m c s).topology ≡ s.topology)
      × Rebuilt m c s.topology (update_shortest_path m c s).fib
unfolding update_shortest_path
update_shortest_path_cases m c s = elim (fib_reset_cases m s (length s.topology.v)) [
  | inr (e, e') ↦
      rw (e, update_shortest_path)
        (
          ap NodeState.topology e',
          inl (λ id. ap (λ (r : NodeState). (fib_at r.fib id).reachable) e'),
        )
  | inl (e, e') ↦
      rw (e, update_shortest_path)
        (subst
          (λ (r : NodeState).
            ((fill_table m c r).topology ≡ s.topology)
            × Rebuilt m c s.topology (fill_table m c r).fib)
          (sym e')
          (fill_table_cases m c (record s { fib = replicate (length s.topology.v) unreachable })
            refl))
]

fib_reset_granted :
    (m : Alloc) (s : NodeState) (count : ℕ)
    → IsGranted m
    → fib_reset m s count ≡ (true, record s { fib = replicate count unreachable })
unfolding fib_reset
fib_reset_granted m s zero granted = refl
fib_reset_granted m s (suc n) granted =
    let positive : (suc n == 0) ≡ false = ground arith in
    rw (positive, granted fib_table 0, fib_reset)

update_granted :
    (m : Alloc) (c : Config) (s : NodeState) (self : ℕ) (sp : List SpVertex)
    → IsGranted m
    → id_find s.topology c.node_addr ≡ some self
    → run_dijkstra m s.topology self ≡ some sp
    → ((update_shortest_path m c s).topology ≡ s.topology)
      × ((update_shortest_path m c s).fib
          ≡ install_routes m self
              (length s.topology.v)
              0
              sp
              (replicate (length s.topology.v) unreachable))
unfolding update_shortest_path fill_table
update_granted m c s self sp granted own ran =
    rw (fib_reset_granted m s (length s.topology.v) granted)
      (rw (own, ran, fill_table) (refl, refl))

module _ (m : Alloc) (c : Config) (g : Graph) (self : ℕ) (sp : List SpVertex) (t : IsTopology g)
    (found : id_find g c.node_addr ≡ some self) (ran : run_dijkstra m g self ≡ some sp) where
  abbrev table : List FibEntry
  table = install_routes m self (length g.v) 0 sp (replicate (length g.v) unreachable)

  length-table : 0 < length g.v → length table ≡ length g.v
  length-table lt =
      (install_routes_at m self (length g.v) 0 sp (replicate (length g.v) unreachable) 0
        (omega (arith, length-replicate (length g.v) unreachable))).1
      ∙ length-replicate (length g.v) unreachable

  table_at : (id : ℕ) → id < length g.v → fib_at table id ≡ new_entry m self sp id unreachable
  table_at id lt =
      let blank = get_or-replicate (length g.v) id unreachable in
      let at =
        (install_routes_at m self (length g.v) 0 sp (replicate (length g.v) unreachable) id
          (omega (arith, length-replicate (length g.v) unreachable))).0 in
      ground (arith, at, blank)

  -- The path of a reached vertex other than our own ends in the vertex.
  path_of :
      (id : ℕ)
      → id ≢ self
      → (sp_at sp id).cost ≢ infinite_cost
      → IsShortest g self id (sp_at sp id).cost (sp_at sp id).path
        × (q : List ℕ) × ((sp_at sp id).path ≡ q ++ (vertex_at g id).addr ∷ [])
        × (length q < 65535)
  path_of id apart reached =
      let sized = IsTopology-IsSized t in
      let lt = (id_find_lem g c.node_addr self found).0 in
      let (sound, least) = run_dijkstra_shortest m g self sp id sized lt ran in
      let walk = sound reached in
      let (q, e) = Walk-end walk apart in
      let fits = (run_dijkstra_bounds m g self sp id sized lt ran).1 in
      (
        record { walk = walk; least = λ d p other. (least d p other).1 },
        q,
        e,
        omega (arith, fits, sized.count, ap length e, length-append q ((vertex_at g id).addr ∷ [])),
      )

  -- An entry that can be looked up is one that was installed.
  entry-IsShortest :
      (id : ℕ) (entry : FibEntry)
      → id < length g.v
      → fib_at table id ≡ entry
      → entry.reachable ≡ true
      → (cost : ℕ) × IsShortest g self id cost (entry.route ++ (vertex_at g id).addr ∷ [])
        × (length entry.route ≤ max_mixnet_route_length)
  unfolding new_entry
  entry-IsShortest id entry lt at reached =
      let new = sym (table_at id lt) ∙ at in
      elim (Bool-cases ((id == self) || ((sp_at sp id).cost == infinite_cost))) [
        | inl skipped ↦ absurd (ground arith)
        | inr taken ↦
            let (short, q, e, small) = path_of id (ground arith) (ground arith) in
            elim (Option-cases (install_route m sp id)) [
              | inl refused ↦ absurd (ground arith)
              | inr (installed, done) ↦
                  let (is, fits) =
                    install_route_cases m sp id q (vertex_at g id).addr installed e small done in
                  let route : entry.route ≡ q = ground arith in
                  (
                    (sp_at sp id).cost,
                    subst (λ p. IsShortest g self id (sp_at sp id).cost p)
                        (e ∙ ap (λ (r : List ℕ). r ++ (vertex_at g id).addr ∷ []) (sym route))
                        short,
                    omega (arith, ap length route),
                  )
            ]
      ]

  -- With memory granted, a shortest path that the routing header can carry is installed.
  entry_installed :
      (id : ℕ)
      → IsGranted m
      → id < length g.v
      → id ≢ self
      → (sp_at sp id).cost ≢ infinite_cost
      → ((fib_at table id).reachable ≡ true)
        ⊎ ((cost : ℕ) × (p : List ℕ) × IsShortest g self id cost p
            × (max_mixnet_route_length + 1 < length p))
  unfolding new_entry
  entry_installed id granted lt apart reached =
      let (short, q, e, small) = path_of id apart reached in
      let installed = install_route_lem m sp id q (vertex_at g id).addr granted e small in
      let at = table_at id lt in
      elim (Bool-cases (ltb max_mixnet_route_length (length q))) [
        | inr fits ↦ inl (ground arith)
        | inl long ↦ inr (
          (sp_at sp id).cost,
          (sp_at sp id).path,
          short,
          ground (arith, ap length e, length-append q ((vertex_at g id).addr ∷ [])),
        )
      ]

pub lookup_entry :
    (s : NodeState) (dst : ℕ) (entry : FibEntry)
    → fib_lookup s dst ≡ some entry
    → (id : ℕ) × (id_find s.topology dst ≡ some id)
      × (fib_at s.fib id ≡ entry)
      × (entry.reachable ≡ true)
      × (id < length s.fib)
unfolding fib_lookup
lookup_entry s dst entry h = elim (Option-cases (id_find s.topology dst)) [
  | inl e ↦ absurd (ground arith)
  | inr (id, e) ↦ (id, e, ground arith, ground arith, ground arith)
]

-- Whatever memory the rebuild is granted, every entry that can be looked up after it is the hops
-- strictly between this node and the destination on a cheapest walk of the topology, at most 256 of
-- them.
pub fib_lookup-IsShortest :
    (m : Alloc) (c : Config) (s : NodeState) (dst : ℕ) (entry : FibEntry)
    → IsTopology s.topology
    → fib_lookup (update_shortest_path m c s) dst ≡ some entry
    → (self id cost : ℕ) × (id_find s.topology c.node_addr ≡ some self)
      × (id_find s.topology dst ≡ some id)
      × IsShortest s.topology self id cost (entry.route ++ dst ∷ [])
      × (length entry.route ≤ max_mixnet_route_length)
fib_lookup-IsShortest m c s dst entry t h =
    let s' = update_shortest_path m c s in
    let (kept, built) = update_shortest_path_cases m c s in
    let (id, found', at, reached, lt) = lookup_entry s' dst entry h in
    let found : id_find s.topology dst ≡ some id =
      subst (λ (g : Graph). id_find g dst ≡ some id) kept found' in
    let (in_range, addr) = id_find_lem s.topology dst id found in
    elim built [
      | inl blank ↦ absurd (ground (arith, blank id))
      | inr (self, sp, own, ran, fib) ↦
          let (cost, short, fits) =
            entry-IsShortest m c s.topology self sp t own ran id entry in_range
              (ap (λ (f : List FibEntry). fib_at f id) (sym fib) ∙ at) reached in
          (
            self,
            id,
            cost,
            own,
            found,
            subst (λ a. IsShortest s.topology self id cost (entry.route ++ a ∷ [])) addr short,
            fits,
          )
    ]

-- Every entry that can be looked up is the hops strictly between this node and the destination on a
-- cheapest walk.
pub record IsSound (c : Config) (s : NodeState) : Type 0 where
  pub entries :
      (dst : ℕ) (entry : FibEntry)
      → fib_lookup s dst ≡ some entry
      → (self id cost : ℕ) × (id_find s.topology c.node_addr ≡ some self)
        × (id_find s.topology dst ≡ some id)
        × IsShortest s.topology self id cost (entry.route ++ dst ∷ [])
        × (length entry.route ≤ max_mixnet_route_length)

pub update_shortest_path-IsTopology :
    (m : Alloc) (c : Config) (s : NodeState)
    → IsTopology s.topology
    → IsTopology (update_shortest_path m c s).topology
update_shortest_path-IsTopology m c s t =
    subst IsTopology (sym (update_shortest_path_cases m c s).0) t

pub update_shortest_path-IsSound :
    (m : Alloc) (c : Config) (s : NodeState)
    → IsTopology s.topology
    → IsSound c (update_shortest_path m c s)
update_shortest_path-IsSound m c s t =
    let kept = (update_shortest_path_cases m c s).0 in
    record {
      entries = λ dst entry h.
          subst
            (λ (g : Graph).
              (self id cost : ℕ) × (id_find g c.node_addr ≡ some self)
              × (id_find g dst ≡ some id)
              × IsShortest g self id cost (entry.route ++ dst ∷ [])
              × (length entry.route ≤ max_mixnet_route_length))
            (sym kept) (fib_lookup-IsShortest m c s dst entry t h);
    }

-- With memory granted, every other node that some walk leads to can be looked up after the rebuild,
-- unless a cheapest walk to it has more than the 256 intermediate hops of a routing header.
pub fib_lookup_complete :
    (m : Alloc) (c : Config) (s : NodeState) (dst self id d : ℕ) (p : List ℕ)
    → IsGranted m
    → IsTopology s.topology
    → id_find s.topology c.node_addr ≡ some self
    → id_find s.topology dst ≡ some id
    → id ≢ self
    → Walk s.topology self id d p
    → ((entry : FibEntry) × (fib_lookup (update_shortest_path m c s) dst ≡ some entry))
      ⊎ ((cost : ℕ) × (q : List ℕ) × IsShortest s.topology self id cost q
          × (max_mixnet_route_length + 1 < length q))
unfolding fib_lookup
fib_lookup_complete m c s dst self id d p granted t own found apart walk =
    let lt = (id_find_lem s.topology c.node_addr self own).0 in
    let sized = IsTopology-IsSized t in
    let in_range = (id_find_lem s.topology dst id found).0 in
    let (sp, ran, done) = run_dijkstra_returns m s.topology self sized lt (granted sp_table 0) in
    let reached = ((run_dijkstra_shortest m s.topology self sp id sized lt ran).1 d p walk).0 in
    let (kept, fib) = update_granted m c s self sp granted own ran in
    let n = length-table m c s.topology self sp t own ran (omega arith) in
    let found' : id_find (update_shortest_path m c s).topology dst ≡ some id =
      ap (λ (g : Graph). id_find g dst) kept ∙ found in
    elim (entry_installed m c s.topology self sp t own ran id granted in_range apart reached) [
      | inl there ↦ inl (fib_at (update_shortest_path m c s).fib id, ground (arith, ap length fib))
      | inr long ↦ inr long
    ]
