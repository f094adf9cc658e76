-- ===== src/Fib/Stable.antt =====
-- The forwarding table while the topology grows, and over a rebuild.
use cmu_mixnet.Prelude.{
  ℕ, zero, suc, ◌+◌, ◌≤◌, ◌<◌, ◌≡◌, refl, sym, ap, subst, ◌∙◌, inl, inr, true, some, List, arith,
  Option-cases, length, length-set, length-replicate,
}
use cmu_mixnet.Config.{Config, Alloc}
use cmu_mixnet.Topology.{Graph, id_find}
use cmu_mixnet.Topology.Find.{id_find_lem}
use cmu_mixnet.Topology.Intern.{IsIndexed, Extends}
use cmu_mixnet.Topology.Invariant.{IsTopology, IsTopology-Extends}
use cmu_mixnet.Paths.{SpVertex, run_dijkstra}
use cmu_mixnet.Paths.Stable.{IsShortest-grown, found-grown}
use cmu_mixnet.State.{FibEntry, NodeState}
use cmu_mixnet.Fib.{
  unreachable, fib_at, fib_reset, fill_table, install_route, install_entry, install_routes,
  update_shortest_path, fib_lookup,
}
use cmu_mixnet.Fib.Shortest.{
  IsSound, lookup_entry, fib_reset_cases, update_shortest_path_cases,
  update_shortest_path-IsTopology, update_shortest_path-IsSound,
}

-- What the routing of a node rests on: a well-formed topology, and a table of no more entries than
-- there are vertices whose routes are shortest paths.
pub record IsRouting (c : Config) (s : NodeState) : Type 0 where
  pub topology : IsTopology s.topology
  pub sized : length s.fib ≤ length s.topology.v
  pub sound : IsSound c s

lookup_same :
    (s s' : NodeState) (dst : ℕ)
    → s'.topology ≡ s.topology
    → s'.fib ≡ s.fib
    → fib_lookup s' dst ≡ fib_lookup s dst
unfolding fib_lookup
lookup_same s s' dst e f = rw (e, f)

-- Only the topology and the table matter.
pub IsRouting-same :
    {c : Config} (s s' : NodeState)
    → s'.topology ≡ s.topology
    → s'.fib ≡ s.fib
    → IsRouting c s
    → IsRouting c s'
IsRouting-same s s' e f r = record {
  topology = subst IsTopology (sym e) r.topology;
  sized = omega (arith, r.sized, ap length f, ap (λ (g : Graph). length g.v) e);
  sound = record {
    entries =
        λ dst entry h. rw (e) (r.sound.entries dst entry (sym (lookup_same s s' dst e f) ∙ h));
  };
}

lookup_old :
    (s : NodeState) (dst id : ℕ) (entry : FibEntry)
    → id_find s.topology dst ≡ some id
    → fib_at s.fib id ≡ entry
    → entry.reachable ≡ true
    → id < length s.fib
    → fib_lookup s dst ≡ some entry
unfolding fib_lookup
lookup_old s dst id entry found at reached lt = ground arith

-- New vertices without links leave every route a shortest one.
pub IsRouting-grown :
    {c : Config} (s : NodeState) (g : Graph)
    → IsRouting c s
    → Extends s.topology g
    → IsIndexed g
    → IsRouting c (record s { topology = g })
IsRouting-grown {c} s g r e h = record {
  topology = IsTopology-Extends r.topology e h;
  sized = omega (arith, r.sized, e.longer);
  sound = record {
    entries = λ dst entry looked.
        let (id, found, at, reached, lt) =
          lookup_entry (record s { topology = g }) dst entry looked in
        let old = found-grown dst id r.topology.indexed e found (omega (arith, r.sized)) in
        let (self, id', cost, own, found', short, fits) =
          r.sound.entries dst entry (lookup_old s dst id entry old at reached lt) in
        (
          self,
          id',
          cost,
          e.found c.node_addr self own,
          e.found dst id' found',
          IsShortest-grown r.topology e (id_find_lem s.topology c.node_addr self own).0 short,
          fits,
        );
  };
}

length-install_routes :
    (m : Alloc) (self n id : ℕ) (sp : List SpVertex) (fib : List FibEntry)
    → length (install_routes m self n id sp fib) ≡ length fib
unfolding install_routes install_entry
length-install_routes m self zero id sp fib = refl
length-install_routes m self (suc n) id sp fib =
    let rest = length-install_routes m self n (id + 1) sp (install_entry m self id sp fib) in
    elim (Option-cases (install_route m sp id)) [
      | inl e ↦ ground (arith, rest)
      | inr (entry, e) ↦ ground (arith, rest, length-set fib id entry)
    ]

length-fill_table :
    (m : Alloc) (c : Config) (s : NodeState) → length (fill_table m c s).fib ≡ length s.fib
unfolding fill_table
length-fill_table m c s = elim (Option-cases (id_find s.topology c.node_addr)) [
  | inl e ↦ rw (e, fill_table) refl
  | inr (self, e) ↦ elim (Option-cases (run_dijkstra m s.topology self)) [
    | inl e' ↦ rw (e, e', fill_table) refl
    | inr (sp, e') ↦
        rw (e, e', fill_table) (length-install_routes m self (length s.topology.v) 0 sp s.fib)
  ]
]

length-update_shortest_path :
    (m : Alloc) (c : Config) (s : NodeState)
    → length (update_shortest_path m c s).fib ≤ length s.topology.v
unfolding update_shortest_path
length-update_shortest_path m c s = elim (fib_reset_cases m s (length s.topology.v)) [
  | inl (e, e') ↦
      let blank = length-replicate (length s.topology.v) unreachable in
      rw (e, update_shortest_path)
        (omega (
          arith,
          blank,
          length-fill_table m c (fib_reset m s (length s.topology.v)).1,
          ap (λ (r : NodeState). length r.fib) e',
        ))
  | inr (e, e') ↦
      rw (e, update_shortest_path) (omega (arith, ap (λ (r : NodeState). length r.fib) e'))
]

-- A rebuild needs nothing of the table that it replaces.
pub update_shortest_path-IsRouting :
    (m : Alloc) (c : Config) (s : NodeState)
    → IsTopology s.topology
    → IsRouting c (update_shortest_path m c s)
update_shortest_path-IsRouting m c s t = record {
  topology = update_shortest_path-IsTopology m c s t;
  sized = omega (
    arith,
    length-update_shortest_path m c s,
    ap (λ (g : Graph). length g.v) (update_shortest_path_cases m c s).0,
  );
  sound = update_shortest_path-IsSound m c s t;
}
