-- ===== src/Fib/Install.antt =====
-- The loop that installs the routes, entry by entry.
use cmu_mixnet.Prelude.{
  ℕ, zero, suc, ◌+◌, ◌-◌, ◌^◌, ◌≤◌, ◌<◌, ◌≡◌, ◌∙◌, inl, inr, true, ◌&&◌, ◌||◌, none, some, List, [],
  ◌∷◌, ◌++◌, ap, arith, ◌==◌, ltb, leb, Option-cases, if◌then◌else◌, length, length-append, take,
  take-append, get_or-set, length-set, u16,
}
use cmu_mixnet.Packet.{max_mixnet_route_length}
use cmu_mixnet.Config.{Alloc, IsGranted, fib_route}
use cmu_mixnet.Paths.{SpVertex, sp_at, infinite_cost}
use cmu_mixnet.State.{FibEntry}
use cmu_mixnet.Fib.{unreachable, fib_at, install_route, install_entry, install_routes}

-- What entry `id` becomes.
unfoldable pub new_entry : Alloc → ℕ → List SpVertex → ℕ → FibEntry → FibEntry
new_entry m self sp id old =
    if (id == self) || ((sp_at sp id).cost == infinite_cost)
    then old
    else elim (install_route m sp id) [ none ↦ old | some entry ↦ entry ]

install_entry_at :
    (m : Alloc) (self id : ℕ) (sp : List SpVertex) (fib : List FibEntry) (j : ℕ)
    → j < length fib
    → (fib_at (install_entry m self id sp fib) j
        ≡ (if id == j then new_entry m self sp j (fib_at fib j) else fib_at fib j))
      × (length (install_entry m self id sp fib) ≡ length fib)
unfolding install_entry new_entry
install_entry_at m self id sp fib j lt = elim (Option-cases (install_route m sp id)) [
  | inl e ↦ ground arith
  | inr (entry, e) ↦ ground (arith, get_or-set fib id j entry unreachable, length-set fib id entry)
]

pub install_routes_at :
    (m : Alloc) (self n id : ℕ) (sp : List SpVertex) (fib : List FibEntry) (j : ℕ)
    → j < length fib
    → (fib_at (install_routes m self n id sp fib) j ≡ (
        if leb id j && ltb j (id + n) then new_entry m self sp j (fib_at fib j) else fib_at fib j))
      × (length (install_routes m self n id sp fib) ≡ length fib)
unfolding install_routes
install_routes_at m self zero id sp fib j lt = ground arith
install_routes_at m self (suc n) id sp fib j lt = ground (
  arith,
  install_entry_at m self id sp fib j lt,
  install_routes_at m self n (id + 1) sp (install_entry m self id sp fib) j,
)

-- The route to a destination whose path ends in `last`.
pub install_route_lem :
    (m : Alloc) (sp : List SpVertex) (dst : ℕ) (q : List ℕ) (last : ℕ)
    → IsGranted m
    → (sp_at sp dst).path ≡ q ++ last ∷ []
    → length q < 65535
    → install_route m sp dst ≡ (
        if ltb max_mixnet_route_length (length q)
        then none
        else some (record { reachable = true; route = q }))
unfolding install_route
install_route_lem m sp dst q last granted e small =
    let n : length (sp_at sp dst).path ≡ length q + 1 = ap length e ∙ length-append q (last ∷ []) in
    let hops : u16 (length (sp_at sp dst).path + 2 ^ 16 - 1) ≡ length q = omega arith in
    let kept : take (length q) (sp_at sp dst).path ≡ q =
      ap (take (length q)) e ∙ take-append q (last ∷ []) in
    rw hops (ground (arith, granted fib_route dst))

-- Whatever memory there is, an entry that is installed holds the path without its last hop.
pub install_route_cases :
    (m : Alloc) (sp : List SpVertex) (dst : ℕ) (q : List ℕ) (last : ℕ) (entry : FibEntry)
    → (sp_at sp dst).path ≡ q ++ last ∷ []
    → length q < 65535
    → install_route m sp dst ≡ some entry
    → (entry ≡ record { reachable = true; route = q }) × (length q ≤ max_mixnet_route_length)
unfolding install_route
install_route_cases m sp dst q last entry e small h =
    let n : length (sp_at sp dst).path ≡ length q + 1 = ap length e ∙ length-append q (last ∷ []) in
    let hops : u16 (length (sp_at sp dst).path + 2 ^ 16 - 1) ≡ length q = omega arith in
    let kept : take (length q) (sp_at sp dst).path ≡ q =
      ap (take (length q)) e ∙ take-append q (last ∷ []) in
    let h' = rw hops at h in ground arith
