-- ===== src/Orchestrator/Resolving.antt =====
-- The addresses that the orchestrator hands out so that each fragment can tell its neighbors'
-- connections apart (run_state_resolve_mixnet_connections of framework/orchestrator.cpp).
use cmu_mixnet.Prelude.{
  ℕ, zero, suc, ◌+◌, ◌≤◌, ◌<◌, ◌≡◌, ◌⊎◌, refl, ap, subst, ◌∙◌, inl, inr, true, some, List, [], ◌∷◌,
  arith, ◌==◌, Bool-cases, length, get_or,
}
use cmu_mixnet.Message.{Buffer, put16}
use cmu_mixnet.Networking.Accepting.{NetAddr}
use cmu_mixnet.TestGraph.{TestGraph, neighbors_of, has_neighbor}
use cmu_mixnet.TestGraph.Symmetric.{IsSymmetric}
use cmu_mixnet.Switching.{neighbor_place_lem}
use cmu_mixnet.Orchestrator.{neighbor_place}
use cmu_mixnet.Orchestrator.Payloads.{
  SockaddrIn, FragmentMetadata, fragment_at, no_address, slot, put_clients, fill_resolve,
}

-- The fields are within their types.
pub record IsNetAddr (a : NetAddr) : Type 0 where
  pub family_u16 : a.sin_family < 65536
  pub port_u16 : a.sin_port < 65536
  pub addr_u32 : a.s_addr < 4294967296

-- Addresses are copied byte by byte: a place that is written can be read back, and the bytes of
-- other places stay.
pub record IsLawful (S : SockaddrIn) : Type 0 where
  pub read_back :
      (i : ℕ) (a : NetAddr) (b : Buffer) → IsNetAddr a → S.address_at (S.put_address i a b) i ≡ a
  pub elsewhere :
      (i j : ℕ) (a : NetAddr) (b : Buffer)
      → (i + S.size ≤ j) ⊎ (j + S.size ≤ i)
      → S.address_at (S.put_address i a b) j ≡ S.address_at b j
  pub before : (i : ℕ) (a : NetAddr) (b : Buffer) (j : ℕ) → j < i → S.put_address i a b j ≡ b j

neighbor_place_total :
    (row : List ℕ) (idx : ℕ)
    → has_neighbor idx row ≡ true
    → (j : ℕ) × (neighbor_place row idx ≡ some j)
unfolding has_neighbor neighbor_place
neighbor_place_total [] idx h = absurd (cc)
neighbor_place_total (x ∷ xs) idx h = elim (Bool-cases (x == idx)) [
  | inl here ↦ (0, rw (here, neighbor_place) refl)
  | inr other ↦
      let (j, found) = neighbor_place_total xs idx (ground arith) in
      (suc j, rw (other, found, neighbor_place) refl)
]

row_has : (row : List ℕ) (k : ℕ) → k < length row → has_neighbor (get_or row k 0) row ≡ true
unfolding has_neighbor
row_has [] k lt = absurd (omega arith)
row_has (x ∷ xs) zero lt = ground arith
row_has (x ∷ xs) (suc k) lt = ground (arith, row_has xs k)

module _ (S : SockaddrIn) (lawful : IsLawful S) (g : TestGraph) (fragments : List FragmentMetadata)
    (idx : ℕ)
    (in_range : (other j : ℕ)
      → IsNetAddr (get_or (fragment_at fragments other).mixnet_client_netaddrs j no_address)) where
  -- The client address that node `other` uses for its link to this node.
  abbrev IsClientAddress : ℕ → NetAddr → Type 0
  IsClientAddress other a =
      (j : ℕ) × (neighbor_place (neighbors_of g other) idx ≡ some j)
      × (a ≡ get_or (fragment_at fragments other).mixnet_client_netaddrs j no_address)

  abbrev Listed : List ℕ → ℕ → Buffer → Buffer → Type 0
  Listed row nid b b' =
      ((k : ℕ)
        → k < length row
        → IsClientAddress (get_or row k 0) (S.address_at b' (slot S (nid + k))))
      × ((m : ℕ) → m < nid → S.address_at b' (slot S m) ≡ S.address_at b (slot S m))
      × ((j : ℕ) → j < 16 → b' j ≡ b j)

  apart : (m nid : ℕ) → m < nid → slot S m + S.size ≤ slot S nid
  apart m nid lt = grind arith

  listed_cons :
      (other : ℕ) (others : List ℕ) (nid : ℕ) (b' : Buffer)
      → IsClientAddress other (S.address_at b' (slot S nid))
      → ((k : ℕ)
          → k < length others
          → IsClientAddress (get_or others k 0) (S.address_at b' (slot S (nid + 1 + k))))
      → (k : ℕ) → k < length (other ∷ others)
      → IsClientAddress (get_or (other ∷ others) k 0) (S.address_at b' (slot S (nid + k)))
  listed_cons other others nid b' first later zero lt =
      subst (λ (n : ℕ). IsClientAddress other (S.address_at b' (slot S n))) (omega arith) first
  listed_cons other others nid b' first later (suc k) lt =
      subst (λ (n : ℕ). IsClientAddress (get_or others k 0) (S.address_at b' (slot S n)))
        (omega arith) (later k (omega arith))

  put_clients-Listed :
      (row : List ℕ) (nid : ℕ) (b : Buffer)
      → ((k : ℕ) → k < length row → has_neighbor idx (neighbors_of g (get_or row k 0)) ≡ true)
      → (b' : Buffer) × (put_clients S g fragments idx row nid b ≡ some b') × Listed row nid b b'
  unfolding put_clients
  put_clients-Listed [] nid b known =
      (b, refl, (λ k lt. absurd (omega arith), λ m lt. refl, λ j lt. refl))
  put_clients-Listed (other ∷ others) nid b known =
      let (place, found) =
        neighbor_place_total (neighbors_of g other) idx (known 0 (omega arith)) in
      let a = get_or (fragment_at fragments other).mixnet_client_netaddrs place no_address in
      let b1 = S.put_address (slot S nid) a b in
      let (b', made, (later, earlier, header)) =
        put_clients-Listed others (nid + 1) b1 (λ k lt. known (suc k) (omega arith)) in
      (
        b',
        rw (found, put_clients) made,
        (
          listed_cons other others nid b'
              (
                place,
                found,
                earlier nid (omega arith)
                    ∙ lawful.read_back (slot S nid) a b (in_range other place),
              )
              later,
          λ m lt.
              earlier m (omega arith)
              ∙ lawful.elsewhere (slot S nid) (slot S m) a b (inr (apart m nid lt)),
          λ j lt. header j lt ∙ lawful.before (slot S nid) a b j (omega arith),
        ),
      )

  -- In a symmetric graph the assertion of run_state_resolve_mixnet_connections does not fail, and
  -- the request tells a node, for each of its neighbors in order, the address that the neighbor's
  -- client for this node has: the neighbor's row holds this node at the place of that client.
  pub fill_resolve_lem :
      (b : Buffer)
      → IsSymmetric g
      → (b' : Buffer) × (fill_resolve S g fragments idx b ≡ some b')
        × ((k : ℕ)
            → k < length (neighbors_of g idx)
            → (j : ℕ) × (get_or (neighbors_of g (get_or (neighbors_of g idx) k 0)) j 0 ≡ idx)
              × (S.address_at b' (slot S k)
                  ≡ get_or
                      (fragment_at fragments
                        (get_or (neighbors_of g idx) k 0)).mixnet_client_netaddrs
                      j
                      no_address))
        × ((j : ℕ) → j < 8 → b' j ≡ b j)
  unfolding fill_resolve
  fill_resolve_lem b symmetric =
      let row = neighbors_of g idx in
      let (b', made, (listed, earlier, header)) =
        put_clients-Listed row 0 (put16 8 (length row) b)
          (λ k lt. symmetric.mirrored idx (get_or row k 0) (row_has row k lt)) in
      (
        b',
        made,
        λ k lt.
            let (j, found, same) = listed k lt in
            (
              j,
              (neighbor_place_lem (neighbors_of g (get_or row k 0)) idx j found).1,
              ap (λ (n : ℕ). S.address_at b' (slot S n)) (omega arith) ∙ same,
            ),
        λ j lt. header j (omega arith) ∙ ground arith,
      )
