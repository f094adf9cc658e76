-- ===== src/State/Ports.antt =====
-- The port loops: reopening every port, and the reverse lookup of a neighbor.
use cmu_mixnet.Prelude.{
  ℕ, zero, suc, ◌+◌, ◌≤◌, ◌<◌, ◌≡◌, refl, ◌≢◌, inl, inr, Bool, false, ◌&&◌, some, List, arith, ◌==◌,
  ltb, leb, Bool-cases, if◌then◌else◌, length, get_or, set, get_or-set, get_or-beyond, length-set,
}
use cmu_mixnet.Packet.{invalid_mixaddr}
use cmu_mixnet.Config.{Config}
use cmu_mixnet.State.{
  NodeState, neighbor_at, blocked_at, scan_ports, port_of, clear_ports, unblock_all,
}

clear_ports_lem :
    (n p : ℕ) (blocked : List Bool) (q : ℕ)
    → get_or (clear_ports n p blocked) q false
      ≡ (if leb p q && ltb q (p + n) then false else get_or blocked q false)
unfolding clear_ports
clear_ports_lem zero p blocked q = ground arith
clear_ports_lem (suc n) p blocked q = ground (
  arith,
  clear_ports_lem n (p + 1) (set blocked p false) q,
  get_or-set blocked p q false false,
  get_or-beyond blocked q false,
)

length-clear_ports :
    (n p : ℕ) (blocked : List Bool) → length (clear_ports n p blocked) ≡ length blocked
unfolding clear_ports
length-clear_ports zero p blocked = refl
length-clear_ports (suc n) p blocked =
    ground (arith, length-clear_ports n (p + 1) (set blocked p false), length-set blocked p false)

pub unblock_all_lem :
    (c : Config) (s : NodeState) (q : ℕ)
    → blocked_at (unblock_all c s) q ≡ (if ltb q c.num_neighbors then false else blocked_at s q)
unfolding unblock_all
unblock_all_lem c s q = ground (arith, clear_ports_lem c.num_neighbors 0 s.blocked q)

pub length-unblock_all :
    (c : Config) (s : NodeState) → length (unblock_all c s).blocked ≡ length s.blocked
unfolding unblock_all
length-unblock_all c s = length-clear_ports c.num_neighbors 0 s.blocked

scan_ports_lem :
    (n p : ℕ) (addrs : List ℕ) (addr q : ℕ)
    → scan_ports n p addrs addr ≡ some q
    → (p ≤ q) × (q < p + n) × (get_or addrs q invalid_mixaddr ≡ addr)
unfolding scan_ports
scan_ports_lem zero p addrs addr q h = cc
scan_ports_lem (suc n) p addrs addr q h =
    elim (Bool-cases (get_or addrs p invalid_mixaddr == addr)) [
      | inl here ↦ ground arith
      | inr on ↦ ground (arith, scan_ports_lem n (p + 1) addrs addr q)
    ]

-- A port that is found lies in range and leads to the address, which is a valid one.
pub port_of_lem :
    (c : Config) (s : NodeState) (addr q : ℕ)
    → port_of c s addr ≡ some q
    → (q < c.num_neighbors) × (neighbor_at s q ≡ addr) × (addr ≢ invalid_mixaddr)
unfolding port_of
port_of_lem c s addr q h = ground (arith, scan_ports_lem c.num_neighbors 0 s.neighbor_addr addr q)

scan_ports_finds :
    (n p : ℕ) (addrs : List ℕ) (addr q : ℕ)
    → p ≤ q
    → q < p + n
    → get_or addrs q invalid_mixaddr ≡ addr
    → (k : ℕ) × (scan_ports n p addrs addr ≡ some k)
unfolding scan_ports
scan_ports_finds zero p addrs addr q le lt e = absurd (omega arith)
scan_ports_finds (suc n) p addrs addr q le lt e =
    elim (Bool-cases (get_or addrs p invalid_mixaddr == addr)) [
      | inl here ↦ (p, ground arith)
      | inr on ↦
          let (k, found) = scan_ports_finds n (p + 1) addrs addr q (ground arith) (omega arith) e in
          (k, ground arith)
    ]

-- An address that some port leads to is found.
pub port_of_finds :
    (c : Config) (s : NodeState) (addr q : ℕ)
    → addr ≢ invalid_mixaddr
    → q < c.num_neighbors
    → neighbor_at s q ≡ addr
    → (k : ℕ) × (port_of c s addr ≡ some k)
unfolding port_of
port_of_finds c s addr q valid lt e =
    let (k, found) =
      scan_ports_finds c.num_neighbors 0 s.neighbor_addr addr q (omega arith) (omega arith) e in
    (k, ground arith)
