-- ===== src/State.antt =====
-- The state of a node (struct fib_entry, mix_slot and node_state of mixnet/node.c), its set-up and
-- tear-down. `fib_count` and `mix_count` are the lengths of their lists; `mix` holds the slots in
-- use, and is `none` where the buffer is NULL.
pub mod Ports
use cmu_mixnet.Prelude.{
  ℕ, zero, suc, ◌+◌, Bool, true, false, ◌&&◌, ◌||◌, Option, none, some, List, [], if◌then◌else◌,
  ◌==◌, ltb, get_or, set, replicate,
}
use cmu_mixnet.Packet.{Packet, invalid_mixaddr}
use cmu_mixnet.Config.{Config, Alloc, neighbor_rows, blocked_rows, mix_buffer}
use cmu_mixnet.Topology.{Graph}

pub record FibEntry : Type 0 where
  pub reachable : Bool
  pub route : List ℕ

pub record MixSlot : Type 0 where
  pub port : ℕ
  pub packet : Packet

pub record NodeState : Type 0 where
  pub root : ℕ
  pub path_len : ℕ
  pub next_hop : ℕ
  pub neighbor_addr : List ℕ
  pub blocked : List Bool
  pub hello_start_ms : ℕ
  pub reelection_start_ms : ℕ
  pub topology : Graph
  pub lsa_start_ms : ℕ
  pub fib : List FibEntry
  pub mix : Option (List MixSlot)

-- s->neighbor_addr[p] and s->blocked[p]; every read is in range.
abbrev pub neighbor_at : NodeState → ℕ → ℕ
neighbor_at s p = get_or s.neighbor_addr p invalid_mixaddr

abbrev pub blocked_at : NodeState → ℕ → Bool
blocked_at s p = get_or s.blocked p false

-- The ports from `p` on, `n` of them.
pub scan_ports : ℕ → ℕ → List ℕ → ℕ → Option ℕ
scan_ports zero p addrs addr = none
scan_ports (suc n) p addrs addr =
    if get_or addrs p invalid_mixaddr == addr then some p else scan_ports n (p + 1) addrs addr

unfoldable pub port_of : Config → NodeState → ℕ → Option ℕ
unfolding scan_ports
port_of c s addr =
    if addr == invalid_mixaddr then none else scan_ports c.num_neighbors 0 s.neighbor_addr addr

unfoldable pub clear_ports : ℕ → ℕ → List Bool → List Bool
clear_ports zero p blocked = blocked
clear_ports (suc n) p blocked = clear_ports n (p + 1) (set blocked p false)

unfoldable pub unblock_all : Config → NodeState → NodeState
unfolding clear_ports
unblock_all c s = record s { blocked = clear_ports c.num_neighbors 0 s.blocked }

unfoldable pub become_root : Config → NodeState → NodeState
become_root c s = record s { root = c.node_addr; path_len = 0; next_hop = invalid_mixaddr }

abbrev pub empty_graph : Graph
empty_graph = record { v = []; capacity = 0 }

abbrev mix_fits : Alloc → Config → Bool
mix_fits m c = if ltb 1 c.mixing_factor then m mix_buffer 0 else true

-- The three readings of the clock are arguments; `none` is a failed allocation. The seeding of
-- rand() leaves no trace here, since its values are arguments too.
unfoldable pub state_init : Alloc → Config → ℕ → ℕ → ℕ → Option NodeState
unfolding become_root
state_init m c hello_ms reelection_ms lsa_ms =
    let arrays = (c.num_neighbors == 0) || (m neighbor_rows 0 && m blocked_rows 0) in
    if arrays && mix_fits m c
    then some (
        become_root c (record {
          root = 0;
          path_len = 0;
          next_hop = 0;
          neighbor_addr = replicate c.num_neighbors invalid_mixaddr;
          blocked = replicate c.num_neighbors false;
          hello_start_ms = hello_ms;
          reelection_start_ms = reelection_ms;
          topology = empty_graph;
          lsa_start_ms = lsa_ms;
          fib = [];
          mix = if ltb 1 c.mixing_factor then some [] else none;
        }))
    else none

unfoldable pub state_free : NodeState → NodeState
state_free s = record s {
  neighbor_addr = [];
  blocked = [];
  mix = none;
  fib = [];
  topology = empty_graph;
}
