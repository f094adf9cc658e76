-- ===== src/Config.antt =====
-- The configuration of a node (mixnet/config.h), and what the node takes from its environment.
use cmu_mixnet.Prelude.{ℕ, ◌≡◌, Bool, true, List}
use cmu_mixnet.Packet.{Packet}

pub record Config : Type 0 where
  pub node_addr : ℕ
  pub num_neighbors : ℕ
  pub root_hello_interval_ms : ℕ
  pub reelection_interval_ms : ℕ
  pub do_random_routing : Bool
  pub mixing_factor : ℕ
  pub link_costs : List ℕ

-- The places that ask for memory. The number beside a place tells its requests within one call of a
-- handler apart: a port, or the capacity that is outgrown.
pub data Site : Type 0 where
  neighbor_rows blocked_rows mix_buffer vertex_rows row_links stp_copy lsa_copy tree_copy : Site
  sp_table fib_table fib_route detour_route reply_copy : Site

-- Which requests of one call are granted: the allocator of the C library.
abbrev pub Alloc : Type 0
Alloc = Site → ℕ → Bool

-- Every request is granted.
abbrev pub IsGranted : Alloc → Type 0
IsGranted m = (s : Site) (i : ℕ) → m s i ≡ true

-- A packet handed to mixnet_send() with its port.
abbrev pub Send : Type 0
Send = ℕ × Packet
