-- ===== src/Tests/Election.antt =====
-- The spanning tree and floods at node 1.
use cmu_mixnet.Prelude.{ℕ, ◌<◌, ◌≡◌, ◌≢◌, refl, ◌⊎◌, ◌↔◌, false, Memᴰ, arith}
use cmu_mixnet.Packet.{StpPayload, Packet, flood}
use cmu_mixnet.State.{blocked_at}
use cmu_mixnet.Tree.{handle_stp, handle_flood}
use cmu_mixnet.Tree.Election.{IsTree, view, offer, elected, handle_stp_elects}
use cmu_mixnet.Tree.Blocking.{port_flag, OtherFlag, handle_stp_port, handle_stp_others}
use cmu_mixnet.Tree.Flooding.{IsTaken, handle_flood_mem}
use cmu_mixnet.Tests.Network.{granting, granting-IsGranted, node_1, state_1}

-- Node 2 has found a root with a smaller address.
abbrev better : StpPayload
better = record { root_address = 0; path_length = 3; node_address = 2 }

state_1-IsTree : IsTree node_1 state_1
state_1-IsTree = record {
  root-le = omega arith;
  own_root = λ e. (refl, refl);
  no_distance = λ e. refl;
  no_parent = λ e. refl;
}

handle_stp_elects_example :
    view (handle_stp granting node_1 state_1 0 better 50).0 ≡ elected (view state_1) (offer better)
handle_stp_elects_example = handle_stp_elects granting node_1 state_1 0 better 50 (omega arith)

handle_stp_port_example :
    blocked_at (handle_stp granting node_1 state_1 0 better 50).0 0
    ≡ port_flag state_1 (handle_stp granting node_1 state_1 0 better 50).0 better false
handle_stp_port_example =
    handle_stp_port granting node_1 state_1 0 better 50 (omega arith) (omega arith) (omega arith)

handle_stp_others_example :
    OtherFlag node_1 state_1 0 better (handle_stp granting node_1 state_1 0 better 50).0 1
handle_stp_others_example =
    handle_stp_others granting node_1 state_1 0 better 50 1 (λ e. absurd (omega arith))
      (omega arith)

abbrev wave : Packet
wave = record { total_size = 12; payload = flood }

handle_flood_mem_example : Memᴰ (2, wave) (handle_flood granting node_1 state_1 0 wave) ↔ (
    (wave ≡ wave)
    × IsTaken node_1 state_1 0
    × (◌≢◌ {A = ℕ} 2 0)
    × ((◌≡◌ {A = ℕ} 2 2) ⊎ ((2 < 2) × (blocked_at state_1 2 ≡ false))))
handle_flood_mem_example =
    handle_flood_mem granting node_1 state_1 0 wave 2 wave granting-IsGranted (omega arith)
