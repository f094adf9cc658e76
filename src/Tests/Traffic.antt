-- ===== src/Tests/Traffic.antt =====
-- Routed packets, mixing and whole rounds at node 1.
use cmu_mixnet.Prelude.{
  ℕ, ◌<◌, ◌≡◌, refl, inr, true, none, some, List, [], ◌∷◌, ◌++◌, arith, length, ◌*◌,
}
use cmu_mixnet.Packet.{Packet, stp, user_bytes, ping_body, Routed}
use cmu_mixnet.Config.{Config, Send}
use cmu_mixnet.State.{NodeState, state_init, state_free, unblock_all, empty_graph}
use cmu_mixnet.Tree.{broadcast_stp, handle_stp, adopt_root}
use cmu_mixnet.Mixing.Batch.{IsMixing, waiting, send_all, all_on_wire, send_all_batches}
use cmu_mixnet.Routing.{make_ping_reply}
use cmu_mixnet.Routing.Reply.{IsRouted, reply_to, make_ping_reply_lem}
use cmu_mixnet.Node.{Round, run_node}
use cmu_mixnet.Fragment.Sizes.{well_sized, all_acceptable}
use cmu_mixnet.Fragment.Sends.{held_acceptable}
use cmu_mixnet.Fragment.Rounds.{is_arrival, round_fits, rounds_fit, run_node-acceptable}
use cmu_mixnet.Tests.Network.{granting, node_1, state_1}

abbrev ping_1 : Routed
ping_1 = record {
  total_size = 34;
  header = record {
    src_address = 4;
    dst_address = 1;
    route_length = 2;
    hop_index = 2;
    route = 3 ∷ 2 ∷ [];
  };
  body = ping_body (record { is_request = true; pad = 0; send_time = 7 });
}

ping_1-IsRouted : IsRouted ping_1
unfolding IsRouted
ping_1-IsRouted = (refl, omega arith)

make_ping_reply_lem_example : make_ping_reply granting ping_1 ≡ some (reply_to ping_1)
make_ping_reply_lem_example = make_ping_reply_lem granting ping_1 ping_1-IsRouted refl

-- A node that sends two packets at a time.
abbrev mixing_1 : Config
mixing_1 = record node_1 { mixing_factor = 2 }

abbrev empty_1 : NodeState
empty_1 = record state_1 { mix = some [] }

abbrev data_to : ℕ → Routed
data_to dst = record {
  total_size = 20;
  header = record {
    src_address = 1;
    dst_address = dst;
    route_length = 0;
    hop_index = 0;
    route = [];
  };
  body = user_bytes [];
}

abbrev three : List Routed
three = data_to 2 ∷ data_to 3 ∷ data_to 2 ∷ []

send_all_batches_example :
    (waiting empty_1 ++ all_on_wire mixing_1 empty_1 three
      ≡ (send_all mixing_1 empty_1 three).1 ++ waiting (send_all mixing_1 empty_1 three).0)
    × IsMixing mixing_1 (send_all mixing_1 empty_1 three).0
    × (1 < 2 → (n : ℕ) × (length (send_all mixing_1 empty_1 three).1 ≡ n * 2))
send_all_batches_example =
    send_all_batches mixing_1 empty_1 three (inr (omega arith, ([], refl, omega arith)))

-- A hello of node 0 over node 2.
abbrev hello : Packet
hello = record {
  total_size = 18;
  payload = stp (record { root_address = 0; path_length = 1; node_address = 2 });
}

abbrev round_1 : Round
round_1 = record {
  received = some (0, hello);
  handler_alloc = granting;
  timer_alloc = granting;
  handler_now = 10;
  timer_now = 20;
  random = 5;
}

round_1_fits : rounds_fit node_1 (round_1 ∷ []) ≡ true
unfolding rounds_fit round_fits well_sized
round_1_fits = refl

one_fits : round_fits node_1 round_1 ≡ true
unfolding round_fits is_arrival well_sized
one_fits = refl

nothing_held : held_acceptable 2 none ≡ true
unfolding held_acceptable
nothing_held = refl

abbrev bid_of : ℕ → ℕ → Packet
bid_of root distance = record {
  total_size = 18;
  payload = stp (record { root_address = root; path_length = distance; node_address = 1 });
}

abbrev hellos : List Send
hellos = (0, bid_of 1 0) ∷ (1, bid_of 1 0) ∷ (0, bid_of 0 2) ∷ (1, bid_of 0 2) ∷ []

abbrev final_1 : NodeState
final_1 = record {
  root = 0;
  path_len = 2;
  next_hop = 2;
  neighbor_addr = [];
  blocked = [];
  hello_start_ms = 0;
  reelection_start_ms = 10;
  topology = empty_graph;
  lsa_start_ms = 0;
  fib = [];
  mix = none;
}

run_1 : run_node granting node_1 0 0 0 (round_1 ∷ []) ≡ some (final_1, hellos)
unfolding run_node state_init state_free broadcast_stp handle_stp adopt_root unblock_all
run_1 = refl

run_node-acceptable_example : all_acceptable 2 hellos ≡ true
run_node-acceptable_example =
    run_node-acceptable granting node_1 0 0 0 (round_1 ∷ []) final_1 hellos (omega arith)
      round_1_fits run_1
