-- ===== src/Tests/Nodes.antt =====
-- A node over several rounds.
use Prim.{tt}
use cmu_mixnet.Prelude.{ℕ, zero, suc, refl, false, none, some, List, [], ◌∷◌, arith}
use cmu_mixnet.Packet.{Packet, stp, lsa}
use cmu_mixnet.State.{NodeState, empty_graph, state_init, become_root}
use cmu_mixnet.Node.{Round, node_rounds}
use cmu_mixnet.Node.Invariant.{IsNode, HasCosts, MeetHonest}
use cmu_mixnet.Node.Reached.{node_rounds-IsNode}
use cmu_mixnet.Tests.Network.{granting, links_2, links_fit, node_1}

abbrev started : NodeState
started = record {
  root = 1;
  path_len = 0;
  next_hop = 65535;
  neighbor_addr = 65535 ∷ 65535 ∷ [];
  blocked = false ∷ false ∷ [];
  hello_start_ms = 0;
  reelection_start_ms = 0;
  topology = empty_graph;
  lsa_start_ms = 0;
  fib = [];
  mix = none;
}

abbrev meeting : ℕ → ℕ → Packet → Round
meeting port now packet = record {
  received = some (port, packet);
  handler_alloc = granting;
  timer_alloc = granting;
  handler_now = now;
  timer_now = now;
  random = 0;
}

abbrev rounds : List Round
rounds =
    meeting 0 50 (record {
      total_size = 18;
      payload = stp (record { root_address = 0; path_length = 1; node_address = 2 });
    })
    ∷ meeting 0 150 (record {
      total_size = 24;
      payload = lsa (record { node_address = 2; neighbor_count = 2; links = links_2 });
    })
    ∷ []

node_1-HasCosts : HasCosts node_1
node_1-HasCosts zero = omega arith
node_1-HasCosts (suc zero) = omega arith
node_1-HasCosts (suc (suc p)) = omega arith

rounds-Honest : MeetHonest rounds
rounds-Honest = ((omega arith, λ e. omega (arith, e)), (links_fit links_2 refl, tt))

node_rounds-IsNode_example : IsNode node_1 (node_rounds node_1 started rounds).0
unfolding state_init become_root
node_rounds-IsNode_example =
    node_rounds-IsNode granting node_1 0 0 0 rounds started node_1-HasCosts refl rounds-Honest
