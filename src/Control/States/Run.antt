-- ===== src/Control/States/Run.antt =====
-- The state machine of a fragment (fragment::run of framework/fragment.cpp).
use cmu_mixnet.Prelude.{ℕ, zero, suc, Bool, true, false, none, some}
use cmu_mixnet.Control.States.{
  Fragment, Surroundings, Result, asserted, unfinished, ended, run_state_setup_ctrl,
  run_state_setup_pcap, run_state_create_topology, run_state_start_mixnet_server,
  run_state_start_mixnet_client, run_state_resolve_mixnet_connections, run_state_start_testcase,
  run_state_run_testcase, run_state_do_shutdown,
}

pub data State : Type 0 where
  setup_ctrl setup_pcap create_topology start_mixnet_server start_mixnet_client : State
  resolve_mixnet_connections start_testcase run_testcase shutdown done : State

-- The `switch` of a turn.
unfoldable pub run_state : ℕ → Surroundings → State → Fragment → Result
unfolding run_state_setup_ctrl run_state_setup_pcap run_state_create_topology
    run_state_start_mixnet_server run_state_start_mixnet_client run_state_resolve_mixnet_connections
    run_state_start_testcase run_state_run_testcase run_state_do_shutdown
run_state addr_size sys setup_ctrl f = run_state_setup_ctrl addr_size sys f
run_state addr_size sys setup_pcap f = run_state_setup_pcap addr_size sys f
run_state addr_size sys create_topology f = run_state_create_topology addr_size f
run_state addr_size sys start_mixnet_server f = run_state_start_mixnet_server addr_size sys f
run_state addr_size sys start_mixnet_client f = run_state_start_mixnet_client addr_size sys f
run_state addr_size sys resolve_mixnet_connections f =
    run_state_resolve_mixnet_connections addr_size sys f
run_state addr_size sys start_testcase f = run_state_start_testcase addr_size f
run_state addr_size sys run_testcase f = run_state_run_testcase addr_size sys f
run_state addr_size sys shutdown f = run_state_do_shutdown addr_size f
run_state addr_size sys done f = ended none f

unfoldable pub next_state : State → State
next_state setup_ctrl = setup_pcap
next_state setup_pcap = create_topology
next_state create_topology = start_mixnet_server
next_state start_mixnet_server = start_mixnet_client
next_state start_mixnet_client = resolve_mixnet_connections
next_state resolve_mixnet_connections = start_testcase
next_state start_testcase = run_testcase
next_state run_testcase = shutdown
next_state shutdown = done
next_state done = done

abbrev pub is_done : State → Bool
is_done done = true
is_done s = false

-- The state that the machine is left in, with what its last method has returned.
abbrev pub End : Type 0
End = State × Result

-- The end of a turn: the new state, and the loop's condition.
unfoldable pub after_state : State → (State → Fragment → End) → Result → End
unfolding next_state
after_state s loop asserted = (s, asserted)
after_state s loop unfinished = (s, unfinished)
after_state s loop (ended (some e) f) = (next_state s, ended (some e) f)
after_state s loop (ended none f) = elim (is_done (next_state s)) [
  | true ↦ (next_state s, ended none f)
  | false ↦ loop (next_state s) f
]

-- The `do` loop from a state, for at most `n` turns.
unfoldable pub run_from : ℕ → ℕ → Surroundings → State → Fragment → End
unfolding run_state after_state
run_from zero addr_size sys s f = (s, unfinished)
run_from (suc n) addr_size sys s f =
    after_state s (run_from n addr_size sys) (run_state addr_size sys s f)

-- Nine turns are enough.
unfoldable pub run : ℕ → Surroundings → Fragment → End
unfolding run_from
run addr_size sys f = run_from 9 addr_size sys setup_ctrl f
