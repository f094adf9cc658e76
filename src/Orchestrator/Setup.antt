-- ===== src/Orchestrator/Setup.antt =====
-- The run_state methods of the orchestrator (framework/orchestrator.cpp), with what the sockets, the
-- clock and the processes answer as arguments.
use cmu_mixnet.Prelude.{
  ℕ, zero, suc, ◌+◌, Bool, true, false, Option, none, some, List, [], ◌∷◌, ◌++◌, if◌then◌else◌,
  ◌==◌, length, map, replicate,
}
use cmu_mixnet.ErrorCode.{ErrorCode, fork_failed, socket_accept_failed, socket_accept_timeout}
use cmu_mixnet.Message.{
  MessageType, Buffer, setup_ctrl, setup_pcap, topology, start_mixnet_server, start_mixnet_clients,
  resolve_mixnet_conns, start_testcase, end_testcase, shutdown,
}
use cmu_mixnet.Networking.Accepting.{NetAddr, Attempt, Accepted, server_accept}
use cmu_mixnet.TestGraph.{TestGraph}
use cmu_mixnet.Orchestrator.Foreach.{
  Fd, Sending, Sent, failed_assertion, sent, Wait, Gathered, assertion, waiting, gathered,
  foreach_fragment_send_generic, foreach_fragment_recv_generic,
}
use cmu_mixnet.Orchestrator.Payloads.{
  SockaddrIn, FragmentMetadata, new_fragment, take_ctrl, take_pcap, take_server, take_clients,
  take_nothing, take_shutdown, fill_nothing, fill_setup_ctrl, fill_setup_pcap, fill_topology,
  fill_clients, fill_resolve,
}

-- The state of the orchestrator. `graph` and the two intervals are those of the test.
pub record Orchestrator : Type 0 where
  pub fragments : List FragmentMetadata
  pub listen_fd_ctrl : Fd
  pub listen_fd_pcap : Fd
  pub pcap_thread_run : Bool
  pub pcap_thread_error : Option ErrorCode
  pub msg_ctrl : Buffer
  pub autotest_mode : Bool
  pub timeout_connect_ms : ℕ
  pub timeout_communication_ms : ℕ
  pub graph : TestGraph
  pub reelection_interval_ms : ℕ
  pub root_hello_interval_ms : ℕ

-- A method fails an assertion, is still in one of its loops, or returns an error code.
pub data Result : Type 0 where
  asserted unfinished : Result
  ended : Option ErrorCode → Orchestrator → Result

-- DIE_ON_ERROR
abbrev pub then_do : Result → (Orchestrator → Result) → Result
then_do asserted next = asserted
then_do unfinished next = unfinished
then_do (ended (some e) o) next = ended (some e) o
then_do (ended none o) next = next o

abbrev pub require : Bool → ErrorCode → Orchestrator → Result
require ok e o = if ok then ended none o else ended (some e) o

abbrev pub after_sending : Orchestrator → Sent → Result
after_sending o failed_assertion = asserted
after_sending o (sent e pending b xs) = ended e (record o { msg_ctrl = b })

abbrev pub after_gathering : Orchestrator → Gathered (List FragmentMetadata) → Result
after_gathering o assertion = asserted
after_gathering o waiting = unfinished
after_gathering o (gathered e g) = ended e (record o { msg_ctrl = g.buffer; fragments = g.state })

abbrev pub fd_ctrl_of : FragmentMetadata → Fd
fd_ctrl_of x = x.fd_ctrl

abbrev pub fd_pcap_of : FragmentMetadata → Fd
fd_pcap_of x = x.fd_pcap

-- What the sendings and the turns of waiting of one method meet.
pub record Exchange : Type 0 where
  pub sending : ℕ → Sending
  pub waits : List Wait

module _ (S : SockaddrIn) where
  unfoldable pub send_generic :
      List Fd → MessageType → (ℕ → Buffer → Option Buffer) → (ℕ → Sending) → Orchestrator → Result
  unfolding foreach_fragment_send_generic
  send_generic fds type fill sending o = after_sending o (
      foreach_fragment_send_generic S.size fds type fill o.timeout_communication_ms sending
        o.msg_ctrl)

  unfoldable pub recv_generic :
      (check_ids : Bool)
      → List Fd
      → MessageType
      → (ℕ → Buffer → List FragmentMetadata → Option ErrorCode × List FragmentMetadata)
      → List Wait
      → Orchestrator
      → Result
  unfolding foreach_fragment_recv_generic
  recv_generic check_ids fds type process waits o = after_gathering o (
      foreach_fragment_recv_generic (List FragmentMetadata) S.size check_ids type process fds
        o.timeout_communication_ms waits o.msg_ctrl o.fragments)

  pub foreach_fragment_send_ctrl :
      MessageType → (ℕ → Buffer → Option Buffer) → (ℕ → Sending) → Orchestrator → Result
  unfolding send_generic
  foreach_fragment_send_ctrl type fill sending o =
      send_generic (map fd_ctrl_of o.fragments) type fill sending o

  pub foreach_fragment_recv_ctrl :
      MessageType
      → (ℕ → Buffer → List FragmentMetadata → Option ErrorCode × List FragmentMetadata)
      → List Wait
      → Orchestrator
      → Result
  unfolding recv_generic
  foreach_fragment_recv_ctrl type process waits o =
      recv_generic true (map fd_ctrl_of o.fragments) type process waits o

  -- A request to every fragment and the wait for every response.
  pub ask_all :
      MessageType
      → (ℕ → Buffer → Option Buffer)
      → (ℕ → Buffer → List FragmentMetadata → Option ErrorCode × List FragmentMetadata)
      → Exchange
      → Orchestrator
      → Result
  unfolding foreach_fragment_send_ctrl foreach_fragment_recv_ctrl
  ask_all type fill process x o =
      then_do (foreach_fragment_send_ctrl type fill x.sending o)
        (foreach_fragment_recv_ctrl type process x.waits)

  -- The server of a plane: server_setup() and the descriptor that it leaves, the loop of accept(),
  -- and in autotest mode the pids that fork() answers, `none` for an error.
  pub record Listening : Type 0 where
    pub server_setup : Option ErrorCode
    pub listen_fd : Fd
    pub attempts : List Attempt
    pub fork : ℕ → Option ℕ

  -- The processes from `idx` on, `n` of them, until a fork() fails.
  pub fork_from : (ℕ → Option ℕ) → ℕ → ℕ → Bool × List FragmentMetadata
  fork_from fork zero idx = (true, [])
  fork_from fork (suc n) idx = elim (fork idx) [
    | none ↦ (false, [])
    | some pid ↦
        let (success, rest) = fork_from fork n (idx + 1) in
        (success, record new_fragment { pid = some pid } ∷ rest)
  ]

  pub started_fragments : Orchestrator → (ℕ → Option ℕ) → Bool × List FragmentMetadata
  unfolding fork_from
  started_fragments o fork =
      if o.autotest_mode
      then fork_from fork (length o.graph.nodes) 0
      else (true, replicate (length o.graph.nodes) new_fragment)

  abbrev pub connection_fd : ℕ × NetAddr → Fd
  connection_fd (fd, address) = some fd

  -- The connections once the server has been joined by the thread that runs accept(), if all the
  -- processes were started.
  abbrev pub connections : Orchestrator → Bool → Bool × Accepted → (List Fd → Result) → Result
  connections o forked (false, a) next = unfinished
  connections o forked (true, a) next = then_do (require forked fork_failed o) (λ o1.
      then_do (require a.succeeds socket_accept_failed o1) (λ o2.
        then_do (require (length a.states == length o.graph.nodes) socket_accept_timeout o2)
          (λ o3. next (map connection_fd a.states))))

  abbrev pub accepting : Listening → Orchestrator → Bool × Accepted
  unfolding server_accept
  accepting l o = server_accept (length o.graph.nodes) true o.timeout_connect_ms l.attempts

  unfoldable pub run_state_setup_ctrl : Listening → Exchange → Orchestrator → Result
  unfolding started_fragments accepting recv_generic foreach_fragment_send_ctrl
  run_state_setup_ctrl l x o = elim (length o.fragments == 0) [
    | false ↦ asserted
    | true ↦ then_do (ended l.server_setup (record o { listen_fd_ctrl = l.listen_fd })) (λ o1.
        let (forked, fragments) = started_fragments o1 l.fork in
        let o2 = record o1 { fragments = fragments } in
        connections o2 forked (accepting l o) (λ fds.
          then_do (recv_generic false fds setup_ctrl (take_ctrl o.autotest_mode fds) x.waits o2)
            (foreach_fragment_send_ctrl setup_ctrl (fill_setup_ctrl o.autotest_mode) x.sending)))
  ]

  -- The handshakes on the pcap plane.
  pub handshake : List Fd → Exchange → Orchestrator → Result
  unfolding send_generic recv_generic
  handshake fds y o =
      then_do (recv_generic false fds setup_pcap (take_pcap fds) y.waits o)
        (λ o1. send_generic (map fd_pcap_of o1.fragments) setup_pcap fill_nothing y.sending o1)

  unfoldable pub run_state_setup_pcap :
      NetAddr → Listening → (ctrl pcap : Exchange) → Orchestrator → Result
  unfolding ask_all server_accept handshake
  run_state_setup_pcap pcap_netaddr l x y o =
      then_do (ended l.server_setup (record o { listen_fd_pcap = l.listen_fd })) (λ o1.
        then_do (ask_all setup_pcap (fill_setup_pcap S pcap_netaddr) take_nothing x o1)
          (λ o2. connections o2 true (accepting l o) (λ fds. handshake fds y o2)))

  pub run_state_create_topology : Exchange → Orchestrator → Result
  unfolding ask_all
  run_state_create_topology x o =
      ask_all topology (fill_topology o.graph o.reelection_interval_ms o.root_hello_interval_ms)
        take_nothing x o

  -- `peer` is what getpeername() answers for a fragment's connection.
  pub run_state_start_mixnet_server : (ℕ → Option NetAddr) → Exchange → Orchestrator → Result
  unfolding ask_all
  run_state_start_mixnet_server peer x o =
      ask_all start_mixnet_server fill_nothing (take_server S o.graph peer) x o

  pub run_state_start_mixnet_clients : Exchange → Orchestrator → Result
  unfolding ask_all
  run_state_start_mixnet_clients x o =
      ask_all start_mixnet_clients (fill_clients S o.graph o.fragments) (take_clients S o.graph) x o

  pub run_state_resolve_mixnet_connections : Exchange → Orchestrator → Result
  unfolding ask_all
  run_state_resolve_mixnet_connections x o =
      ask_all resolve_mixnet_conns (fill_resolve S o.graph o.fragments) take_nothing x o

  pub run_state_start_testcase : Exchange → Orchestrator → Result
  unfolding ask_all
  run_state_start_testcase x o = ask_all start_testcase fill_nothing take_nothing x o

  pub run_state_end_testcase : Exchange → Orchestrator → Result
  unfolding ask_all
  run_state_end_testcase x o = ask_all end_testcase fill_nothing take_nothing x o

  abbrev ignoring_errors : Result → (Orchestrator → Result) → Result
  ignoring_errors asserted next = asserted
  ignoring_errors unfinished next = unfinished
  ignoring_errors (ended e o) next = next o

  -- An error of the sending is ignored.
  pub run_state_graceful_shutdown : Exchange → Orchestrator → Result
  unfolding foreach_fragment_send_ctrl foreach_fragment_recv_ctrl
  run_state_graceful_shutdown x o =
      ignoring_errors (foreach_fragment_send_ctrl shutdown fill_nothing x.sending o)
        (foreach_fragment_recv_ctrl shutdown take_shutdown x.waits)

-- The pids that destroy_fragments() sends the signal to.
pub destroy_fragments : List FragmentMetadata → List ℕ
destroy_fragments [] = []
destroy_fragments (x ∷ xs) = elim x.pid [
  | none ↦ destroy_fragments xs
  | some pid ↦ pid ∷ destroy_fragments xs
]

abbrev opened : Fd → List ℕ
opened none = []
opened (some fd) = fd ∷ []

-- The descriptors that destroy_sockets() closes, in order.
pub destroy_sockets : List FragmentMetadata → (listen_fd_ctrl listen_fd_pcap : Fd) → List ℕ
destroy_sockets [] listen_fd_ctrl listen_fd_pcap = opened listen_fd_pcap ++ opened listen_fd_ctrl
destroy_sockets (x ∷ xs) listen_fd_ctrl listen_fd_pcap =
    opened x.fd_ctrl ++ opened x.fd_pcap ++ destroy_sockets xs listen_fd_ctrl listen_fd_pcap

-- The descriptors that are closed, and the state for the next test.
pub run_state_reset : Orchestrator → List ℕ × Orchestrator
unfolding destroy_sockets
run_state_reset o = (
  destroy_sockets o.fragments o.listen_fd_ctrl o.listen_fd_pcap,
  record o {
    pcap_thread_error = none;
    pcap_thread_run = true;
    listen_fd_ctrl = none;
    listen_fd_pcap = none;
    fragments = [];
  },
)

-- The assertion of the first state; its message is not modelled.
pub run_state_init : Orchestrator → Result
run_state_init o = if length o.fragments == 0 then ended none o else asserted

-- Large timeouts without the autotester.
pub configure : Bool → Orchestrator → Orchestrator
configure autotest_mode o = if autotest_mode then record o { autotest_mode = true } else record o {
  autotest_mode = false;
  timeout_communication_ms = 5000;
  timeout_connect_ms = 600000;
}
