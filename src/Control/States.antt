-- ===== src/Control/States.antt =====
-- The states of a fragment (the run_state methods and run() of framework/fragment.cpp). What the
-- operating system and the connection threads answer is a record.
pub mod Run
pub mod Trace
pub mod Conversation
pub mod Answers
use cmu_mixnet.Prelude.{
  ℕ, zero, suc, ◌+◌, ◌-◌, ◌*◌, ◌/◌, ◌%◌, Bool, true, false, not, ◌&&◌, ◌||◌, Option, none, some,
  List, [], ◌∷◌, ◌++◌, if◌then◌else◌, ◌==◌, set, ltb, leb, take,
}
use cmu_mixnet.Config.{Config}
use cmu_mixnet.ErrorCode.{
  ErrorCode, ctrl_connection_broken, pcap_connection_broken, socket_create_failed,
  socket_connect_failed, fragment_bad_neighbor_count, socket_accept_timeout, socket_options_failed,
  fragment_exception,
}
use cmu_mixnet.Message.{
  MessageType, setup_ctrl, setup_pcap, topology, start_mixnet_server, start_mixnet_clients,
  resolve_mixnet_conns, start_testcase, shutdown, Buffer, get16, put8, put16, header_size,
  get_fragment_id,
}
use cmu_mixnet.Networking.{Outcome, returned, running}
use cmu_mixnet.Control.{
  Plane, Call, failed_assertion, called, recv_request, send_response, no_payload,
}
use cmu_mixnet.Control.Tasks.{Context, Turn, bytes_from}
use cmu_mixnet.Control.Testcase.{run_testcase}

-- The state of a fragment. `config` is what the node is started with, `tx_sockets` the connection
-- of each neighbor.
pub record Fragment : Type 0 where
  pub fid : ℕ
  pub autotest_mode : Bool
  pub ctrl : Plane
  pub pcap : Plane
  pub config : Config
  pub context : Context
  pub tx_sockets : List (Option ℕ)

-- What the fragment meets: socket() and connect() on the two planes, the server that takes the
-- neighbors' connections, socket() and connect() for each neighbor, the connections that were
-- accepted with their addresses, how an address is read from a message, the bytes that getsockname()
-- writes (none when it fails), and the turns of the testcase.
pub record Surroundings : Type 0 where
  pub pid : ℕ
  pub ctrl_socket : Bool
  pub ctrl_connects : Bool
  pub pcap_socket : Bool
  pub pcap_connects : Bool
  pub server_setup : Option ErrorCode
  pub server_address : ℕ → ℕ
  pub clients : List (Bool × Bool)
  pub accepted : List (ℕ × ℕ)
  pub address_at : Buffer → ℕ → ℕ
  pub names : Option (ℕ → ℕ)
  pub turns : List Turn

-- A method ends with an error code, fails an assertion, or is still in the loop of its testcase.
pub data Result : Type 0 where
  asserted : Result
  unfinished : Result
  ended : Option ErrorCode → Fragment → Result

-- DIE_ON_ERROR
abbrev pub then_do : Result → (Fragment → Result) → Result
then_do asserted next = asserted
then_do unfinished next = unfinished
then_do (ended (some e) f) next = ended (some e) f
then_do (ended none f) next = next f

abbrev pub on_ctrl : Fragment → Call → Result
on_ctrl f failed_assertion = asserted
on_ctrl f (called e p) = ended e (record f { ctrl = p })

abbrev pub on_pcap : Fragment → Call → Result
on_pcap f failed_assertion = asserted
on_pcap f (called e p) = ended e (record f { pcap = p })

-- recv_request on the control plane, with the check of the type.
pub receive_ctrl : (addr_size : ℕ) → Bool → MessageType → Fragment → Result
unfolding recv_request
receive_ctrl addr_size check_id type f =
    on_ctrl f (recv_request addr_size f.fid check_id true type ctrl_connection_broken f.ctrl)

-- send_response of NONE on the control plane.
pub respond_ctrl :
    (addr_size : ℕ) → MessageType → (Buffer → Option ErrorCode × Buffer) → Fragment → Result
unfolding send_response
respond_ctrl addr_size type fill f = on_ctrl f (send_response addr_size f.fid type none fill f.ctrl)

abbrev pub unless : Bool → ErrorCode → Fragment → Result → Result
unless ok e f rest = if ok then rest else ended (some e) f

-- The response's four bytes.
abbrev pub put_pid : ℕ → Buffer → Buffer
put_pid pid b = put16 (header_size + 2) (pid / 65536) (put16 header_size pid b)

-- Bytes written to a place.
abbrev pub put_over : ℕ → ℕ → (ℕ → ℕ) → Buffer → Buffer
put_over i n bytes b j = if ltb j i || leb (i + n) j then b j else bytes (j - i)

-- The fragment with the id and the mode of the message in its buffer.
pub with_identity : Fragment → Fragment
unfolding get_fragment_id
with_identity f = record f {
  fid = get_fragment_id f.ctrl.buffer;
  autotest_mode = not (f.ctrl.buffer header_size == 0);
}

pub run_state_setup_ctrl : ℕ → Surroundings → Fragment → Result
unfolding receive_ctrl respond_ctrl with_identity
run_state_setup_ctrl addr_size sys f = unless (sys.ctrl_socket) socket_create_failed f (
    unless (sys.ctrl_connects) socket_connect_failed f (
      then_do (respond_ctrl addr_size setup_ctrl (λ b. (none, put_pid sys.pid b)) f) (λ g.
        then_do (receive_ctrl addr_size false setup_ctrl g) (λ h. ended none (with_identity h)))))

pub run_state_setup_pcap : ℕ → Surroundings → Fragment → Result
unfolding receive_ctrl respond_ctrl recv_request send_response
run_state_setup_pcap addr_size sys f = then_do (receive_ctrl addr_size true setup_pcap f) (λ f1.
    then_do (respond_ctrl addr_size setup_pcap no_payload f1) (λ f2.
      unless (sys.pcap_socket) socket_create_failed f2 (
        unless (sys.pcap_connects) socket_connect_failed f2 (
          then_do (on_pcap f2 (send_response addr_size f2.fid setup_pcap none no_payload f2.pcap))
            (λ f3. on_pcap f3 (
              recv_request addr_size f3.fid true true setup_pcap pcap_connection_broken
                f3.pcap))))))

abbrev pub get32 : Buffer → ℕ → ℕ
get32 b i = get16 b i + 65536 * get16 b (i + 2)

abbrev pub words_from : Buffer → ℕ → ℕ → List ℕ
words_from b i zero = []
words_from b i (suc n) = get16 b i ∷ words_from b (i + 2) n

abbrev pub repeat {ℓ} : {A : Type ℓ} → ℕ → A → List A
repeat zero x = []
repeat (suc n) x = x ∷ repeat n x

-- The configuration that a topology request carries, and the fresh context.
unfoldable pub init_node_context : Buffer → Config × Context
init_node_context b =
    let n = get16 b (header_size + 2) in
    (
      record {
        node_addr = get16 b header_size;
        num_neighbors = n;
        root_hello_interval_ms = get32 b (header_size + 8);
        reelection_interval_ms = get32 b (header_size + 12);
        do_random_routing = not (b (header_size + 4) == 0);
        mixing_factor = get16 b (header_size + 6);
        link_costs = words_from b (header_size + 16) n;
      },
      record {
        num_neighbors = n;
        link_states = repeat n true;
        is_pcap_subscribed = false;
        keep_running = true;
        injected = [];
        sentinels = 0;
      },
    )

-- The fragment with the context that the message in its buffer asks for.
pub configured : Fragment → Fragment
unfolding init_node_context
configured f =
    let (config, context) = init_node_context f.ctrl.buffer in
    record f { config = config; context = context; tx_sockets = repeat config.num_neighbors none }

pub run_state_create_topology : ℕ → Fragment → Result
unfolding receive_ctrl respond_ctrl configured
run_state_create_topology addr_size f =
    then_do (receive_ctrl addr_size true topology f)
      (λ g. respond_ctrl addr_size topology no_payload (configured g))

pub run_state_start_mixnet_server : ℕ → Surroundings → Fragment → Result
unfolding receive_ctrl respond_ctrl
run_state_start_mixnet_server addr_size sys f =
    then_do (receive_ctrl addr_size true start_mixnet_server f) (λ g.
      then_do (ended (sys.server_setup) g) (λ h.
        respond_ctrl addr_size start_mixnet_server
          (λ b. (none, put_over header_size addr_size sys.server_address b)) h))

-- The loop that connects to each neighbor.
abbrev pub connect_all : List (Bool × Bool) → Option ErrorCode
connect_all [] = none
connect_all ((made, joined) ∷ rest) =
    let later = connect_all rest in
    if not made
    then some socket_create_failed
    else if not joined
    then some socket_connect_failed
    else later

abbrev pub name_clients : ℕ → Option (ℕ → ℕ) → ℕ → Buffer → Option ErrorCode × Buffer
name_clients addr_size none n b = (some socket_options_failed, put16 header_size n b)
name_clients addr_size (some bytes) n b =
    (none, put_over (header_size + 8) (n * addr_size) bytes (put16 header_size n b))

abbrev pub num_accepted : List (ℕ × ℕ) → ℕ
num_accepted [] = 0
num_accepted (x ∷ xs) = suc (num_accepted xs)

pub run_state_start_mixnet_client : ℕ → Surroundings → Fragment → Result
unfolding receive_ctrl respond_ctrl
run_state_start_mixnet_client addr_size sys f =
    let n = f.config.num_neighbors in
    then_do (receive_ctrl addr_size true start_mixnet_clients f) (λ g.
      unless (n == get16 g.ctrl.buffer header_size) fragment_bad_neighbor_count g (
        then_do (ended (connect_all (take n (sys.clients))) g) (λ h.
          unless (num_accepted (sys.accepted) == n) socket_accept_timeout h (
            respond_ctrl addr_size start_mixnet_clients (name_clients addr_size (sys.names) n) h))))

-- The first accepted connection with an address.
pub connection_of : List (ℕ × ℕ) → ℕ → Option ℕ
connection_of [] address = none
connection_of ((known, fd) ∷ rest) address =
    let later = connection_of rest address in if known == address then some fd else later

-- The connections of the neighbors from `nid` on, as far as each has one.
pub resolve_from :
    (ℕ → ℕ) → List (ℕ × ℕ) → ℕ → ℕ → List (Option ℕ) → Option ErrorCode × List (Option ℕ)
unfolding connection_of
resolve_from address_of accepted nid zero sockets = (none, sockets)
resolve_from address_of accepted nid (suc n) sockets =
    elim (connection_of accepted (address_of nid)) [
      | none ↦ (some fragment_exception, sockets)
      | some fd ↦ resolve_from address_of accepted (nid + 1) n (set sockets nid (some fd))
    ]

-- The lambda that maps the neighbors to their connections.
pub connected : (ℕ → ℕ) → List (ℕ × ℕ) → ℕ → Fragment → Result
unfolding resolve_from
connected address_of accepted n f =
    let (e, sockets) = resolve_from address_of accepted 0 n f.tx_sockets in
    ended e (record f { tx_sockets = sockets })

pub run_state_resolve_mixnet_connections : ℕ → Surroundings → Fragment → Result
unfolding receive_ctrl respond_ctrl connected
run_state_resolve_mixnet_connections addr_size sys f =
    let n = f.config.num_neighbors in
    then_do (receive_ctrl addr_size true resolve_mixnet_conns f) (λ g.
      unless (get16 g.ctrl.buffer header_size == n) fragment_bad_neighbor_count g (
        then_do (connected (sys.address_at g.ctrl.buffer) (sys.accepted) n g)
          (respond_ctrl addr_size resolve_mixnet_conns no_payload)))

pub run_state_start_testcase : ℕ → Fragment → Result
unfolding receive_ctrl respond_ctrl
run_state_start_testcase addr_size f =
    then_do (receive_ctrl addr_size true start_testcase f)
      (respond_ctrl addr_size start_testcase no_payload)

abbrev pub ended_loop : Fragment → Option Outcome × Plane × Context → Result
ended_loop f (none, p, c) = asserted
ended_loop f (some running, p, c) = unfinished
ended_loop f (some (returned e), p, c) = ended e (record f { ctrl = p; context = c })

pub run_state_run_testcase : ℕ → Surroundings → Fragment → Result
unfolding run_testcase
run_state_run_testcase addr_size sys f =
    ended_loop f (run_testcase addr_size f.fid (sys.turns) f.ctrl f.context)

pub run_state_do_shutdown : ℕ → Fragment → Result
unfolding receive_ctrl respond_ctrl
run_state_do_shutdown addr_size f =
    then_do (receive_ctrl addr_size true shutdown f) (respond_ctrl addr_size shutdown no_payload)
