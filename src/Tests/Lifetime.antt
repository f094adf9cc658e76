-- ===== src/Tests/Lifetime.antt =====
-- A fragment from its start to its shutdown.
use cmu_mixnet.Prelude.{
  ◌≡◌, arith, get_or, refl, Bool, true, false, none, some, Option, List, [], ◌∷◌, ◌++◌, ℕ, zero,
  suc, ◌<◌, length,
}
use cmu_mixnet.ErrorCode.{ErrorCode, recv_zero_pending}
use cmu_mixnet.Message.{
  MessageType, Buffer, get16, put8, put16, finalize, compute_total_length, payload_length, get_type,
}
use cmu_mixnet.Message
use cmu_mixnet.Networking.{returned}
use cmu_mixnet.Control.{Input, message, Plane}
use cmu_mixnet.Control.Tasks.{Turn, Context}
use cmu_mixnet.Control.Testcase.{run_testcase}
use cmu_mixnet.Control.Testcase.Session.{Conversed, run_testcase-Session}
use cmu_mixnet.Control.States.{Fragment, Surroundings, Result, asserted, unfinished, ended}
use cmu_mixnet.Control.States.Run.{run}
use cmu_mixnet.Control.States.Answers.{setup_types, run_answers}
use cmu_mixnet.Control.States.Trace.{Delivered, answers}
use cmu_mixnet.Orchestrator.{prepare_header, neighbor_place, change_link_state}
use cmu_mixnet.Switching.{Switches, outcome, and_then, change_link_state_lem}
use cmu_mixnet.Tests.Network.{node_1}
use cmu_mixnet.Tests.Framework.{zeros, arriving, raw}

-- A request for fragment 0 with a number at the start of its payload, or at its third byte.
abbrev request : MessageType → ℕ → ℕ → Input
request type first third =
    message (arriving (finalize 16 (put16 10 third (put16 8 first (prepare_header 0 type zeros)))))

abbrev plane_of : List Input → Plane
plane_of inbox = record { buffer = zeros; inbox = inbox; answers = []; outbox = [] }

abbrev quiet : Turn
quiet = record {
  has_memory = true;
  user_slot = true;
  pcap_slot = true;
  raw = raw;
  waiting = zeros ∷ [];
  last = recv_zero_pending;
  both_exited = true;
  one_exited = false;
}

abbrev fresh : Context
fresh = record {
  num_neighbors = 1;
  link_states = true ∷ [];
  is_pcap_subscribed = false;
  keep_running = true;
  injected = [];
  sentinels = 0;
}

abbrev two : Context
two = record fresh { num_neighbors = 2; link_states = true ∷ true ∷ [] }

abbrev testcase : List Input
testcase =
    request Message.pcap_subscription 1 0
    ∷ request Message.send_packet 4 1
    ∷ request Message.change_link_state 0 0
    ∷ request Message.end_testcase 0 0
    ∷ []

abbrev turns : List Turn
turns = quiet ∷ quiet ∷ quiet ∷ quiet ∷ []

run_testcase-Session_example :
    Conversed 0 (plane_of testcase) (run_testcase 16 0 turns (plane_of testcase) fresh).1
unfolding run_testcase finalize prepare_header compute_total_length payload_length
run_testcase-Session_example = run_testcase-Session 16 0 turns (plane_of testcase) fresh refl

-- The effect of the four requests.
testcase_effect : (run_testcase 16 0 turns (plane_of testcase) fresh).0 ≡ some (returned none)
unfolding run_testcase finalize prepare_header compute_total_length payload_length
testcase_effect = refl

abbrev lifetime : List Input
lifetime =
    request Message.setup_ctrl 1 0
      ∷ request Message.setup_pcap 0 0
      ∷ request Message.topology 1 1
      ∷ request Message.start_mixnet_server 0 0
      ∷ request Message.start_mixnet_clients 1 0
      ∷ request Message.resolve_mixnet_conns 1 0
      ∷ request Message.start_testcase 0 0
      ∷ testcase
    ++ request Message.shutdown 0 0 ∷ []

abbrev newborn : Fragment
newborn = record {
  fid = 65535;
  autotest_mode = false;
  ctrl = plane_of lifetime;
  pcap = plane_of (request Message.setup_pcap 0 0 ∷ []);
  config = node_1;
  context = fresh;
  tx_sockets = [];
}

abbrev around : Surroundings
around = record {
  pid = 77;
  ctrl_socket = true;
  ctrl_connects = true;
  pcap_socket = true;
  pcap_connects = true;
  server_setup = none;
  server_address = zeros;
  clients = (true, true) ∷ [];
  accepted = (9, 5) ∷ [];
  address_at = λ b nid. 9;
  names = some zeros;
  turns = turns;
}

abbrev final : Result → Fragment
final asserted = newborn
final unfinished = newborn
final (ended e f) = f

abbrev is_well : Result → Bool
is_well asserted = false
is_well unfinished = false
is_well (ended none f) = true
is_well (ended (some e) f) = false

ended_well : (r : Result) → is_well r ≡ true → r ≡ ended none (final r)
ended_well asserted h = cc
ended_well unfinished h = cc
ended_well (ended none f) h = refl
ended_well (ended (some e) f) h = cc

lived : is_well (run 16 around newborn).1 ≡ true
unfolding run finalize prepare_header compute_total_length payload_length
lived = refl

run_answers_example :
    (f1 f2 : Fragment) × Delivered newborn f1 (setup_types, setup_types)
    × Conversed f1.fid f1.ctrl f2.ctrl
    × Delivered f2 (final (run 16 around newborn).1) (answers Message.shutdown)
    × ((final (run 16 around newborn).1).fid ≡ f1.fid)
run_answers_example =
    run_answers 16 around newborn (final (run 16 around newborn).1)
      (ended_well (run 16 around newborn).1 lived)

-- Three nodes in a row, each with its neighbors.
abbrev in_a_row : List (List ℕ)
in_a_row = (1 ∷ []) ∷ (0 ∷ 2 ∷ []) ∷ (1 ∷ []) ∷ []

short_rows : (i : ℕ) → length (get_or in_a_row i []) < 65536
short_rows zero = omega arith
short_rows (suc zero) = omega arith
short_rows (suc (suc zero)) = omega arith
short_rows (suc (suc (suc i))) = omega arith

-- An exchange that hands the request back.
abbrev echo : ℕ → Buffer → Option ErrorCode × Buffer
echo fid b = (none, b)

change_link_state_lem_example :
    (first : Buffer) × (second : Buffer → Buffer) × Switches 16 1 (0 ∷ 2 ∷ []) 2 false first
    × ((r : Buffer) → Switches 16 2 (1 ∷ []) 1 false (second r))
    × (change_link_state 16 in_a_row echo 1 2 false zeros
        ≡ and_then (outcome 16 1 (echo 1 first)) (λ r. outcome 16 2 (echo 2 (second r))))
unfolding neighbor_place
change_link_state_lem_example =
    change_link_state_lem 16 in_a_row echo 1 2 1 0 false zeros (omega arith) (omega arith)
      (omega arith) short_rows refl refl
