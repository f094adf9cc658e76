-- ===== src/Tests/Framework.antt =====
-- Concrete messages between the orchestrator and a fragment.
use cmu_mixnet.Prelude.{
  ℕ, ◌+◌, ◌*◌, ◌≤◌, ◌<◌, ◌≡◌, ◌≢◌, refl, true, false, none, some, Option, List, [], ◌∷◌, arith,
}
use cmu_mixnet.Packet.{Packet, routed, user_bytes}
use cmu_mixnet.ErrorCode.{
  ErrorCode, bad_testcase, bad_fragment_id, bad_message_code, fragment_exception,
  socket_connect_failed,
}
use cmu_mixnet.Message.{
  Buffer, put16, validate, finalize, get_type, get_total_length, get_error_code, is_request,
  end_testcase, change_link_state, send_packet,
}
use cmu_mixnet.Message.Canary.{payload_size, Fits, finalize-validate}
use cmu_mixnet.Headers.{response_passes, request_checked}
use cmu_mixnet.Injection.{injected_data}
use cmu_mixnet.Control.{Input, message, Plane, reported}
use cmu_mixnet.Control
use cmu_mixnet.Control.Tasks.{RawBytes, injected_packet}
use cmu_mixnet.Orchestrator.{fill_send_packet}
use cmu_mixnet.Orchestrator
use cmu_mixnet.Orchestrator.Run.{
  State, setup_pcap_plane, init, run, finished, first_of, PathFrom, run_lem,
}

abbrev pub zeros : Buffer
zeros j = 0

-- A request to switch a link off.
abbrev link_off : Buffer
link_off = put16 8 1 (Orchestrator.prepare_header 3 change_link_state zeros)

link_off-Fits : Fits 16 change_link_state link_off
unfolding Orchestrator.prepare_header get_type is_request payload_size
link_off-Fits = record { typed = refl; sent = λ e. cc; room = omega arith; whole = λ e. cc }

finalize-validate_example :
    (b' : Buffer) × (finalize 16 link_off ≡ some b')
    × (validate 16 b' ≡ some true)
    × (get_total_length b' ≡ 12 + payload_size 16 (is_request link_off) change_link_state link_off)
    × ((j : ℕ)
        → 2 ≤ j
        → j < 8 + payload_size 16 (is_request link_off) change_link_state link_off
        → b' j ≡ link_off j)
finalize-validate_example = finalize-validate 16 change_link_state link_off link_off-Fits

response_passes_example :
    (b' : Buffer) × (finalize 16 (Control.prepare_header 3 end_testcase (some bad_testcase) zeros)
      ≡ some b')
    × (get_error_code b' ≡ some (some bad_testcase))
    × (some bad_testcase ≡ none → Orchestrator.check_header 16 true 3 end_testcase b' ≡ some none)
    × (some bad_testcase ≢ none
        → Orchestrator.check_header 16 true 3 end_testcase b' ≡ some (some fragment_exception))
unfolding payload_size
response_passes_example =
    response_passes 16 3 end_testcase (some bad_testcase) zeros true (omega arith)
      (λ e. cc, omega arith, λ e. cc)

-- A request for fragment 3 at fragment 2, which waits for the same type.
request_checked_example :
    (b' : Buffer) × (finalize 16 (Orchestrator.prepare_header 3 end_testcase zeros) ≡ some b')
    × (true ≡ true
        → (let to : ℕ = 3 in to ≢ 2)
        → Control.check_header 16 2 true true end_testcase b' ≡ some (some bad_fragment_id))
    × ((true ≡ true → (let to : ℕ = 3 in to ≡ 2))
        → true ≡ true
        → end_testcase ≢ end_testcase
        → Control.check_header 16 2 true true end_testcase b' ≡ some (some bad_message_code))
    × ((true ≡ true → (let to : ℕ = 3 in to ≡ 2))
        → (true ≡ true → end_testcase ≡ end_testcase)
        → Control.check_header 16 2 true true end_testcase b' ≡ some none)
unfolding payload_size
request_checked_example =
    request_checked 16 3 2 end_testcase end_testcase true true zeros (omega arith)
      (λ e. cc, omega arith, λ e. cc)

-- A whole message as it arrives.
abbrev pub arriving : Option Buffer → Buffer
arriving none = zeros
arriving (some b) = b

abbrev pub raw : RawBytes
raw = record {
  raw_stp = record { root_address = 0; path_length = 0; node_address = 0 };
  raw_lsa = record { node_address = 0; neighbor_count = 0; links = [] };
  raw_ping = record { is_request = false; pad = 0; send_time = 0 };
}

abbrev injected : Packet
injected = record {
  total_size = 22;
  payload =
      routed
        (record { src_address = 1; dst_address = 300; route_length = 0; hop_index = 0; route = [] })
        (user_bytes (104 ∷ 105 ∷ []));
}

injected_data_example :
    (b' : Buffer) × (finalize 16 (
        fill_send_packet 1 300 3 (104 ∷ 105 ∷ []) (Orchestrator.prepare_header 0 send_packet zeros))
      ≡ some b')
    × (Control.check_header 16 0 true true send_packet b' ≡ some none)
    × (injected_packet raw b' ≡ injected)
    × (22 + 2 * 256 ≤ 4096)
injected_data_example =
    injected_data 16 0 1 300 (104 ∷ 105 ∷ []) raw zeros true true (omega arith) (omega arith)
      (omega arith) (omega arith)

-- A test whose pcap plane cannot be set up.
abbrev failing : State → Option ErrorCode
failing setup_pcap_plane = some socket_connect_failed
failing s = none

run_lem_example :
    (visited : List State) × (run failing ≡ finished visited (first_of failing visited))
    × PathFrom failing init visited
run_lem_example = run_lem failing
