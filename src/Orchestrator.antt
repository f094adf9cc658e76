-- ===== src/Orchestrator.antt =====
-- The orchestrator (framework/orchestrator.cpp). The outer `none` is a failed assertion.
pub mod Run
pub mod Foreach
pub mod Asking
pub mod Heard
pub mod Gathering
pub mod Returning
pub mod Payloads
pub mod Setup
pub mod Mapping
pub mod Resolving
pub mod Pcap
use mathlib.Core.Option
use mathlib.Core.Bool.{beq}
use cmu_mixnet.Prelude.{
  ℕ, zero, suc, ◌+◌, ◌-◌, ◌*◌, ◌/◌, ◌%◌, ◌^◌, Bool, true, false, not, ◌&&◌, ◌||◌, Option, none,
  some, List, [], ◌∷◌, ◌++◌, if◌then◌else◌, ◌==◌, ltb, leb, length, get_or, set,
}
use cmu_mixnet.Packet.{
  packet_header_size, routing_header_size, address_size, max_mixnet_packet_size,
  max_mixnet_route_length,
}
use cmu_mixnet.ErrorCode.{
  ErrorCode, malformed_message, bad_message_code, bad_fragment_id, fragment_exception, bad_testcase,
}
use cmu_mixnet.Message.{
  MessageType, type_number, Buffer, validate, is_request, get_type, get_fragment_id, get_error_code,
  set_fragment_id, set_error_code, set_code, finalize, header_size, put8, put16,
}
use cmu_mixnet.Message
use cmu_mixnet.Control.{is_type, reported}

unfoldable pub prepare_header : ℕ → MessageType → Buffer → Buffer
unfolding set_fragment_id set_error_code set_code
prepare_header fid type b = set_error_code none (set_code true type (set_fragment_id fid b))

unfoldable pub check_header :
    (addr_size : ℕ) (check_id : Bool) → ℕ → MessageType → Buffer → Option (Option ErrorCode)
unfolding validate is_request get_type get_fragment_id get_error_code
check_header addr_size check_id fid type b = elim (validate addr_size b) [
  | none ↦ none
  | some valid ↦
      if not valid
      then some (some malformed_message)
      else if check_id && not (get_fragment_id b == fid)
      then some (some bad_fragment_id)
      else if is_request b || not (is_type (get_type b) type)
      then some (some bad_message_code)
      else reported (get_error_code b)
]

-- MAX_MIXNET_DATA_SIZE
abbrev pub max_mixnet_data_size : ℕ
max_mixnet_data_size =
    max_mixnet_packet_size
    - packet_header_size
    - (routing_header_size + address_size * max_mixnet_route_length)

-- memcpy of the bytes to the place `i`.
unfoldable pub put_bytes : ℕ → List ℕ → Buffer → Buffer
put_bytes i xs b j = if ltb j i || leb (i + length xs) j then b j else get_or xs (j - i) 0

-- The lambda of send_packet, for the two nodes' addresses.
unfoldable pub fill_send_packet : ℕ → ℕ → ℕ → List ℕ → Buffer → Buffer
unfolding put_bytes
fill_send_packet src_mixaddr dst_mixaddr type bytes b = put16 (header_size + 6) (length bytes) (
    put_bytes (header_size + 8) bytes (
      put16 (header_size + 4) dst_mixaddr
        (put16 (header_size + 2) src_mixaddr (put16 header_size type b))))

-- A request and its response. `exchange` sends the message and receives the next one, each with
-- the timeout of the orchestrator, and answers the error code and the buffer.
unfoldable pub fragment_request_response :
    (addr_size fid : ℕ)
    → MessageType
    → (Buffer → Buffer)
    → (ℕ → Buffer → Option ErrorCode × Buffer)
    → Buffer
    → Option (Option ErrorCode) × Buffer
unfolding prepare_header finalize check_header
fragment_request_response addr_size fid type fill exchange b =
    elim (finalize addr_size (fill (prepare_header fid type b))) [
      | none ↦ (none, b)
      | some request ↦
          let (e, response) = exchange fid request in
          elim e [
            | some code ↦ (some (some code), response)
            | none ↦ (check_header addr_size true fid type response, response)
          ]
    ]

-- `mixaddr` are the addresses of the nodes in the test's graph.
pub send_packet :
    (addr_size : ℕ)
    → (ℕ → ℕ)
    → (ℕ → Buffer → Option ErrorCode × Buffer)
    → (src_idx dst_idx type : ℕ) → List ℕ
    → Buffer
    → Option (Option ErrorCode) × Buffer
unfolding fill_send_packet fragment_request_response
send_packet addr_size mixaddr exchange src_idx dst_idx type bytes b =
    if ltb max_mixnet_data_size (length bytes)
    then (some (some bad_testcase), b)
    else fragment_request_response addr_size src_idx Message.send_packet
        (fill_send_packet (mixaddr src_idx) (mixaddr dst_idx) type bytes) exchange b

-- The first place of a node in a list of neighbors.
unfoldable pub neighbor_place : List ℕ → ℕ → Option ℕ
neighbor_place [] idx = none
neighbor_place (x ∷ xs) idx =
    let rest = neighbor_place xs idx in if x == idx then some 0 else Option.map suc rest

unfoldable pub fill_link_state : ℕ → Bool → Buffer → Buffer
fill_link_state neighbor_id is_enabled b =
    put8 (header_size + 2) (if is_enabled then 1 else 0) (put16 header_size neighbor_id b)

-- `none` also for a node that is not in the topology.
unfoldable pub change_link_state :
    (addr_size : ℕ)
    → List (List ℕ)
    → (ℕ → Buffer → Option ErrorCode × Buffer)
    → (idx_a idx_b : ℕ) → Bool
    → Buffer
    → Option (Option ErrorCode) × Buffer
unfolding neighbor_place fill_link_state fragment_request_response
change_link_state addr_size topology exchange idx_a idx_b is_enabled b =
    let place_b = neighbor_place (get_or topology idx_a []) idx_b in
    let place_a = neighbor_place (get_or topology idx_b []) idx_a in
    if not (ltb idx_a (length topology)) || not (ltb idx_b (length topology))
    then (none, b)
    else elim place_b [
      | none ↦ (some (some bad_testcase), b)
      | some b_nid_in_a ↦ elim place_a [
        | none ↦ (some (some bad_testcase), b)
        | some a_nid_in_b ↦
            let first =
              fragment_request_response addr_size idx_a Message.change_link_state
                (fill_link_state b_nid_in_a is_enabled) exchange b in
            elim first.0 [
              | none ↦ first
              | some (some e) ↦ first
              | some none ↦
                  fragment_request_response addr_size idx_b Message.change_link_state
                    (fill_link_state a_nid_in_b is_enabled) exchange first.1
            ]
      ]
    ]

-- The subscriptions of the fragments, which the call updates before it asks.
pub pcap_change_subscription :
    (addr_size : ℕ)
    → (ℕ → Buffer → Option ErrorCode × Buffer)
    → ℕ
    → Bool
    → List Bool
    → Buffer
    → Option (Option ErrorCode) × List Bool × Buffer
unfolding fragment_request_response
pcap_change_subscription addr_size exchange idx subscribe subscriptions b =
    let current = get_or subscriptions idx false in
    let (e, b') =
      fragment_request_response addr_size idx Message.pcap_subscription
        (put8 header_size (if subscribe then 1 else 0)) exchange b in
    if beq current subscribe
    then (some none, subscriptions, b)
    else (e, set subscriptions idx subscribe, b')
