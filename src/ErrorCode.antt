-- ===== src/ErrorCode.antt =====
-- The error codes of the framework (framework/error.h). NONE is the `none` of an option.
use cmu_mixnet.Prelude.{ℕ, ◌≡◌, refl, Option, none, some, List, [], ◌∷◌, get_elem?, ◌<◌, arith}

pub data ErrorCode : Type 0 where
  poll_error fork_failed exec_failed bad_testcase bad_fragment_id bad_message_code : ErrorCode
  malformed_message recv_zero_pending recv_wait_timeout send_reqs_timeout : ErrorCode
  fragment_exception socket_bind_failed socket_accept_failed socket_create_failed : ErrorCode
  socket_listen_failed socket_bad_operation socket_connect_failed socket_options_failed : ErrorCode
  socket_accept_timeout fragment_pcap_mq_full ctrl_connection_broken : ErrorCode
  pcap_connection_broken fragment_invalid_saddr fragment_invalid_caddr : ErrorCode
  mixnet_bad_packet_size mixnet_connection_broken fragment_bad_neighbor_count : ErrorCode
  fragment_threads_nonresponsive fragment_duplicate_local_addrs : ErrorCode

-- The enumeration in its order, NONE first.
abbrev pub error_codes : List (Option ErrorCode)
error_codes =
    none
    ∷ some poll_error
    ∷ some fork_failed
    ∷ some exec_failed
    ∷ some bad_testcase
    ∷ some bad_fragment_id
    ∷ some bad_message_code
    ∷ some malformed_message
    ∷ some recv_zero_pending
    ∷ some recv_wait_timeout
    ∷ some send_reqs_timeout
    ∷ some fragment_exception
    ∷ some socket_bind_failed
    ∷ some socket_accept_failed
    ∷ some socket_create_failed
    ∷ some socket_listen_failed
    ∷ some socket_bad_operation
    ∷ some socket_connect_failed
    ∷ some socket_options_failed
    ∷ some socket_accept_timeout
    ∷ some fragment_pcap_mq_full
    ∷ some ctrl_connection_broken
    ∷ some pcap_connection_broken
    ∷ some fragment_invalid_saddr
    ∷ some fragment_invalid_caddr
    ∷ some mixnet_bad_packet_size
    ∷ some mixnet_connection_broken
    ∷ some fragment_bad_neighbor_count
    ∷ some fragment_threads_nonresponsive
    ∷ some fragment_duplicate_local_addrs
    ∷ []

pub error_index : ErrorCode → ℕ
error_index poll_error = 1
error_index fork_failed = 2
error_index exec_failed = 3
error_index bad_testcase = 4
error_index bad_fragment_id = 5
error_index bad_message_code = 6
error_index malformed_message = 7
error_index recv_zero_pending = 8
error_index recv_wait_timeout = 9
error_index send_reqs_timeout = 10
error_index fragment_exception = 11
error_index socket_bind_failed = 12
error_index socket_accept_failed = 13
error_index socket_create_failed = 14
error_index socket_listen_failed = 15
error_index socket_bad_operation = 16
error_index socket_connect_failed = 17
error_index socket_options_failed = 18
error_index socket_accept_timeout = 19
error_index fragment_pcap_mq_full = 20
error_index ctrl_connection_broken = 21
error_index pcap_connection_broken = 22
error_index fragment_invalid_saddr = 23
error_index fragment_invalid_caddr = 24
error_index mixnet_bad_packet_size = 25
error_index mixnet_connection_broken = 26
error_index fragment_bad_neighbor_count = 27
error_index fragment_threads_nonresponsive = 28
error_index fragment_duplicate_local_addrs = 29

-- The number of a code in the enumeration.
unfoldable pub error_number : Option ErrorCode → ℕ
unfolding error_index
error_number none = 0
error_number (some e) = error_index e

index_lem : (e : ErrorCode) → get_elem? error_codes (error_index e) ≡ some (some e)
unfolding error_index
index_lem poll_error = refl
index_lem _ = refl

index_lt : (e : ErrorCode) → error_index e < 30
unfolding error_index
index_lt poll_error = omega arith
index_lt _ = omega arith

pub error_number_lt : (e : Option ErrorCode) → error_number e < 30
unfolding error_number
error_number_lt none = omega arith
error_number_lt (some e) = index_lt e

-- The number leads back to the code.
pub get_elem?-error_number :
    (e : Option ErrorCode) → get_elem? error_codes (error_number e) ≡ some e
unfolding error_number
get_elem?-error_number none = refl
get_elem?-error_number (some e) = index_lem e
