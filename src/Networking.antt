-- ===== src/Networking.antt =====
-- Messages over a socket (send_generic and recv_generic of framework/networking.h and
-- networking.cpp). The socket is a parameter: what send() and recv() answer, and the clock.
pub mod Sending
pub mod Receiving
pub mod Turns
pub mod Accepting
use cmu_mixnet.Prelude.{
  ℕ, zero, suc, ◌+◌, ◌-◌, ◌*◌, ◌%◌, ◌^◌, ◌≤◌, ◌≡◌, Bool, true, false, not, ◌&&◌, ◌||◌, Option, none,
  some, List, [], ◌∷◌, ◌++◌, if◌then◌else◌, ◌==◌, ltb, leb, length, get_or, take, drop,
}
use cmu_mixnet.ErrorCode.{
  ErrorCode, socket_options_failed, socket_bad_operation, malformed_message, send_reqs_timeout,
  recv_zero_pending, recv_wait_timeout,
}

pub data Mode : Type 0 where
  rx_tx_blocking rx_tx_timeout rx_try_once : Mode

pub record NetConfig : Type 0 where
  pub mode : Mode
  pub timeout : ℕ

abbrev pub is_block : Mode → Bool
is_block rx_tx_blocking = true
is_block rx_tx_timeout = false
is_block rx_try_once = false

abbrev pub is_try_once : Mode → Bool
is_try_once rx_tx_blocking = false
is_try_once rx_tx_timeout = false
is_try_once rx_try_once = true

abbrev pub use_timeout : Mode → Bool
use_timeout rx_tx_blocking = false
use_timeout rx_tx_timeout = true
use_timeout rx_try_once = false

-- `nonblocking` is what fcntl() tells of the socket, none for an error.
unfoldable pub validate : Option Bool → NetConfig → Bool → Option ErrorCode
validate none c is_tx = some socket_options_failed
validate (some nonblocking) c is_tx =
    if not nonblocking && not (is_block c.mode)
    then some socket_bad_operation
    else if is_tx && is_try_once c.mode
    then some socket_bad_operation
    else none

-- What one call of send() answers: the number of bytes taken, EAGAIN and the like, or an error.
pub data SendAnswer : Type 0 where
  taken : ℕ → SendAnswer
  send_again : SendAnswer
  send_failed : SendAnswer

-- A call has returned its error code, or is still in its loop when the answers end.
pub data Outcome : Type 0 where
  returned : Option ErrorCode → Outcome
  running : Outcome

-- The length that leads a message, its low byte first.
abbrev pub leading_length : List ℕ → ℕ
leading_length xs = get_or xs 0 0 + 256 * get_or xs 1 0

-- The `while` loop over the bytes that are left, with the bytes that the socket has taken. An
-- answer comes with the time that has passed after it.
pub send_loop :
    NetConfig → ErrorCode → List (SendAnswer × ℕ) → List ℕ → ℕ → List ℕ → Outcome × List ℕ
send_loop c connection_error [] buffer delta_ms wire =
    if length buffer == 0
    then (returned none, wire)
    else if use_timeout c.mode && leb c.timeout delta_ms
    then (returned (some send_reqs_timeout), wire)
    else (running, wire)
send_loop c connection_error ((answer, time) ∷ rest) buffer delta_ms wire =
    let delta' = if use_timeout c.mode then time else delta_ms in
    if length buffer == 0
    then (returned none, wire)
    else if use_timeout c.mode && leb c.timeout delta_ms
    then (returned (some send_reqs_timeout), wire)
    else elim answer [
      | taken k ↦ send_loop c connection_error rest (drop k buffer) delta' (wire ++ take k buffer)
      | send_again ↦ send_loop c connection_error rest buffer delta' wire
      | send_failed ↦ (returned (some connection_error), wire)
    ]

-- `buffer` holds the message and whatever follows it.
pub send_generic :
    Option Bool → NetConfig → ErrorCode → ℕ → ℕ → List (SendAnswer × ℕ) → List ℕ → Outcome × List ℕ
unfolding validate send_loop
send_generic nonblocking c connection_error min_len max_len answers buffer =
    let buffer_len = leading_length buffer in
    elim (validate nonblocking c true) [
      | some e ↦ (returned (some e), [])
      | none ↦
          if ltb buffer_len min_len || ltb max_len buffer_len
          then (returned (some malformed_message), [])
          else send_loop c connection_error answers (take buffer_len buffer) 0 []
    ]

-- What one call of recv() answers: the bytes, none of them when the peer has closed.
pub data Answer : Type 0 where
  received : List ℕ → Answer
  again : Answer
  failed : Answer

-- The variables of the loop: the bytes before the buffer pointer are `got`.
pub record RecvState : Type 0 where
  pub peek : Bool
  pub recv_started : Bool
  pub expected_size : ℕ
  pub msg_length : ℕ
  pub got : List ℕ

pub data RecvStep : Type 0 where
  finish : Option ErrorCode → List ℕ → RecvStep
  go_on : RecvState → RecvStep

-- Decoding the message's length.
pub decode_step : Mode → ℕ → ℕ → List ℕ → RecvState → RecvStep
decode_step mode min_len max_len bytes s =
    let msg_length = leading_length bytes in
    if length bytes == s.expected_size
    then if ltb msg_length min_len || ltb max_len msg_length
      then finish (some malformed_message) []
      else go_on (record s {
        msg_length = msg_length;
        expected_size = msg_length;
        peek = not (is_block mode);
      })
    else if is_try_once mode
    then finish (some recv_zero_pending) []
    else go_on s

-- The check that the whole message is there, and in try-once mode the reading of it.
pub whole_step : Mode → ErrorCode → List ℕ → RecvState → RecvStep
whole_step mode connection_error bytes s =
    if length bytes == s.expected_size
    then if s.recv_started
      then finish none (s.got ++ bytes)
      else go_on (record s { peek = false; recv_started = true })
    else if is_try_once mode
    then finish (some (if s.recv_started then connection_error else recv_zero_pending)) []
    else go_on s

-- Reading the message piece by piece.
pub consume_step : List ℕ → RecvState → RecvStep
consume_step bytes s =
    let left = s.expected_size - length bytes in
    if left == 0
    then finish none (s.got ++ bytes)
    else go_on (record s { recv_started = true; expected_size = left; got = s.got ++ bytes })

pub recv_step : Mode → ErrorCode → ℕ → ℕ → Answer → RecvState → RecvStep
unfolding decode_step whole_step consume_step
recv_step mode connection_error min_len max_len failed s = finish (some connection_error) []
recv_step mode connection_error min_len max_len again s =
    if is_try_once mode then finish (some recv_zero_pending) [] else go_on s
recv_step mode connection_error min_len max_len (received bytes) s =
    if length bytes == 0
    then finish (some connection_error) []
    else if s.msg_length == 0
    then decode_step mode min_len max_len bytes s
    else if is_try_once mode || (use_timeout mode && not s.recv_started)
    then whole_step mode connection_error bytes s
    else consume_step bytes s

abbrev pub recv_start : RecvState
recv_start = record {
  peek = true;
  recv_started = false;
  expected_size = 2;
  msg_length = 0;
  got = [];
}

-- A socket: recv() for a number of bytes, which it takes or only peeks at.
module _ (Socket : Type 0) (recv : Socket → ℕ → Bool → Answer × Socket) where
  -- The `while` loop; each turn ends with a reading of the clock.
  pub recv_loop :
      NetConfig → ErrorCode → ℕ → ℕ → List ℕ → RecvState → ℕ → Socket → Outcome × List ℕ × Socket
  unfolding recv_step
  recv_loop c connection_error min_len max_len [] s delta_ms socket = (running, [], socket)
  recv_loop c connection_error min_len max_len (time ∷ times) s delta_ms socket =
      let (answer, socket') = recv socket s.expected_size s.peek in
      let late = if s.recv_started then recv_wait_timeout else recv_zero_pending in
      if use_timeout c.mode && leb c.timeout delta_ms
      then (returned (some late), [], socket)
      else elim (recv_step c.mode connection_error min_len max_len answer s) [
        | finish e message ↦ (returned e, message, socket')
        | go_on s' ↦
            recv_loop c connection_error min_len max_len times s'
              (if use_timeout c.mode then time else delta_ms) socket'
      ]

  unfoldable pub recv_generic :
      Option Bool → NetConfig → ErrorCode → ℕ → ℕ → List ℕ → Socket → Outcome × List ℕ × Socket
  unfolding recv_loop
  recv_generic nonblocking c connection_error min_len max_len times socket =
      elim (validate nonblocking c false) [
        | some e ↦ (returned (some e), [], socket)
        | none ↦ recv_loop c connection_error min_len max_len times recv_start 0 socket
      ]
