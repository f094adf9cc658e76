-- ===== src/Control.antt =====
-- The control plane of a fragment (framework/fragment.cpp): its messages with the orchestrator, the
-- tasks of a testcase and its state machine. The outer `none` is a failed assertion.
pub mod Tasks
pub mod Testcase
pub mod States
pub mod Capture
use cmu_mixnet.Prelude.{
  ℕ, zero, suc, ◌+◌, ◌-◌, ◌*◌, ◌%◌, ◌^◌, Bool, true, false, not, ◌&&◌, ◌||◌, Option, none, some,
  List, [], ◌∷◌, ◌++◌, if◌then◌else◌, ◌==◌, ltb, u16,
}
use cmu_mixnet.ErrorCode.{
  ErrorCode, malformed_message, bad_message_code, bad_fragment_id, fragment_exception,
}
use cmu_mixnet.Message.{
  MessageType, type_number, Buffer, validate, is_request, get_type, get_fragment_id, get_error_code,
  set_fragment_id, set_error_code, set_code, finalize,
}

unfoldable pub prepare_header : ℕ → MessageType → Option ErrorCode → Buffer → Buffer
unfolding set_fragment_id set_error_code set_code
prepare_header fid type e b = set_fragment_id fid (set_code false type (set_error_code e b))

abbrev pub is_type : Option MessageType → MessageType → Bool
is_type none type = false
is_type (some t) type = type_number t == type_number type

-- An error that the other side reports becomes an exception.
abbrev pub reported : Option (Option ErrorCode) → Option (Option ErrorCode)
reported none = none
reported (some none) = some none
reported (some (some e)) = some (some fragment_exception)

unfoldable pub check_header :
    (addr_size fid : ℕ) (check_id check_type : Bool)
    → MessageType
    → Buffer
    → Option (Option ErrorCode)
unfolding validate is_request get_type get_fragment_id get_error_code
check_header addr_size fid check_id check_type type b = elim (validate addr_size b) [
  | none ↦ none
  | some valid ↦
      if not valid
      then some (some malformed_message)
      else if not (is_request b)
      then some (some bad_message_code)
      else if check_id && not (get_fragment_id b == fid)
      then some (some bad_fragment_id)
      else if check_type && not (is_type (get_type b) type)
      then some (some bad_message_code)
      else reported (get_error_code b)
]

-- What _recv_blocking answers: a message in the buffer, or an error.
pub data Input : Type 0 where
  message : Buffer → Input
  broken : ErrorCode → Input

-- A plane of the fragment: its message buffer, what is still to be received on it, what the next
-- calls of _send_blocking answer (NONE when nothing is told), and the messages that were sent.
pub record Plane : Type 0 where
  pub buffer : Buffer
  pub inbox : List Input
  pub answers : List (Option ErrorCode)
  pub outbox : List Buffer

-- A call fails an assertion, or returns an error code.
pub data Call : Type 0 where
  failed_assertion : Call
  called : Option ErrorCode → Plane → Call

-- At the end of the inbox the peer has closed the connection.
pub recv_blocking : ErrorCode → Plane → Option ErrorCode × Plane
recv_blocking connection_error p = elim p.inbox [
  | [] ↦ (some connection_error, p)
  | broken e ∷ rest ↦ (some e, record p { inbox = rest })
  | message b ∷ rest ↦ (none, record p { buffer = b; inbox = rest })
]

pub send_blocking : Plane → Option ErrorCode × Plane
send_blocking p = elim p.answers [
  | [] ↦ (none, record p { outbox = p.outbox ++ p.buffer ∷ [] })
  | none ∷ rest ↦ (none, record p { answers = rest; outbox = p.outbox ++ p.buffer ∷ [] })
  | some e ∷ rest ↦ (some e, record p { answers = rest })
]

abbrev pub sent_call : Option ErrorCode × Plane → Call
sent_call (e, p) = called e p

-- The lambda of a message without a payload.
abbrev pub no_payload : Buffer → Option ErrorCode × Buffer
no_payload b = (none, b)

-- The sending of the message that finalize() leaves.
pub hand_over : Plane → Option Buffer → Call
unfolding send_blocking
hand_over p none = failed_assertion
hand_over p (some b) = sent_call (send_blocking (record p { buffer = b }))

-- What follows the lambda.
pub send_filled : (addr_size : ℕ) → Plane → Option ErrorCode × Buffer → Call
unfolding finalize hand_over
send_filled addr_size p (some e, b) = called (some e) (record p { buffer = b })
send_filled addr_size p (none, b) = hand_over p (finalize addr_size b)

pub send_response :
    (addr_size fid : ℕ)
    → MessageType
    → Option ErrorCode
    → (Buffer → Option ErrorCode × Buffer)
    → Plane
    → Call
unfolding prepare_header send_filled
send_response addr_size fid type e fill p =
    send_filled addr_size p (fill (prepare_header fid type e p.buffer))

-- The check of a message that has been received.
pub checked :
    (addr_size fid : ℕ) (check_id check_type : Bool) → MessageType → Option ErrorCode × Plane → Call
unfolding check_header
checked addr_size fid check_id check_type type (some e, p) = called (some e) p
checked addr_size fid check_id check_type type (none, p) =
    elim (check_header addr_size fid check_id check_type type p.buffer) [
      | none ↦ failed_assertion
      | some e ↦ called e p
    ]

-- A lambda that reads the message comes after it, at the caller's.
pub recv_request :
    (addr_size fid : ℕ) (check_id check_type : Bool) → MessageType → ErrorCode → Plane → Call
unfolding recv_blocking checked
recv_request addr_size fid check_id check_type type connection_error p =
    checked addr_size fid check_id check_type type (recv_blocking connection_error p)
