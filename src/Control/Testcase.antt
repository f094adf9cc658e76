-- ===== src/Control/Testcase.antt =====
-- The loop that runs a testcase (run_state_run_testcase of framework/fragment.cpp).
pub mod Answers
pub mod Session
use cmu_mixnet.Prelude.{
  ℕ, Bool, true, false, not, ◌&&◌, ◌||◌, Option, none, some, List, [], ◌∷◌, if◌then◌else◌,
}
use cmu_mixnet.ErrorCode.{ErrorCode, fragment_exception, ctrl_connection_broken, recv_wait_timeout}
use cmu_mixnet.Message.{MessageType, noop, get_type}
use cmu_mixnet.Networking.{Outcome, returned, running}
use cmu_mixnet.Control.{
  Plane, Call, failed_assertion, called, recv_request, send_response, no_payload,
}
use cmu_mixnet.Control.Tasks.{Context, Turn, Served, serve}

-- The response of a turn, for the type that the request had.
pub answer : (addr_size fid : ℕ) → Option MessageType → Served → Plane → Call
unfolding send_response
answer addr_size fid type s p = elim type [
  | none ↦ failed_assertion
  | some t ↦
      if s.do_respond
      then send_response addr_size fid t s.error no_payload (record p { buffer = s.buffer })
      else called s.error (record p { buffer = s.buffer })
]

-- The error code at the end of a turn, after the check on the helper threads.
abbrev pub turn_error : Turn → Served → Option ErrorCode → Option ErrorCode
turn_error t s e = if not s.ends && t.one_exited then some fragment_exception else e

-- A turn ends the loop, with `none` for a failed assertion, or leads to the next one.
pub data Step : Type 0 where
  stop : Option (Option ErrorCode) → Plane → Context → Step
  next : Plane → Context → Step

-- The check on the helper threads and the loop's condition.
pub after_answer : Turn → Served → Call → Plane → Step
after_answer t s failed_assertion p = stop none p s.context
after_answer t s (called e p') p = elim (turn_error t s e) [
  | some x ↦ stop (some (some x)) p' s.context
  | none ↦ if s.ends then stop (some none) p' s.context else next p' s.context
]

pub after_switch : (addr_size fid : ℕ) → Turn → Plane → Context → Option Served → Step
unfolding answer after_answer
after_switch addr_size fid t p c none = stop none p c
after_switch addr_size fid t p c (some s) =
    after_answer t s (answer addr_size fid (get_type p.buffer) s p) p

pub after_request : (addr_size fid : ℕ) → Turn → Context → Plane → Call → Step
unfolding serve after_switch
after_request addr_size fid t c p failed_assertion = stop none p c
after_request addr_size fid t c p (called (some recv_wait_timeout) p') = stop none p' c
after_request addr_size fid t c p (called (some e) p') = stop (some (some e)) p' c
after_request addr_size fid t c p (called none p') =
    after_switch addr_size fid t p' c (serve t (get_type p'.buffer) p'.buffer c)

pub turn_step : (addr_size fid : ℕ) → Turn → Plane → Context → Step
unfolding recv_request after_request
turn_step addr_size fid t p c =
    after_request addr_size fid t c p
      (recv_request addr_size fid true false noop ctrl_connection_broken p)

-- What becomes of the loop after a turn, given its continuation.
pub after_turn :
    (Plane → Context → Option Outcome × Plane × Context) → Step → Option Outcome × Plane × Context
after_turn loop (stop none p c) = (none, p, c)
after_turn loop (stop (some e) p c) = (some (returned e), p, c)
after_turn loop (next p c) = loop p c

-- The `while` loop, still running when the turns end.
unfoldable pub run_testcase :
    (addr_size fid : ℕ) → List Turn → Plane → Context → Option Outcome × Plane × Context
unfolding turn_step after_turn
run_testcase addr_size fid [] p c = (some running, p, c)
run_testcase addr_size fid (t ∷ ts) p c =
    after_turn (run_testcase addr_size fid ts) (turn_step addr_size fid t p c)
