-- ===== src/Networking/Turns.antt =====
-- How long recv_generic runs in try-once mode.
use cmu_mixnet.Prelude.{
  ℕ, suc, ◌≤◌, ◌<◌, ◌≢◌, inl, inr, Bool, false, Option, List, [], ◌∷◌, arith, ◌==◌, Option-cases,
  if◌then◌else◌, length,
}
use cmu_mixnet.Networking.Receiving.{RecvStep-cases}
use cmu_mixnet.ErrorCode.{ErrorCode}
use cmu_mixnet.Networking.{
  rx_try_once, NetConfig, validate, Answer, received, again, failed, running, RecvState, RecvStep,
  finish, go_on, decode_step, whole_step, recv_step, recv_start, recv_loop, recv_generic,
}

-- The turns that a try-once call can still make after this one.
abbrev turns_left : RecvState → ℕ
turns_left s = if s.msg_length == 0 then 2 else if s.recv_started then 0 else 1

-- The turns that a try-once call can still make after this step.
abbrev after_step : RecvStep → ℕ
after_step (finish e m) = 0
after_step (go_on s) = suc (turns_left s)

step_nearer :
    (connection_error : ErrorCode) (min_len max_len : ℕ) (answer : Answer) (s : RecvState)
    → 2 ≤ min_len
    → after_step (recv_step rx_try_once connection_error min_len max_len answer s) ≤ turns_left s
unfolding recv_step decode_step whole_step
step_nearer connection_error min_len max_len failed s two = omega arith
step_nearer connection_error min_len max_len again s two = omega arith
step_nearer connection_error min_len max_len (received bytes) s two = ground arith

-- A try-once call is over after three turns of its loop.
module _ (timeout : ℕ) (connection_error : ErrorCode) (min_len max_len : ℕ) (Socket : Type 0)
    (recv : Socket → ℕ → Bool → Answer × Socket) (two : 2 ≤ min_len) where
  abbrev try_once : NetConfig
  try_once = record { mode = rx_try_once; timeout = timeout }

  recv_loop_returns :
      (times : List ℕ) (s : RecvState) (delta : ℕ) (socket : Socket)
      → turns_left s < length times
      → (recv_loop Socket recv try_once connection_error min_len max_len times s delta socket).0
        ≢ running
  unfolding recv_loop
  recv_loop_returns [] s delta socket enough = absurd (omega arith)
  recv_loop_returns (time ∷ times) s delta socket enough =
      let (answer, socket') = recv socket s.expected_size s.peek in
      let nearer = step_nearer connection_error min_len max_len answer s two in
      elim (RecvStep-cases (recv_step rx_try_once connection_error min_len max_len answer s)) [
        | inl (e, m, ends) ↦ rw ends (λ h. cc)
        | inr (s', goes) ↦
            rw goes
              (recv_loop_returns times s' delta socket' (omega (arith, rw goes at nearer, enough)))
      ]

-- In try-once mode recv_generic returns within three turns of its loop, whatever the socket
-- answers.
pub recv_generic_returns :
    (timeout : ℕ) (connection_error : ErrorCode) (min_len max_len : ℕ) (Socket : Type 0)
    (recv : Socket → ℕ → Bool → Answer × Socket)
    → 2 ≤ min_len
    → (nonblocking : Option Bool) (times : List ℕ) (socket : Socket) → 3 ≤ length times
    → (recv_generic Socket recv nonblocking
        (record { mode = rx_try_once; timeout = timeout })
        connection_error
        min_len
        max_len
        times
        socket).0
      ≢ running
unfolding recv_generic
recv_generic_returns timeout connection_error min_len max_len Socket recv two nonblocking times
      socket enough =
    let c : NetConfig = record { mode = rx_try_once; timeout = timeout } in
    elim (Option-cases (validate nonblocking c false)) [
      | inr (e, bad) ↦ rw (bad, recv_generic) (λ h. cc)
      | inl good ↦
          rw (good, recv_generic)
            (recv_loop_returns timeout connection_error min_len max_len Socket recv two times
              recv_start 0 socket (omega arith))
    ]
