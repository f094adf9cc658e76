-- ===== src/Networking/Accepting.antt =====
-- The server's side of a connection (server_accept and equal_netaddrs of framework/networking.cpp).
-- What accept(), fcntl() and the clock answer is an argument.
use cmu_mixnet.Prelude.{
  ℕ, ◌≤◌, ◌<◌, Bool, true, false, not, ◌&&◌, inl, inr, List, [], ◌∷◌, ◌++◌, if◌then◌else◌, ◌==◌,
  ltb, leb, length, length-append, arith, Bool-cases,
}

-- The fields of a sockaddr_in.
pub record NetAddr : Type 0 where
  pub sin_family : ℕ
  pub sin_port : ℕ
  pub s_addr : ℕ

pub equal_netaddrs : NetAddr → NetAddr → Bool
equal_netaddrs a b =
    (a.sin_port == b.sin_port) && ((a.sin_family == b.sin_family) && (a.s_addr == b.s_addr))

-- What one call of accept() answers: a connection with its address, and whether it could be made
-- non-blocking; EAGAIN and the like; or an error.
pub data AcceptAnswer : Type 0 where
  joined : (fd : ℕ) → NetAddr → (nonblocking : Bool) → AcceptAnswer
  accept_again accept_failed : AcceptAnswer

-- One turn of the loop: the flag that the other thread may have cleared, the time since the start,
-- and the answer.
pub record Attempt : Type 0 where
  pub keep_running : Bool
  pub delta_ms : ℕ
  pub result : AcceptAnswer

-- The `rc` and the states that are in use; `num_accepted` is their number.
pub record Accepted : Type 0 where
  pub succeeds : Bool
  pub states : List (ℕ × NetAddr)

pub accept_step : AcceptAnswer → Accepted → Accepted
accept_step (joined fd address nonblocking) a = record {
  succeeds = nonblocking;
  states = a.states ++ (fd, address) ∷ [];
}
accept_step accept_again a = a
accept_step accept_failed a = record a { succeeds = false }

-- The loop, whose end `none` is not seen when the answers run out before it.
pub accept_loop :
    (max_clients : ℕ)
    → (use_timeout : Bool) → (timeout_ms : ℕ) → List Attempt
    → Accepted
    → Bool × Accepted
unfolding accept_step
accept_loop max_clients use_timeout timeout_ms [] a =
    (not (ltb (length a.states) max_clients && a.succeeds), a)
accept_loop max_clients use_timeout timeout_ms (t ∷ ts) a =
    let rest = accept_loop max_clients use_timeout timeout_ms ts (accept_step t.result a) in
    if not (ltb (length a.states) max_clients && (a.succeeds && t.keep_running))
    then (true, a)
    else if use_timeout && leb timeout_ms t.delta_ms
    then (true, a)
    else rest

unfoldable pub server_accept :
    (max_clients : ℕ) → (use_timeout : Bool) → (timeout_ms : ℕ) → List Attempt → Bool × Accepted
unfolding accept_loop
server_accept max_clients use_timeout timeout_ms ts =
    accept_loop max_clients use_timeout timeout_ms ts (record { succeeds = true; states = [] })

accept_step_le :
    (max_clients : ℕ) (answer : AcceptAnswer) (a : Accepted)
    → length a.states < max_clients
    → length (accept_step answer a).states ≤ max_clients
unfolding accept_step
accept_step_le max_clients (joined fd address nonblocking) a h =
    omega (arith, length-append a.states ((fd, address) ∷ []))
accept_step_le max_clients accept_again a h = omega arith
accept_step_le max_clients accept_failed a h = omega arith

accept_loop_le :
    (max_clients : ℕ) (use_timeout : Bool) (timeout_ms : ℕ) (ts : List Attempt) (a : Accepted)
    → length a.states ≤ max_clients
    → length (accept_loop max_clients use_timeout timeout_ms ts a).1.states ≤ max_clients
unfolding accept_loop accept_step
accept_loop_le max_clients use_timeout timeout_ms [] a h = h
accept_loop_le max_clients use_timeout timeout_ms (t ∷ ts) a h =
    let rest = accept_loop_le max_clients use_timeout timeout_ms ts (accept_step t.result a) in
    elim (Bool-cases (ltb (length a.states) max_clients && (a.succeeds && t.keep_running))) [
      | inr over ↦ rw (over, accept_loop) h
      | inl on ↦ elim (Bool-cases (use_timeout && leb timeout_ms t.delta_ms)) [
        | inl late ↦ rw (on, late, accept_loop) h
        | inr soon ↦
            rw (on, soon, accept_loop) (rest (accept_step_le max_clients t.result a (ground arith)))
      ]
    ]

-- However the calls of accept() end, server_accept never takes more connections than there are
-- elements in the array of states.
pub server_accept_le :
    (max_clients : ℕ) (use_timeout : Bool) (timeout_ms : ℕ) (ts : List Attempt)
    → length (server_accept max_clients use_timeout timeout_ms ts).1.states ≤ max_clients
unfolding server_accept
server_accept_le max_clients use_timeout timeout_ms ts =
    accept_loop_le max_clients use_timeout timeout_ms ts (record { succeeds = true; states = [] })
      (omega arith)
