-- ===== src/Orchestrator/Run.antt =====
-- The orchestrator's state machine (orchestrator::run of framework/orchestrator.cpp).
use cmu_mixnet.Prelude.{
  ℕ, zero, suc, ◌≤◌, ◌<◌, ◌≡◌, refl, ap, Bool, true, false, Option, none, some, List, [], ◌∷◌,
  arith, if◌then◌else◌, ◌⊎◌, inl, inr,
}
use cmu_mixnet.ErrorCode.{ErrorCode}

pub data State : Type 0 where
  init setup_ctrl_plane setup_pcap_plane create_mixnet_topology : State
  start_all_mixnet_servers start_all_mixnet_clients resolve_mixnet_connections : State
  start_testcase run_testcase end_testcase graceful_shutdown forceful_shutdown reset : State

abbrev pub on_success : Option ErrorCode → State → State → State
on_success none good bad = good
on_success (some e) good bad = bad

unfoldable pub next_state : State → Option ErrorCode → State
next_state init e = on_success e setup_ctrl_plane forceful_shutdown
next_state setup_ctrl_plane e = on_success e setup_pcap_plane forceful_shutdown
next_state setup_pcap_plane e = on_success e create_mixnet_topology graceful_shutdown
next_state create_mixnet_topology e = on_success e start_all_mixnet_servers graceful_shutdown
next_state start_all_mixnet_servers e = on_success e start_all_mixnet_clients graceful_shutdown
next_state start_all_mixnet_clients e = on_success e resolve_mixnet_connections graceful_shutdown
next_state resolve_mixnet_connections e = on_success e start_testcase graceful_shutdown
next_state start_testcase e = on_success e run_testcase end_testcase
next_state run_testcase e = end_testcase
next_state end_testcase e = graceful_shutdown
next_state graceful_shutdown e = on_success e reset forceful_shutdown
next_state forceful_shutdown e = reset
next_state reset e = reset

-- The two last states set the error code themselves.
pub state_error : (State → Option ErrorCode) → State → Option ErrorCode
state_error results forceful_shutdown = none
state_error results reset = none
state_error results s = results s

-- The first error is kept.
abbrev pub first_error : Option ErrorCode → Option ErrorCode → Option ErrorCode
first_error none e = e
first_error (some x) e = some x

-- What a run leaves: the states that it has visited and the exit code.
pub data Finish : Type 0 where
  finished : List State → Option ErrorCode → Finish
  still : Finish

abbrev pub is_reset : State → Bool
is_reset reset = true
is_reset s = false

abbrev pub visit : State → Finish → Finish
visit s (finished visited e) = finished (s ∷ visited) e
visit s still = still

-- The `while` loop for at most `n` turns. `results` tells what each run_state method, and the
-- test's own run(), would return.
unfoldable pub run_from : ℕ → (State → Option ErrorCode) → State → Option ErrorCode → Finish
unfolding next_state state_error
run_from zero results s exit_code = still
run_from (suc n) results s exit_code =
    let e = state_error results s in
    let code = first_error exit_code e in
    let rest = run_from n results (next_state s e) code in
    visit s (if is_reset s then finished [] code else rest)

-- From the initial state; thirteen turns are enough.
unfoldable pub run : (State → Option ErrorCode) → Finish
unfolding run_from
run results = run_from 13 results init none

-- The first error of the states in a list.
abbrev pub first_of : (State → Option ErrorCode) → List State → Option ErrorCode
first_of results [] = none
first_of results (s ∷ ss) = first_error (state_error results s) (first_of results ss)

-- A way through the machine: each state follows from the one before and its error code, and the
-- last one is RESET.
pub data PathFrom (results : State → Option ErrorCode) : State → List State → Type 0 where
  at_reset : PathFrom results reset (reset ∷ [])
  step :
      {s : State} {ss : List State}
      → is_reset s ≡ false
      → PathFrom results (next_state s (state_error results s)) ss
      → PathFrom results s (s ∷ ss)

-- The turns that are left, at most.
abbrev rank : State → ℕ
rank init = 13
rank setup_ctrl_plane = 12
rank setup_pcap_plane = 11
rank create_mixnet_topology = 10
rank start_all_mixnet_servers = 9
rank start_all_mixnet_clients = 8
rank resolve_mixnet_connections = 7
rank start_testcase = 6
rank run_testcase = 5
rank end_testcase = 4
rank graceful_shutdown = 3
rank forceful_shutdown = 2
rank reset = 1

rank_falls :
    (s : State) (e : Option ErrorCode) → is_reset s ≡ false → rank (next_state s e) < rank s
unfolding next_state
rank_falls init none h = omega arith
rank_falls init (some e) h = omega arith
rank_falls setup_ctrl_plane none h = omega arith
rank_falls setup_ctrl_plane (some e) h = omega arith
rank_falls reset none h = cc
rank_falls reset (some e) h = cc
rank_falls _ none h = omega arith
rank_falls _ (some e) h = omega arith

first_error_assoc :
    (a b c : Option ErrorCode) → first_error (first_error a b) c ≡ first_error a (first_error b c)
first_error_assoc none b c = refl
first_error_assoc (some x) b c = refl

reset_cases : (s : State) → (s ≡ reset) ⊎ (is_reset s ≡ false)
reset_cases init = inr refl
reset_cases setup_ctrl_plane = inr refl
reset_cases reset = inl refl
reset_cases _ = inr refl

at_once :
    (n : ℕ) (results : State → Option ErrorCode) (code : Option ErrorCode)
    → run_from (suc n) results reset code
      ≡ finished (reset ∷ []) (first_error code (first_of results (reset ∷ [])))
unfolding run_from
at_once n results code = refl

run_from_lem :
    (n : ℕ) (results : State → Option ErrorCode) (s : State) (code : Option ErrorCode)
    → rank s ≤ n
    → (ss : List State) × (run_from n results s code
        ≡ finished ss (first_error code (first_of results ss)))
      × PathFrom results s ss
unfolding run_from
run_from_lem zero results init code le = absurd (omega arith)
run_from_lem zero results reset code le = absurd (omega arith)
run_from_lem zero results _ code le = absurd (omega arith)
run_from_lem (suc n) results s code le = elim (reset_cases s) [
  | inl e ↦ rw e (reset ∷ [], at_once n results code, at_reset)
  | inr more ↦
      let e = state_error results s in
      let falls = rank_falls s e more in
      let (ss, ran, path) =
        run_from_lem n results (next_state s e) (first_error code e) (omega arith) in
      (
        s ∷ ss,
        rw more (
            rw ran (
              ap (λ (x : Option ErrorCode). finished (s ∷ ss) x)
                (first_error_assoc code e (first_of results ss)))),
        step more path,
      )
]

-- Whatever the states' methods return, a run of the orchestrator ends within thirteen turns of its
-- loop; the states that it visits follow one another from INIT by the transitions for their error
-- codes and end in RESET, and the exit code is the first error among them, NONE if there is none.
pub run_lem :
    (results : State → Option ErrorCode)
    → (visited : List State) × (run results ≡ finished visited (first_of results visited))
      × PathFrom results init visited
unfolding run
run_lem results = run_from_lem 13 results init none (omega arith)
