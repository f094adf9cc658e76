-- ===== src/Orchestrator/Foreach.antt =====
-- The loops over all fragments (foreach_fragment_send_generic and foreach_fragment_recv_generic of
-- framework/orchestrator.cpp). A descriptor that is -1 is `none`; a time that is left is 0 once the
-- deadline has passed.
use cmu_mixnet.Prelude.{
  ℕ, zero, suc, ◌+◌, ◌-◌, Bool, true, false, ◌&&◌, ◌||◌, Option, none, some, List, [], ◌∷◌,
  if◌then◌else◌, ◌==◌, ltb, leb, length, get_or, set, u16,
}
use cmu_mixnet.ErrorCode.{ErrorCode, send_reqs_timeout, recv_wait_timeout}
use cmu_mixnet.Message.{MessageType, Buffer, set_fragment_id, finalize}
use cmu_mixnet.Orchestrator.{prepare_header, check_header}
use cmu_mixnet.Orchestrator.Run.{first_error}

abbrev pub Fd : Type 0
Fd = Option ℕ

-- What send_with_timeout answers, and the time that is left after it.
pub record Sending : Type 0 where
  pub result : Option ErrorCode
  pub timer : ℕ

-- The error code, the descriptors that were not reached, the buffer, and the messages that were
-- sent; or a failed assertion.
pub data Sent : Type 0 where
  failed_assertion : Sent
  sent : Option ErrorCode → ℕ → Buffer → List (Fd × Buffer) → Sent

abbrev pub also_sent : Fd × Buffer → Sent → Sent
also_sent x failed_assertion = failed_assertion
also_sent x (sent e pending b xs) = sent e pending b (x ∷ xs)

-- The message for fragment `idx`; the lambda `fill` fails where it fails an assertion.
unfoldable pub request_for :
    (addr_size : ℕ) → (ℕ → Buffer → Option Buffer) → ℕ → Buffer → Option Buffer
unfolding set_fragment_id finalize
request_for addr_size fill idx b = elim (fill idx (set_fragment_id idx b)) [
  | none ↦ none
  | some filled ↦ finalize addr_size filled
]

-- The `for` loop over the descriptors, the first of them that of fragment `idx`. The count of those
-- that are left has 16 bits.
unfoldable pub send_each :
    (addr_size : ℕ)
    → (ℕ → Buffer → Option Buffer)
    → (ℕ → Sending)
    → (idx : ℕ) → List Fd
    → (timer : ℕ) → Option ErrorCode
    → Buffer
    → Sent
unfolding request_for
send_each addr_size fill sending idx [] timer e b = sent e 0 b []
send_each addr_size fill sending idx (fd ∷ fds) zero e b = sent e (u16 (length (fd ∷ fds))) b []
send_each addr_size fill sending idx (fd ∷ fds) (suc t) e b =
    elim (request_for addr_size fill idx b) [
      | none ↦ failed_assertion
      | some message ↦
          also_sent (fd, message)
            (send_each addr_size fill sending (idx + 1) fds (sending idx).timer
              (first_error e (sending idx).result) message)
    ]

-- An error that no fragment caused: the time was too short for all of them.
abbrev pub or_timeout : ErrorCode → Option ErrorCode → ℕ → Option ErrorCode
or_timeout timeout none pending = if pending == 0 then none else some timeout
or_timeout timeout (some e) pending = some e

abbrev pub sent_in_time : Sent → Sent
sent_in_time failed_assertion = failed_assertion
sent_in_time (sent e pending b xs) = sent (or_timeout send_reqs_timeout e pending) pending b xs

unfoldable pub foreach_fragment_send_generic :
    (addr_size : ℕ)
    → List Fd
    → MessageType
    → (ℕ → Buffer → Option Buffer)
    → (timer : ℕ) → (ℕ → Sending)
    → Buffer
    → Sent
unfolding prepare_header send_each
foreach_fragment_send_generic addr_size fds type fill timer sending b =
    sent_in_time (send_each addr_size fill sending 0 fds timer none (prepare_header 0 type b))

-- What poll() answers: no descriptor in time, an error, or how many have something and whether that
-- of a fragment is POLLIN.
pub data Poll : Type 0 where
  timed_out poll_failed : Poll
  polled : ℕ → (ℕ → Bool) → Poll

-- One turn of the `while` loop: what poll() and recv_with_timeout answer, and the time left after it.
pub record Wait : Type 0 where
  pub polling : Poll
  pub received : ℕ → Option ErrorCode × Buffer
  pub timer : ℕ

-- The variables of the loop, with the state that the lambda changes. `heard` are the messages that
-- were received, by the index of their descriptor, the newest first.
pub record Gathering (A : Type 0) : Type 0 where
  pub pfds : List Fd
  pub num_pending : ℕ
  pub error_code : Option ErrorCode
  pub buffer : Buffer
  pub state : A
  pub heard : List (ℕ × Buffer)

-- The loop fails an assertion, is still waiting when the turns end, or returns an error code.
pub data Gathered (A : Type 0) : Type 0 where
  assertion : Gathered A
  waiting : Gathered A
  gathered : Option ErrorCode → Gathering A → Gathered A

-- pfds[idx].fd > 0
abbrev pub is_polled : Fd → Bool
is_polled none = false
is_polled (some fd) = ltb 0 fd

module _ (A : Type 0) (addr_size : ℕ) (check_fragment_ids : Bool) (type : MessageType)
    (process : ℕ → Buffer → A → Option ErrorCode × A) where
  -- Whatever came of it, the descriptor is not polled any more.
  abbrev pub settle_fd : ℕ → Buffer → Option ErrorCode × A → Gathering A → Gathering A
  settle_fd idx b (e, state) g = record {
    pfds = set g.pfds idx none;
    num_pending = g.num_pending - 1;
    error_code = first_error g.error_code e;
    buffer = b;
    state = state;
    heard = (idx, b) ∷ g.heard;
  }

  -- Receiving, checking and processing the message of a descriptor.
  unfoldable pub hear : ℕ → Option ErrorCode × Buffer → Gathering A → Option (Gathering A)
  unfolding check_header
  hear idx (some e, b) g = some (settle_fd idx b (some e, g.state) g)
  hear idx (none, b) g = elim (check_header addr_size check_fragment_ids idx type b) [
    | none ↦ none
    | some (some e) ↦ some (settle_fd idx b (some e, g.state) g)
    | some none ↦ some (settle_fd idx b (process idx b g.state) g)
  ]

  unfoldable pub hear_if_ready : (ℕ → Bool) → Wait → ℕ → Gathering A → Option (Gathering A)
  unfolding hear
  hear_if_ready is_pollin w idx g =
      if is_pollin idx && is_polled (get_or g.pfds idx none)
      then hear idx (w.received idx) g
      else some g

  -- The `for` loop over the `n` descriptors from `idx` on.
  unfoldable pub hear_from : (ℕ → Bool) → Wait → ℕ → ℕ → Gathering A → Option (Gathering A)
  unfolding hear_if_ready
  hear_from is_pollin w zero idx g = some g
  hear_from is_pollin w (suc n) idx g = elim (hear_if_ready is_pollin w idx g) [
    | none ↦ none
    | some g' ↦ hear_from is_pollin w n (idx + 1) g'
  ]

  -- The `while` loop.
  unfoldable pub recv_rounds : (num_fds : ℕ) → List Wait → (timer : ℕ) → Gathering A → Gathered A
  unfolding hear_from
  recv_rounds num_fds [] timer g =
      if (g.num_pending == 0) || (timer == 0) then gathered g.error_code g else waiting
  recv_rounds num_fds (w ∷ ws) timer g = elim ((g.num_pending == 0) || (timer == 0)) [
    | true ↦ gathered g.error_code g
    | false ↦ elim w.polling [
      | timed_out ↦ gathered g.error_code g
      | poll_failed ↦ recv_rounds num_fds ws w.timer g
      | polled rc is_pollin ↦ elim (leb rc g.num_pending) [
        | false ↦ assertion
        | true ↦ elim (hear_from is_pollin w num_fds 0 g) [
          | none ↦ assertion
          | some g' ↦ recv_rounds num_fds ws w.timer g'
        ]
      ]
    ]
  ]

  abbrev pub gathered_in_time : Gathered A → Gathered A
  gathered_in_time assertion = assertion
  gathered_in_time waiting = waiting
  gathered_in_time (gathered e g) =
      gathered (or_timeout recv_wait_timeout g.error_code g.num_pending) g

  unfoldable pub foreach_fragment_recv_generic :
      List Fd → (timer : ℕ) → List Wait → Buffer → A → Gathered A
  unfolding recv_rounds
  foreach_fragment_recv_generic fds timer waits b state = gathered_in_time (
      recv_rounds (length fds) waits timer (record {
        pfds = fds;
        num_pending = length fds;
        error_code = none;
        buffer = b;
        state = state;
        heard = [];
      }))
