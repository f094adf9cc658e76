-- ===== src/Orchestrator/Gathering.antt =====
-- What the loop over the fragments has heard when it returns NONE.
use Prim.{tt}
use mathlib.Core.Option.{some-injective}
use cmu_mixnet.Prelude.{
  ℕ, zero, suc, ◌+◌, ◌≤◌, ◌<◌, ◌≡◌, ◌⊎◌, refl, subst, ◌∙◌, inl, inr, true, false, Bool, ◌&&◌, ◌||◌,
  Option, none, some, List, [], ◌∷◌, arith, ◌==◌, leb, Option-cases, Bool-cases, length, get_or,
  get_or-set, length-set,
}
use cmu_mixnet.ErrorCode.{ErrorCode, recv_wait_timeout}
use cmu_mixnet.Message.{MessageType, Buffer}
use cmu_mixnet.Orchestrator.{check_header}
use cmu_mixnet.Orchestrator.Foreach.{
  Fd, Wait, Gathering, Gathered, assertion, waiting, gathered, is_polled, settle_fd, hear,
  hear_if_ready, hear_from, recv_rounds, or_timeout, gathered_in_time,
  foreach_fragment_recv_generic,
}
use cmu_mixnet.Orchestrator.Heard.{
  poll_cases, pair_of, no_timeout, no_error, occurrences, missing, missing_none, missing_all,
  missing_falls,
}

module _ (A : Type 0) (addr_size : ℕ) (check_fragment_ids : Bool) (type : MessageType)
    (process : ℕ → Buffer → A → Option ErrorCode × A) where
  -- The messages, the newest first, that pass the check and that the lambda takes without an error,
  -- with the state that it makes of them.
  pub data Processed (n : ℕ) (start : A) : List (ℕ × Buffer) → A → Type 0 where
    unprocessed : Processed n start [] start
    processed :
        {heard : List (ℕ × Buffer)} {state state' : A} (idx : ℕ) (b : Buffer)
        → Processed n start heard state
        → idx < n
        → check_header addr_size check_fragment_ids idx type b ≡ some none
        → process idx b state ≡ (none, state')
        → Processed n start ((idx, b) ∷ heard) state'

  -- What holds between any two turns of the loops.
  record IsGathering (n : ℕ) (start : A) (g : Gathering A) : Type 0 where
    sized : length g.pfds ≡ n
    pending : missing n g.heard ≡ g.num_pending
    counted : length g.heard + g.num_pending ≡ n
    once :
        (i : ℕ)
        → i < n
        → (occurrences i g.heard ≡ 0)
          ⊎ ((occurrences i g.heard ≡ 1) × (is_polled (get_or g.pfds i none) ≡ false))
    fine : g.error_code ≡ none → Processed n start g.heard g.state

  -- Any outcome for a descriptor that was polled.
  settle_fd-IsGathering :
      (n : ℕ) (start : A) (idx : ℕ) (b : Buffer) (o : Option ErrorCode × A) (g : Gathering A)
      → IsGathering n start g
      → idx < n
      → is_polled (get_or g.pfds idx none) ≡ true
      → (o.0 ≡ none
          → Processed n start g.heard g.state
          → Processed n start ((idx, b) ∷ g.heard) o.1)
      → IsGathering n start (settle_fd A addr_size check_fragment_ids type process idx b o g)
  settle_fd-IsGathering n start idx b (e, state) g h lt ready took =
      let fresh : occurrences idx g.heard ≡ 0 = elim (h.once idx lt) [
        | inl unheard ↦ unheard
        | inr (_, off) ↦ absurd (cc)
      ] in
      let falls = missing_falls n idx b g.heard lt fresh in
      let before = h.pending in
      record {
        sized = length-set g.pfds idx none ∙ h.sized;
        pending = omega arith;
        counted = omega (arith, h.counted);
        once = λ i i_lt.
            let at = get_or-set g.pfds idx i none none in
            elim (Bool-cases (idx == i)) [
              | inl same ↦ inr (ground (arith, fresh), ground (arith, at, h.sized))
              | inr other ↦ elim (h.once i i_lt) [
                | inl unheard ↦ inl (ground arith)
                | inr (one, off) ↦ inr (ground arith, ground (arith, at))
              ]
            ];
        fine = λ p. let (no_old, no_new) = no_error g.error_code e p in took no_new (h.fine no_old);
      }

  hear-IsGathering :
      (n : ℕ) (start : A) (idx : ℕ) (got : Option ErrorCode × Buffer) (g g' : Gathering A)
      → IsGathering n start g
      → idx < n
      → is_polled (get_or g.pfds idx none) ≡ true
      → hear A addr_size check_fragment_ids type process idx got g ≡ some g'
      → IsGathering n start g'
  unfolding hear
  hear-IsGathering n start idx (some e, b) g g' h lt ready heard =
      subst (IsGathering n start) (some-injective _ _ heard)
        (settle_fd-IsGathering n start idx b (some e, g.state) g h lt ready (λ p. absurd (cc)))
  hear-IsGathering n start idx (none, b) g g' h lt ready heard =
      elim (Option-cases (check_header addr_size check_fragment_ids idx type b)) [
        | inl failing ↦ let never = rw (failing, hear) at heard in absurd (cc)
        | inr (some e, refused) ↦
            let heard' = rw (refused, hear) at heard in
            subst (IsGathering n start) (some-injective _ _ heard') (
              settle_fd-IsGathering n start idx b (some e, g.state) g h lt ready (λ p. absurd (cc)))
        | inr (none, accepted) ↦
            let heard' = rw (accepted, hear) at heard in
            let o = process idx b g.state in
            subst (IsGathering n start) (some-injective _ _ heard') (
              settle_fd-IsGathering n start idx b o g h lt ready
                (λ took so_far. processed idx b so_far lt accepted (pair_of o took)))
      ]

  hear_if_ready-IsGathering :
      (n : ℕ) (start : A) (is_pollin : ℕ → Bool) (w : Wait) (idx : ℕ) (g g' : Gathering A)
      → IsGathering n start g
      → idx < n
      → hear_if_ready A addr_size check_fragment_ids type process is_pollin w idx g ≡ some g'
      → IsGathering n start g'
  unfolding hear_if_ready
  hear_if_ready-IsGathering n start is_pollin w idx g g' h lt heard =
      elim (Bool-cases (is_pollin idx && is_polled (get_or g.pfds idx none))) [
        | inl ready ↦
            let heard' = rw (ready, hear_if_ready) at heard in
            hear-IsGathering n start idx (w.received idx) g g' h lt (ground arith) heard'
        | inr quiet ↦
            let heard' = rw (quiet, hear_if_ready) at heard in
            subst (IsGathering n start) (some-injective _ _ heard') h
      ]

  hear_from-IsGathering :
      (n : ℕ) (start : A) (is_pollin : ℕ → Bool) (w : Wait) (k idx : ℕ) (g g' : Gathering A)
      → IsGathering n start g
      → idx + k ≤ n
      → hear_from A addr_size check_fragment_ids type process is_pollin w k idx g ≡ some g'
      → IsGathering n start g'
  unfolding hear_from
  hear_from-IsGathering n start is_pollin w zero idx g g' h le heard =
      subst (IsGathering n start) (some-injective _ _ heard) h
  hear_from-IsGathering n start is_pollin w (suc k) idx g g' h le heard =
      elim (Option-cases
        (hear_if_ready A addr_size check_fragment_ids type process is_pollin w idx g)) [
          | inl failing ↦ let never = rw (failing, hear_from) at heard in absurd (cc)
          | inr (g1, first) ↦
              let heard' = rw (first, hear_from) at heard in
              hear_from-IsGathering n start is_pollin w k (idx + 1) g1 g'
                (hear_if_ready-IsGathering n start is_pollin w idx g g1 h (omega arith) first)
                (omega arith) heard'
        ]

  -- What an outcome of the loop tells.
  abbrev Told : ℕ → A → Gathered A → Type 0
  Told n start assertion = Unit
  Told n start waiting = Unit
  Told n start (gathered e g) = (e ≡ g.error_code) × IsGathering n start g

  recv_rounds-Told :
      (n : ℕ) (start : A) (ws : List Wait) (timer : ℕ) (g : Gathering A)
      → IsGathering n start g
      → Told n start (recv_rounds A addr_size check_fragment_ids type process n ws timer g)
  unfolding recv_rounds
  recv_rounds-Told n start [] timer g h = elim (Bool-cases ((g.num_pending == 0) || (timer == 0))) [
    | inl over ↦ rw (over, recv_rounds) (refl, h)
    | inr on ↦ rw (on, recv_rounds) tt
  ]
  recv_rounds-Told n start (w ∷ ws) timer g h =
      elim (Bool-cases ((g.num_pending == 0) || (timer == 0))) [
        | inl over ↦ rw (over, recv_rounds) (refl, h)
        | inr on ↦ elim (poll_cases w.polling) [
          | inl late ↦ rw (on, late, recv_rounds) (refl, h)
          | inr (inl broken) ↦
              rw (on, broken, recv_rounds) (recv_rounds-Told n start ws w.timer g h)
          | inr (inr (rc, is_pollin, ready)) ↦ elim (Bool-cases (leb rc g.num_pending)) [
            | inr many ↦ rw (on, ready, many, recv_rounds) tt
            | inl few ↦
                elim (Option-cases
                  (hear_from A addr_size check_fragment_ids type process is_pollin w n 0 g)) [
                    | inl failing ↦ rw (on, ready, few, failing, recv_rounds) tt
                    | inr (g', heard) ↦
                        rw (on, ready, few, heard, recv_rounds)
                          (recv_rounds-Told n start ws w.timer g' (
                            hear_from-IsGathering n start is_pollin w n 0 g g' h (omega arith)
                              heard))
                  ]
          ]
        ]
      ]

  start-IsGathering :
      (fds : List Fd) (b : Buffer) (start : A)
      → IsGathering (length fds) start (record {
        pfds = fds;
        num_pending = length fds;
        error_code = none;
        buffer = b;
        state = start;
        heard = [];
      })
  start-IsGathering fds b start = record {
    sized = refl;
    pending = missing_all (length fds);
    counted = omega arith;
    once = λ i lt. inl refl;
    fine = λ p. unprocessed;
  }

  in_time-Told :
      (n : ℕ) (start : A) (o : Gathered A) (g : Gathering A)
      → Told n start o
      → gathered_in_time A addr_size check_fragment_ids type process o ≡ gathered none g
      → (g.error_code ≡ none) × (g.num_pending ≡ 0) × IsGathering n start g
  in_time-Told n start assertion g t h = absurd (cc)
  in_time-Told n start waiting g t h = absurd (cc)
  in_time-Told n start (gathered e g') g t h =
      let same : g' ≡ g = cc in
      let over : or_timeout recv_wait_timeout g'.error_code g'.num_pending ≡ none = cc in
      let (clean, all) = no_timeout g'.error_code g'.num_pending over in
      subst
        (λ (x : Gathering A). (x.error_code ≡ none) × (x.num_pending ≡ 0) × IsGathering n start x)
        same (clean, all, t.1)

  -- When the loop over the fragments returns NONE, it has heard exactly one message from each of
  -- them, every message has passed check_header for its fragment, and the lambda has taken every
  -- message, in the order of arrival, without an error.
  pub foreach_fragment_recv_generic_lem :
      (fds : List Fd) (timer : ℕ) (waits : List Wait) (b : Buffer) (start : A) (g : Gathering A)
      → foreach_fragment_recv_generic A addr_size check_fragment_ids type process fds timer waits b
          start
        ≡ gathered none g
      → ((i : ℕ) → i < length fds → occurrences i g.heard ≡ 1)
        × (length g.heard ≡ length fds)
        × Processed (length fds) start g.heard g.state
  unfolding foreach_fragment_recv_generic
  foreach_fragment_recv_generic_lem fds timer waits b start g h =
      let n = length fds in
      let told = recv_rounds-Told n start waits timer _ (start-IsGathering fds b start) in
      let (clean, over, is) = in_time-Told n start _ g told h in
      let none_left : missing n g.heard ≡ 0 = is.pending ∙ over in
      (
        λ i lt. elim (is.once i lt) [
          | inl unheard ↦ absurd (missing_none n i g.heard none_left lt unheard)
          | inr (one, off) ↦ one
        ],
        omega (arith, is.counted),
        is.fine clean,
      )
