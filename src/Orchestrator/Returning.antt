-- ===== src/Orchestrator/Returning.antt =====
-- The loop over the fragments returns.
use cmu_mixnet.Prelude.{
  ℕ, ◌≡◌, ◌≢◌, refl, inl, inr, true, Bool, ◌||◌, Option, List, [], ◌∷◌, ◌++◌, arith, ◌==◌, leb,
  Option-cases, Bool-cases, length,
}
use cmu_mixnet.ErrorCode.{ErrorCode}
use cmu_mixnet.Message.{MessageType, Buffer}
use cmu_mixnet.Orchestrator.Foreach.{
  Fd, Wait, Gathering, Gathered, assertion, waiting, gathered, hear_from, recv_rounds,
  gathered_in_time, foreach_fragment_recv_generic,
}
use cmu_mixnet.Orchestrator.Heard.{poll_cases}

module _ (A : Type 0) (addr_size : ℕ) (check_fragment_ids : Bool) (type : MessageType)
    (process : ℕ → Buffer → A → Option ErrorCode × A) where
  still_waiting :
      (o : Gathered A)
      → gathered_in_time A addr_size check_fragment_ids type process o ≡ waiting
      → o ≡ waiting
  still_waiting assertion h = absurd (cc)
  still_waiting waiting h = refl
  still_waiting (gathered e g) h = absurd (cc)

  -- A turn ends the loop, or leaves it to the next turns.
  turn_ends :
      (n : ℕ) (w : Wait) (ws : List Wait) (timer : ℕ) (g : Gathering A)
      → ((g' : Gathering A)
          → recv_rounds A addr_size check_fragment_ids type process n ws w.timer g' ≢ waiting)
      → recv_rounds A addr_size check_fragment_ids type process n (w ∷ ws) timer g ≢ waiting
  unfolding recv_rounds
  turn_ends n w ws timer g later = elim (Bool-cases ((g.num_pending == 0) || (timer == 0))) [
    | inl over ↦ rw (over, recv_rounds) (λ p. absurd (cc))
    | inr on ↦ elim (poll_cases w.polling) [
      | inl late ↦ rw (on, late, recv_rounds) (λ p. absurd (cc))
      | inr (inl broken) ↦ rw (on, broken, recv_rounds) (later g)
      | inr (inr (rc, is_pollin, ready)) ↦ elim (Bool-cases (leb rc g.num_pending)) [
        | inr many ↦ rw (on, ready, many, recv_rounds) (λ p. absurd (cc))
        | inl few ↦
            elim (Option-cases
              (hear_from A addr_size check_fragment_ids type process is_pollin w n 0 g)) [
                | inl failing ↦ rw (on, ready, few, failing, recv_rounds) (λ p. absurd (cc))
                | inr (g', heard) ↦ rw (on, ready, few, heard, recv_rounds) (later g')
              ]
      ]
    ]
  ]

  recv_rounds_ends :
      (n : ℕ) (ws : List Wait) (w : Wait) (timer : ℕ) (g : Gathering A)
      → w.timer ≡ 0
      → recv_rounds A addr_size check_fragment_ids type process n (ws ++ w ∷ []) timer g ≢ waiting
  unfolding recv_rounds
  recv_rounds_ends n [] w timer g late = turn_ends n w [] timer g (λ g'.
      let over : (g'.num_pending == 0) || (w.timer == 0) ≡ true = ground arith in
      rw (over, recv_rounds) (λ p. absurd (cc)))
  recv_rounds_ends n (x ∷ ws) w timer g late =
      turn_ends n x (ws ++ w ∷ []) timer g (λ g'. recv_rounds_ends n ws w x.timer g' late)

  -- The loop over the fragments returns by the end of the first turn that ends after the deadline,
  -- whatever poll() and the sockets answer, unless an assertion fails.
  pub foreach_fragment_recv_generic_returns :
      (fds : List Fd) (timer : ℕ) (waits : List Wait) (last : Wait) (b : Buffer) (start : A)
      → last.timer ≡ 0
      → foreach_fragment_recv_generic A addr_size check_fragment_ids type process fds timer
          (waits ++ last ∷ [])
          b
          start
        ≢ waiting
  unfolding foreach_fragment_recv_generic
  foreach_fragment_recv_generic_returns fds timer waits last b start late h =
      recv_rounds_ends (length fds) waits last timer _ late (still_waiting _ h)
