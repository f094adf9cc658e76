-- ===== src/Networking/Sending.antt =====
-- What send_generic hands to the socket.
use mathlib.Core.List.{append_assoc, append-nil}
use cmu_mixnet.Prelude.{
  ℕ, zero, suc, ◌+◌, ◌≤◌, ◌≡◌, refl, sym, ap, ◌∙◌, inl, inr, Bool, true, false, ◌&&◌, ◌||◌, Option,
  none, some, List, [], ◌∷◌, ◌++◌, arith, ◌==◌, ltb, leb, Bool-cases, Option-cases, if◌then◌else◌,
  length, take, drop, take-drop, length-drop,
}
use cmu_mixnet.ErrorCode.{ErrorCode, send_reqs_timeout}
use cmu_mixnet.Networking.{
  rx_tx_blocking, NetConfig, use_timeout, validate, SendAnswer, taken, send_again, send_failed,
  Outcome, returned, running, leading_length, send_loop, send_generic,
}

-- What has been taken and what is left make up the message, and nothing is left at the end.
abbrev Taken : List ℕ → Outcome × List ℕ → Type 0
Taken message (o, wire) =
    (rest : List ℕ) × (wire ++ rest ≡ message) × (o ≡ returned none → rest ≡ [])

length-zero : (xs : List ℕ) → length xs ≡ 0 → xs ≡ []
length-zero [] h = refl
length-zero (x ∷ xs) h = absurd (omega arith)

-- The two tests at the head of the loop.
Taken-unless :
    (c : NetConfig) (buffer : List ℕ) (delta : ℕ) (wire : List ℕ) (next : Outcome × List ℕ)
    → Taken (wire ++ buffer) next
    → Taken (wire ++ buffer) (
        if length buffer == 0
        then (returned none, wire)
        else if use_timeout c.mode && leb c.timeout delta
        then (returned (some send_reqs_timeout), wire)
        else next)
Taken-unless c buffer delta wire next h = elim (Bool-cases (length buffer == 0)) [
  | inl done ↦ rw done (buffer, refl, λ e. length-zero buffer (ground arith))
  | inr more ↦ elim (Bool-cases (use_timeout c.mode && leb c.timeout delta)) [
    | inl late ↦ rw (more, late) (buffer, refl, λ e. cc)
    | inr early ↦ rw (more, early) h
  ]
]

send_loop-Taken :
    (c : NetConfig) (e : ErrorCode) (answers : List (SendAnswer × ℕ)) (buffer : List ℕ) (delta : ℕ)
    (wire : List ℕ)
    → Taken (wire ++ buffer) (send_loop c e answers buffer delta wire)
unfolding send_loop
send_loop-Taken c e [] buffer delta wire =
    Taken-unless c buffer delta wire (running, wire) (buffer, refl, λ h. cc)
send_loop-Taken c e ((taken k, time) ∷ rest) buffer delta wire =
    let delta' = if use_timeout c.mode then time else delta in
    let (left, same, all) =
      send_loop-Taken c e rest (drop k buffer) delta' (wire ++ take k buffer) in
    let split =
      append_assoc wire (take k buffer) (drop k buffer)
      ∙ ap (λ (xs : List ℕ). wire ++ xs) (take-drop k buffer) in
    Taken-unless c buffer delta wire _ (left, same ∙ split, all)
send_loop-Taken c e ((send_again, time) ∷ rest) buffer delta wire =
    let delta' = if use_timeout c.mode then time else delta in
    Taken-unless c buffer delta wire _ (send_loop-Taken c e rest buffer delta' wire)
send_loop-Taken c e ((send_failed, time) ∷ rest) buffer delta wire =
    Taken-unless c buffer delta wire (returned (some e), wire) (buffer, refl, λ h. cc)

-- What the socket has taken is a prefix of the message that the leading length delimits, whatever
-- it answers and however the call ends; when the call returns NONE it is the whole message.
pub send_generic_lem :
    (nonblocking : Option Bool) (c : NetConfig) (e : ErrorCode) (min_len max_len : ℕ)
    (answers : List (SendAnswer × ℕ)) (buffer : List ℕ)
    → (let message = take (leading_length buffer) buffer in
        let (o, wire) = send_generic nonblocking c e min_len max_len answers buffer in
        ((rest : List ℕ) × (wire ++ rest ≡ message)) × (o ≡ returned none → wire ≡ message))
unfolding send_generic
send_generic_lem nonblocking c e min_len max_len answers buffer =
    let n = leading_length buffer in
    elim (Option-cases (validate nonblocking c true)) [
      | inr (code, bad) ↦ rw (bad, send_generic) ((take n buffer, refl), λ h. cc)
      | inl good ↦ elim (Bool-cases (ltb n min_len || ltb max_len n)) [
        | inl outside ↦ rw (good, outside, send_generic) ((take n buffer, refl), λ h. cc)
        | inr inside ↦
            let (rest, same, all) = send_loop-Taken c e answers (take n buffer) 0 [] in
            rw (good, inside, send_generic)
              (
                (rest, same),
                λ h.
                    sym (append-nil _)
                    ∙ ap (λ (xs : List ℕ). (send_loop c e answers (take n buffer) 0 []).1 ++ xs)
                        (sym (all h))
                    ∙ same,
              )
      ]
    ]

-- How many bytes the socket is ready to take over these answers, and that no call of send() fails.
abbrev pub bytes_taken : List (SendAnswer × ℕ) → ℕ
bytes_taken [] = 0
bytes_taken ((taken k, time) ∷ rest) = k + bytes_taken rest
bytes_taken ((send_again, time) ∷ rest) = bytes_taken rest
bytes_taken ((send_failed, time) ∷ rest) = bytes_taken rest

abbrev pub never_fails : List (SendAnswer × ℕ) → Bool
never_fails [] = true
never_fails ((taken k, time) ∷ rest) = never_fails rest
never_fails ((send_again, time) ∷ rest) = never_fails rest
never_fails ((send_failed, time) ∷ rest) = false

send_loop_returns :
    (c : NetConfig) (e : ErrorCode) (answers : List (SendAnswer × ℕ)) (buffer : List ℕ) (delta : ℕ)
    (wire : List ℕ)
    → use_timeout c.mode ≡ false
    → never_fails answers ≡ true
    → length buffer ≤ bytes_taken answers
    → (send_loop c e answers buffer delta wire).0 ≡ returned none
unfolding send_loop
send_loop_returns c e [] buffer delta wire blocking fine enough = ground arith
send_loop_returns c e ((taken k, time) ∷ rest) buffer delta wire blocking fine enough =
    let shorter = length-drop k buffer in
    ground (
      arith,
      send_loop_returns c e rest (drop k buffer) delta (wire ++ take k buffer) blocking fine
          (omega (arith, shorter)),
    )
send_loop_returns c e ((send_again, time) ∷ rest) buffer delta wire blocking fine enough =
    ground (arith, send_loop_returns c e rest buffer delta wire blocking fine enough)
send_loop_returns c e ((send_failed, time) ∷ rest) buffer delta wire blocking fine enough = cc

length-take_le : (n : ℕ) (xs : List ℕ) → length (take n xs) ≤ n
length-take_le zero xs = omega arith
length-take_le (suc n) [] = omega arith
length-take_le (suc n) (x ∷ xs) = omega (arith, length-take_le n xs)

blocking_returns :
    (nonblocking : Bool) (c : NetConfig) (e : ErrorCode) (min_len max_len : ℕ)
    (answers : List (SendAnswer × ℕ)) (buffer : List ℕ)
    → c.mode ≡ rx_tx_blocking
    → min_len ≤ leading_length buffer
    → leading_length buffer ≤ max_len
    → never_fails answers ≡ true
    → leading_length buffer ≤ bytes_taken answers
    → (send_generic (some nonblocking) c e min_len max_len answers buffer).0 ≡ returned none
unfolding send_generic validate
blocking_returns nonblocking c e min_len max_len answers buffer blocking lo hi fine enough =
    let n = leading_length buffer in
    let good : validate (some nonblocking) c true ≡ none = ground (arith, blocking) in
    let inside : (ltb n min_len || ltb max_len n) ≡ false = ground arith in
    let patient : use_timeout c.mode ≡ false = ap use_timeout blocking in
    let short : length (take n buffer) ≤ n = length-take_le n buffer in
    rw (good, inside, send_generic)
      (send_loop_returns c e answers (take n buffer) 0 [] patient fine (omega (arith, short)))

-- A blocking send_generic returns NONE and has handed the whole message to the socket, if fcntl()
-- and send() do not fail, the leading length lies within the bounds, and the socket takes that many
-- bytes over the answers given, in pieces of any size and with any number of EAGAIN in between.
pub send_generic_returns :
    (nonblocking : Bool) (c : NetConfig) (e : ErrorCode) (min_len max_len : ℕ)
    (answers : List (SendAnswer × ℕ)) (buffer : List ℕ)
    → c.mode ≡ rx_tx_blocking
    → min_len ≤ leading_length buffer
    → leading_length buffer ≤ max_len
    → never_fails answers ≡ true
    → leading_length buffer ≤ bytes_taken answers
    → ((send_generic (some nonblocking) c e min_len max_len answers buffer).0 ≡ returned none)
      × ((send_generic (some nonblocking) c e min_len max_len answers buffer).1
          ≡ take (leading_length buffer) buffer)
send_generic_returns nonblocking c e min_len max_len answers buffer blocking lo hi fine enough =
    let done =
      blocking_returns nonblocking c e min_len max_len answers buffer blocking lo hi fine enough in
    (done, (send_generic_lem (some nonblocking) c e min_len max_len answers buffer).1 done)
