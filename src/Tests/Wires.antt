-- ===== src/Tests/Wires.antt =====
-- Concrete messages on concrete sockets.
use cmu_mixnet.Prelude.{
  ℕ, zero, suc, ◌≤◌, ◌≡◌, ◌≢◌, refl, sym, ap, ◌∙◌, Bool, true, false, none, some, List, [], ◌∷◌,
  ◌++◌, arith, take, drop, take-drop, length, if◌then◌else◌,
}
use cmu_mixnet.ErrorCode.{mixnet_connection_broken, recv_zero_pending}
use cmu_mixnet.Networking.{
  rx_try_once, rx_tx_blocking, NetConfig, validate, SendAnswer, taken, send_again, returned,
  running, leading_length, Answer, received, again, failed, send_generic, recv_generic,
}
use cmu_mixnet.Networking.Sending.{send_generic_lem, send_generic_returns}
use cmu_mixnet.Networking.Receiving.{IsSocket, recv_generic_lem}
use cmu_mixnet.Networking.Turns.{recv_generic_returns}

-- A stream that is all there.
abbrev recv : List ℕ → ℕ → Bool → Answer × List ℕ
recv [] n peek = (again, [])
recv (x ∷ xs) n peek = (received (take n (x ∷ xs)), if peek then x ∷ xs else drop n (x ∷ xs))

abbrev bytes_of : Answer → List ℕ
bytes_of (received bytes) = bytes
bytes_of again = []
bytes_of failed = []

at_most : (n : ℕ) (xs : List ℕ) → length (take n xs) ≤ n
at_most zero xs = omega arith
at_most (suc n) [] = omega arith
at_most (suc n) (x ∷ xs) = omega (arith, at_most n xs)

recv-IsSocket : IsSocket (List ℕ) recv (λ s. s)
recv-IsSocket = record {
  bytes_lead = λ s s' n peek bytes called. lead s s' n peek bytes called;
  again_stays = λ s s' n peek called. stay s s' n peek called;
}
  where
    lead :
        (s s' : List ℕ) (n : ℕ) (peek : Bool) (bytes : List ℕ)
        → recv s n peek ≡ (received bytes, s')
        → (rest : List ℕ) × (s ≡ bytes ++ rest)
          × (s' ≡ (if peek then s else rest))
          × (length bytes ≤ n)
    lead [] s' n peek bytes called = cc
    lead (x ∷ xs) s' n peek bytes called =
        let same = ap (λ (o : Answer × List ℕ). bytes_of o.0) called in
        (
          drop n (x ∷ xs),
          sym (take-drop n (x ∷ xs)) ∙ ap (λ (ys : List ℕ). ys ++ drop n (x ∷ xs)) same,
          sym (ap (λ (o : Answer × List ℕ). o.1) called),
          omega (arith, at_most n (x ∷ xs), ap length same),
        )

    stay : (s s' : List ℕ) (n : ℕ) (peek : Bool) → recv s n peek ≡ (again, s') → s' ≡ s
    stay [] s' n peek called = cc
    stay (x ∷ xs) s' n peek called = cc

abbrev blocking : NetConfig
blocking = record { mode = rx_tx_blocking; timeout = 0 }

abbrev try_once : NetConfig
try_once = record { mode = rx_try_once; timeout = 0 }

-- Five bytes, of which the first two tell the length.
abbrev five : List ℕ
five = 5 ∷ 0 ∷ 7 ∷ 8 ∷ 9 ∷ []

abbrev in_pieces : List (SendAnswer × ℕ)
in_pieces = (taken 2, 1) ∷ (send_again, 2) ∷ (taken 3, 3) ∷ []

send_generic_lem_example :
    ((rest : List ℕ) × ((send_generic
            (some false)
            blocking
            mixnet_connection_broken
            2
            9
            in_pieces
            five).1
          ++ rest
        ≡ five))
    × ((send_generic (some false) blocking mixnet_connection_broken 2 9 in_pieces five).0
          ≡ returned none
        → (send_generic (some false) blocking mixnet_connection_broken 2 9 in_pieces five).1 ≡ five)
send_generic_lem_example =
    send_generic_lem (some false) blocking mixnet_connection_broken 2 9 in_pieces five

send_generic_returns_example :
    ((send_generic (some true) blocking mixnet_connection_broken 2 8 in_pieces five).0
      ≡ returned none)
    × ((send_generic (some true) blocking mixnet_connection_broken 2 8 in_pieces five).1
        ≡ take (leading_length five) five)
send_generic_returns_example =
    send_generic_returns true blocking mixnet_connection_broken 2 8 in_pieces five refl
      (omega arith) (omega arith) refl (omega arith)

abbrev stream : List ℕ
stream = five ++ 1 ∷ 2 ∷ []

recv_generic_lem_example :
    (let (o, message, left) =
        recv_generic
          (List ℕ)
          recv
          (some true)
          try_once
          mixnet_connection_broken
          2
          9
          (1 ∷ 2 ∷ 3 ∷ [])
          stream in
      (o ≡ returned none
        → (stream ≡ message ++ left)
          × (length message ≡ leading_length message)
          × (2 ≤ length message)
          × (length message ≤ 9))
      × (o ≡ returned (some recv_zero_pending) → left ≡ stream))
recv_generic_lem_example =
    recv_generic_lem try_once mixnet_connection_broken 2 9 recv-IsSocket (λ e. cc) (omega arith)
      (some true) (1 ∷ 2 ∷ 3 ∷ []) stream

recv_generic_returns_example :
    (recv_generic
      (List ℕ)
      recv
      (some true)
      try_once
      mixnet_connection_broken
      2
      9
      (1 ∷ 2 ∷ 3 ∷ [])
      stream).0
    ≢ running
recv_generic_returns_example =
    recv_generic_returns 0 mixnet_connection_broken 2 9 (List ℕ) recv (omega arith) (some true)
      (1 ∷ 2 ∷ 3 ∷ []) stream (omega arith)

-- The message comes whole, and the rest stays.
five_received :
    recv_generic
      (List ℕ)
      recv
      (some true)
      try_once
      mixnet_connection_broken
      2
      9
      (1 ∷ 2 ∷ 3 ∷ [])
      stream
    ≡ (returned none, five, 1 ∷ 2 ∷ [])
unfolding recv_generic validate
five_received = refl
