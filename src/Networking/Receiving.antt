-- ===== src/Networking/Receiving.antt =====
-- What recv_generic takes from the socket.
use mathlib.Core.Option.{some-injective}
use mathlib.Core.List.{append_assoc}
use cmu_mixnet.Prelude.{
  ℕ, ◌+◌, ◌-◌, ◌≤◌, ◌≡◌, ◌≢◌, refl, sym, ap, subst, ◌∙◌, ◌⊎◌, inl, inr, Bool, true, false, not,
  ◌&&◌, ◌||◌, Option, none, some, List, [], ◌∷◌, ◌++◌, arith, ◌==◌, ltb, leb, Bool-cases,
  Option-cases, if◌then◌else◌, length, length-append, get_or-append,
}
use cmu_mixnet.ErrorCode.{ErrorCode, recv_zero_pending, recv_wait_timeout}
use cmu_mixnet.Networking.{
  Mode, rx_tx_blocking, rx_tx_timeout, rx_try_once, NetConfig, is_block, is_try_once, use_timeout,
  validate, Answer, received, again, failed, Outcome, returned, running, leading_length, RecvState,
  RecvStep, finish, go_on, decode_step, whole_step, consume_step, recv_step, recv_start, recv_loop,
  recv_generic,
}

-- The length of a message is read from its first two bytes.
leading_length-append :
    (xs ys : List ℕ) → 2 ≤ length xs → leading_length (xs ++ ys) ≡ leading_length xs
leading_length-append xs ys h =
    ground (arith, get_or-append xs ys 0 0 (omega arith), get_or-append xs ys 1 0 (omega arith))

-- What recv() promises: the bytes that it hands out lead the stream, at most as many as were asked
-- for; they leave the stream unless they were peeked at, and without bytes the stream stays.
pub record IsSocket (Socket : Type 0) (recv : Socket → ℕ → Bool → Answer × Socket)
    (pending : Socket → List ℕ) : Type 0 where
  pub bytes_lead :
      (s s' : Socket) (n : ℕ) (peek : Bool) (bytes : List ℕ)
      → recv s n peek ≡ (received bytes, s')
      → (rest : List ℕ) × (pending s ≡ bytes ++ rest)
        × (pending s' ≡ (if peek then pending s else rest))
        × (length bytes ≤ n)
  pub again_stays :
      (s s' : Socket) (n : ℕ) (peek : Bool) → recv s n peek ≡ (again, s') → pending s' ≡ pending s

returned-injective : {e e' : Option ErrorCode} → returned e ≡ returned e' → e ≡ e'
returned-injective h = ap code h
  where
    code : Outcome → Option ErrorCode
    code (returned e) = e
    code running = none

-- Out of blocking mode the loop consumes only after it has seen the whole message.
no-consume :
    (mode : Mode) (started : Bool)
    → is_block mode ≡ false
    → started ≡ false
    → is_try_once mode || use_timeout mode && not started ≡ false
    → ⊥
no-consume rx_tx_blocking started nb fresh test = cc
no-consume rx_tx_timeout started nb fresh test = cc
no-consume rx_try_once started nb fresh test = cc

timeout-not-block : (mode : Mode) → use_timeout mode ≡ true → is_block mode ≡ false
timeout-not-block rx_tx_blocking timeout = cc
timeout-not-block rx_tx_timeout timeout = refl
timeout-not-block rx_try_once timeout = refl

peeking-not-block :
    (mode : Mode) (b : Bool)
    → is_try_once mode || (use_timeout mode && b) ≡ true
    → is_block mode ≡ false
peeking-not-block rx_tx_blocking b test = cc
peeking-not-block rx_tx_timeout b test = refl
peeking-not-block rx_try_once b test = refl

module _ (mode : Mode) (min_len max_len : ℕ) (start : List ℕ) where
  -- The stream begins with a message of `n` bytes, within the bounds.
  abbrev Announces : ℕ → Type 0
  Announces n = (leading_length start ≡ n) × (2 ≤ n) × (min_len ≤ n) × (n ≤ max_len)

  -- Where the loop stands: before the length is known, before the message is there, or reading it.
  data Stage : RecvState → List ℕ → Type 0 where
    asking : {s : RecvState} {p : List ℕ} → s ≡ recv_start → p ≡ start → Stage s p
    knowing :
        {s : RecvState} {p : List ℕ} (n : ℕ)
        → s ≡ record {
          peek = true;
          recv_started = false;
          expected_size = n;
          msg_length = n;
          got = [];
        }
        → p ≡ start
        → Announces n
        → is_block mode ≡ false
        → Stage s p
    reading :
        {s : RecvState} {p : List ℕ} (n : ℕ)
        → s.peek ≡ false
        → s.msg_length ≡ n
        → s.expected_size + length s.got ≡ n
        → start ≡ s.got ++ p
        → Announces n
        → (is_block mode ≡ false → s.recv_started ≡ true)
        → (is_try_once mode ≡ true → s.got ≡ [])
        → Stage s p

  -- One whole message has left the stream, or nothing if there was nothing to report.
  abbrev Good : Outcome → List ℕ → List ℕ → Type 0
  Good o m p =
      (o ≡ returned none
        → (start ≡ m ++ p)
          × (length m ≡ leading_length m)
          × (min_len ≤ length m)
          × (length m ≤ max_len))
      × (o ≡ returned (some recv_zero_pending) → p ≡ start)

  abbrev After : RecvStep → List ℕ → Type 0
  After (finish e m) p = Good (returned e) m p
  After (go_on s) p = Stage s p

  decode-After :
      (bytes rest p : List ℕ)
      → 2 ≤ min_len
      → start ≡ bytes ++ rest
      → p ≡ start
      → After (decode_step mode min_len max_len bytes recv_start) p
  unfolding decode_step
  decode-After bytes rest p two e same =
      let n = leading_length bytes in
      elim (Bool-cases (length bytes == 2)) [
        | inl whole ↦
            let size : length bytes ≡ 2 = ground arith in
            let leads : leading_length start ≡ n =
              ap leading_length e ∙ leading_length-append bytes rest (omega arith) in
            elim (Bool-cases (ltb n min_len || ltb max_len n)) [
              | inl outside ↦ rw (whole, outside) (λ h. cc, λ h. cc)
              | inr inside ↦
                  let low : min_len ≤ n = ground arith in
                  let high : n ≤ max_len = ground arith in
                  let told : Announces n = (leads, omega arith, low, high) in
                  elim (Bool-cases (is_block mode)) [
                    | inl b ↦
                        rw (whole, inside, b)
                          (reading n refl refl (omega arith) (sym same) told (λ h. cc) (λ h. refl))
                    | inr nb ↦ rw (whole, inside, nb) (knowing n refl same told nb)
                  ]
            ]
        | inr short ↦ elim (Bool-cases (is_try_once mode)) [
          | inl once ↦ rw (short, once) (λ h. cc, λ h. same)
          | inr more ↦ rw (short, more) (asking refl same)
        ]
      ]

  -- The last piece makes the message whole.
  all-Good :
      (n : ℕ) (s : RecvState) (bytes rest p : List ℕ)
      → length bytes + length s.got ≡ n
      → start ≡ s.got ++ (bytes ++ rest)
      → p ≡ rest
      → Announces n
      → Good (returned none) (s.got ++ bytes) p
  all-Good n s bytes rest p size e taken (leads, two, low, high) =
      let m = s.got ++ bytes in
      let whole : start ≡ m ++ p =
        e ∙ sym (append_assoc s.got bytes rest) ∙ ap (λ (xs : List ℕ). m ++ xs) (sym taken) in
      let counted : length m ≡ n = omega (arith, length-append s.got bytes, size) in
      let same : leading_length start ≡ leading_length m =
        ap leading_length whole ∙ leading_length-append m p (omega (arith, counted, two)) in
      (
        λ h. (
          whole,
          counted ∙ sym leads ∙ same,
          omega (arith, counted, low),
          omega (arith, counted, high),
        ),
        λ h. cc,
      )

  whole-After :
      (connection_error : ErrorCode) (bytes rest p : List ℕ) (s : RecvState)
      → connection_error ≢ recv_zero_pending
      → is_block mode ≡ false
      → Stage s (bytes ++ rest)
      → p ≡ (if s.peek then bytes ++ rest else rest)
      → (s.msg_length == 0) ≡ false
      → is_try_once mode || (use_timeout mode && not s.recv_started) ≡ true
      → After (whole_step mode connection_error bytes s) p
  unfolding whole_step
  whole-After connection_error bytes rest p s apart nb (asking e q) same known test =
      let unknown : s.msg_length ≡ 0 = ap (λ (t : RecvState). t.msg_length) e in ground arith
  whole-After connection_error bytes rest p s apart nb (knowing n e q a nb') same known test =
      let peeking = ap (λ (t : RecvState). t.peek) e in
      let fresh = ap (λ (t : RecvState). t.recv_started) e in
      let size = ap (λ (t : RecvState). t.expected_size) e in
      let none_got = ap (λ (t : RecvState). t.got) e in
      let stays : p ≡ start = same ∙ rw peeking q in
      elim (Bool-cases (length bytes == s.expected_size)) [
        | inl whole ↦
            rw (whole, fresh)
              (reading n refl (ap (λ (t : RecvState). t.msg_length) e)
                (rw (none_got, size) (omega arith)) (rw none_got (sym stays)) a (λ h. refl)
                (λ h. none_got))
        | inr short ↦ elim (Bool-cases (is_try_once mode)) [
          | inl once ↦ rw (short, once, fresh) (λ h. cc, λ h. stays)
          | inr more ↦ rw (short, more) (knowing n e stays a nb)
        ]
      ]
  whole-After connection_error bytes rest p s apart nb (reading n e1 e2 e3 e4 a st kept) same known
        test =
      let started = st nb in
      let taken : p ≡ rest = same ∙ rw e1 refl in
      elim (Bool-cases (is_try_once mode)) [
        | inl once ↦ elim (Bool-cases (length bytes == s.expected_size)) [
          | inl whole ↦ rw (whole, started) (all-Good n s bytes rest p (ground arith) e4 taken a)
          | inr short ↦
              rw (short, once, started)
                (λ h. cc, λ h. absurd (apart (some-injective _ _ (returned-injective h))))
        ]
        | inr more ↦ ground arith
      ]

  consume-After :
      (bytes rest p : List ℕ) (s : RecvState)
      → Stage s (bytes ++ rest)
      → p ≡ (if s.peek then bytes ++ rest else rest)
      → (s.msg_length == 0) ≡ false
      → length bytes ≤ s.expected_size
      → is_try_once mode || (use_timeout mode && not s.recv_started) ≡ false
      → After (consume_step bytes s) p
  unfolding consume_step
  consume-After bytes rest p s (asking e q) same known le test =
      let unknown : s.msg_length ≡ 0 = ap (λ (t : RecvState). t.msg_length) e in ground arith
  consume-After bytes rest p s (knowing n e q a nb') same known le test =
      absurd (no-consume mode s.recv_started nb' (ap (λ (t : RecvState). t.recv_started) e) test)
  consume-After bytes rest p s (reading n e1 e2 e3 e4 a st kept) same known le test =
      let taken : p ≡ rest = same ∙ rw e1 refl in
      elim (Bool-cases (s.expected_size - length bytes == 0)) [
        | inl done ↦ rw done (all-Good n s bytes rest p (ground arith) e4 taken a)
        | inr more ↦ rw more (
            reading n e1 e2 (omega (arith, length-append s.got bytes, e3, le))
              (e4
                ∙ sym (append_assoc s.got bytes rest)
                ∙ ap (λ (xs : List ℕ). (s.got ++ bytes) ++ xs) (sym taken))
              a (λ h. refl) (λ h. cc))
      ]

  -- A timeout leaves the stream alone unless the message is being read.
  late-Good :
      (s : RecvState) (p : List ℕ)
      → use_timeout mode ≡ true
      → Stage s p
      → Good
          (returned (some (if s.recv_started then recv_wait_timeout else recv_zero_pending)))
          []
          p
  late-Good s p timeout (asking e q) = (λ h. cc, λ h. q)
  late-Good s p timeout (knowing n e q a nb) = (λ h. cc, λ h. q)
  late-Good s p timeout (reading n e1 e2 e3 e4 a st kept) =
      rw (st (timeout-not-block mode timeout)) (λ h. cc, λ h. cc)

  error-Good : (e : ErrorCode) (p : List ℕ) → e ≢ recv_zero_pending → Good (returned (some e)) [] p
  error-Good e p apart = (λ h. cc, λ h. absurd (apart (some-injective _ _ (returned-injective h))))

  again-After :
      (s : RecvState) (p : List ℕ)
      → Stage s p
      → After (if is_try_once mode then finish (some recv_zero_pending) [] else go_on s) p
  again-After s p stage = elim (Bool-cases (is_try_once mode)) [
    | inl once ↦ rw once (λ h. cc, λ h. nothing-taken stage once)
    | inr more ↦ rw more stage
  ]
    where
      nothing-taken : Stage s p → is_try_once mode ≡ true → p ≡ start
      nothing-taken (asking e q) once = q
      nothing-taken (knowing n e q a nb) once = q
      nothing-taken (reading n e1 e2 e3 e4 a st kept) once = sym (e4 ∙ rw (kept once) refl)

  unknown-asking :
      (s : RecvState) (p : List ℕ)
      → Stage s p
      → (s.msg_length == 0) ≡ true
      → (s ≡ recv_start) × (p ≡ start)
  unknown-asking s p (asking e q) unknown = (e, q)
  unknown-asking s p (knowing n e q (leads, two, low, high) nb) unknown =
      let size : s.msg_length ≡ n = ap (λ (t : RecvState). t.msg_length) e in absurd (ground arith)
  unknown-asking s p (reading n e1 e2 e3 e4 (leads, two, low, high) st kept) unknown =
      absurd (ground arith)

  received-After :
      (e : ErrorCode) (bytes rest p : List ℕ) (s : RecvState)
      → e ≢ recv_zero_pending
      → 2 ≤ min_len
      → Stage s (bytes ++ rest)
      → p ≡ (if s.peek then bytes ++ rest else rest)
      → length bytes ≤ s.expected_size
      → After (recv_step mode e min_len max_len (received bytes) s) p
  unfolding recv_step
  received-After e bytes rest p s apart two stage same le = elim (Bool-cases (length bytes == 0)) [
    | inl closed ↦ rw closed (error-Good e p apart)
    | inr some_bytes ↦ elim (Bool-cases (s.msg_length == 0)) [
      | inl unknown ↦
          rw (some_bytes, unknown)
            (let (e1, q) = unknown-asking s (bytes ++ rest) stage unknown in
              let stays : p ≡ start = same ∙ rw e1 q in
              rw e1 (decode-After bytes rest p two (sym q) stays))
      | inr known ↦
          let test = is_try_once mode || (use_timeout mode && not s.recv_started) in
          elim (Bool-cases test) [
            | inl whole ↦
                rw (some_bytes, known, whole)
                  (whole-After e bytes rest p s apart (peeking-not-block mode _ whole) stage same
                    known whole)
            | inr piece ↦
                rw (some_bytes, known, piece)
                  (consume-After bytes rest p s stage same known le piece)
          ]
    ]
  ]

pub RecvStep-cases :
    (r : RecvStep)
    → ((e : Option ErrorCode) × (m : List ℕ) × (r ≡ finish e m)) ⊎ ((s : RecvState) × (r ≡ go_on s))
RecvStep-cases (finish e m) = inl (e, m, refl)
RecvStep-cases (go_on s) = inr (s, refl)

-- The loop over a socket.
module _ (c : NetConfig) (connection_error : ErrorCode) (min_len max_len : ℕ) {Socket : Type 0}
    {recv : Socket → ℕ → Bool → Answer × Socket} {pending : Socket → List ℕ}
    (socket_is : IsSocket Socket recv pending) (start : List ℕ)
    (apart : connection_error ≢ recv_zero_pending) (two : 2 ≤ min_len) where
  step-After :
      (answer : Answer) (socket socket' : Socket) (s : RecvState)
      → Stage c.mode min_len max_len start s (pending socket)
      → recv socket s.expected_size s.peek ≡ (answer, socket')
      → After c.mode min_len max_len start
          (recv_step c.mode connection_error min_len max_len answer s)
          (pending socket')
  unfolding recv_step
  step-After failed socket socket' s stage called =
      error-Good c.mode min_len max_len start connection_error (pending socket') apart
  step-After again socket socket' s stage called =
      again-After c.mode min_len max_len start s (pending socket')
        (rw (socket_is.again_stays socket socket' s.expected_size s.peek called) stage)
  step-After (received bytes) socket socket' s stage called =
      let (rest, leads, left, le) =
        socket_is.bytes_lead socket socket' s.expected_size s.peek bytes called in
      received-After c.mode min_len max_len start connection_error bytes rest (pending socket') s
        apart two (subst (λ (p : List ℕ). Stage c.mode min_len max_len start s p) leads stage)
        (left ∙ rw leads refl) le

  recv_loop-Good :
      (times : List ℕ) (s : RecvState) (delta : ℕ) (socket : Socket)
      → Stage c.mode min_len max_len start s (pending socket)
      → (let (o, message, socket') =
            recv_loop Socket recv c connection_error min_len max_len times s delta socket in
          Good c.mode min_len max_len start o message (pending socket'))
  unfolding recv_loop
  recv_loop-Good [] s delta socket stage = (λ h. cc, λ h. cc)
  recv_loop-Good (time ∷ times) s delta socket stage =
      elim (Bool-cases (use_timeout c.mode && leb c.timeout delta)) [
        | inl late ↦
            rw late (late-Good c.mode min_len max_len start s (pending socket) (ground arith) stage)
        | inr early ↦ rw early (
            let next = if use_timeout c.mode then time else delta in
            let (answer, socket') = recv socket s.expected_size s.peek in
            let step = recv_step c.mode connection_error min_len max_len answer s in
            let after = step-After answer socket socket' s stage refl in
            elim (RecvStep-cases step) [
              | inl (e, m, ends) ↦ rw ends (
                  subst (λ (r : RecvStep). After c.mode min_len max_len start r (pending socket'))
                    ends after)
              | inr (s', goes) ↦ rw goes (
                  recv_loop-Good times s' next socket' (
                    subst (λ (r : RecvStep). After c.mode min_len max_len start r (pending socket'))
                      goes after))
            ])
      ]

-- Over any socket that hands out a stream in order: when recv_generic returns NONE, one whole
-- message has left the front of the stream, its length is the one that its first two bytes
-- announce, and that is within the bounds; when it returns RECV_ZERO_PENDING nothing has left the
-- stream. The code for a broken connection is not RECV_ZERO_PENDING and the least length is two at
-- least.
pub recv_generic_lem :
    (c : NetConfig) (connection_error : ErrorCode) (min_len max_len : ℕ) {Socket : Type 0}
    {recv : Socket → ℕ → Bool → Answer × Socket} {pending : Socket → List ℕ}
    → IsSocket Socket recv pending
    → connection_error ≢ recv_zero_pending
    → 2 ≤ min_len
    → (nonblocking : Option Bool) (times : List ℕ) (socket : Socket)
    → (let (o, message, socket') =
          recv_generic Socket recv nonblocking c connection_error min_len max_len times socket in
        (o ≡ returned none
          → (pending socket ≡ message ++ pending socket')
            × (length message ≡ leading_length message)
            × (min_len ≤ length message)
            × (length message ≤ max_len))
        × (o ≡ returned (some recv_zero_pending) → pending socket' ≡ pending socket))
unfolding recv_generic
recv_generic_lem c connection_error min_len max_len {Socket} {recv} {pending} socket_is apart two
      nonblocking times socket =
    elim (Option-cases (validate nonblocking c false)) [
      | inr (e, bad) ↦ rw (bad, recv_generic) (λ h. cc, λ h. refl)
      | inl good ↦
          rw (good, recv_generic)
            (recv_loop-Good c connection_error min_len max_len socket_is (pending socket) apart two
              times recv_start 0 socket (asking refl refl))
    ]
