-- ===== src/Capturing.antt =====
-- A captured packet on its way from a fragment to the test (worker_pcap of framework/fragment.cpp,
-- pcap_thread_loop of framework/orchestrator.cpp).
use Prim.{tt}
use mathlib.Core.Path.{ap₂}
use cmu_mixnet.Prelude.{
  ℕ, ◌+◌, ◌-◌, ◌*◌, ◌≤◌, ◌<◌, ◌≡◌, refl, Memᴰ, sym, ap, subst, ◌∙◌, ◌⊎◌, inl, inr, Bool, true,
  false, not, ◌&&◌, ◌||◌, Option, none, some, List, [], ◌∷◌, arith, if◌then◌else◌, ◌==◌, ltb,
  length, get_or, take, take_all, Bool-cases, Option-cases, u16,
}
use cmu_mixnet.ErrorCode.{
  ErrorCode, recv_zero_pending, malformed_message, bad_fragment_id, bad_message_code,
}
use cmu_mixnet.Message.{
  pcap_data, Buffer, get16, get_fragment_id, get_type, get_error_code, is_request, validate,
  finalize,
}
use cmu_mixnet.Message.Canary.{payload_size}
use cmu_mixnet.Headers.{
  Says, response-Says, unchanged-Says, sent-Says, is_type_lem, same_type, reported_lem,
}
use cmu_mixnet.Control.{is_type, reported}
use cmu_mixnet.Control
use cmu_mixnet.Control.Capture.{size_of, fill_captured}
use cmu_mixnet.Orchestrator.{check_header, put_bytes}
use cmu_mixnet.Orchestrator.Payloads.{FragmentMetadata}
use cmu_mixnet.Orchestrator.Pcap.{
  PcapTurn, PcapState, PcapStep, assertion_failed, next, breaks, take_capture, pcap_step, pcap_pass,
  polled_state, pcap_loop, pcap_thread_loop,
}

-- In some turn this came from the connection of fragment `fid`, which was subscribed and POLLIN.
abbrev pub CameFrom : List PcapTurn → ℕ → Buffer → Type 0
CameFrom ts fid b =
    (t : PcapTurn) × Memᴰ t ts
    × (t.received fid ≡ (none, b))
    × (t.is_pollin fid ≡ true)
    × (t.is_subscribed fid ≡ true)

-- A packet that may be handed to the test under the id of a fragment: it came from that fragment's
-- connection, and is a valid PCAP_DATA response of that fragment, without an error, of a size that a
-- packet can have.
pub record IsGenuine (addr_size n : ℕ) (ts : List PcapTurn) (fid : ℕ) (b : Buffer) : Type 0 where
  pub known : fid < n
  pub arrived : CameFrom ts fid b
  pub identified : get_fragment_id b ≡ fid
  pub valid : validate addr_size b ≡ some true
  pub responding : is_request b ≡ false
  pub typed : get_type b ≡ some pcap_data
  pub clean : get_error_code b ≡ some none
  pub size_le : get16 b 8 ≤ 4096

-- The chain of tests of the orchestrator's check_header.
response_guard :
    (valid : Option Bool) (wrong_id request right_type : Bool) (e : Option (Option ErrorCode))
    → elim valid [
      | none ↦ none
      | some v ↦
          if not v
          then some (some malformed_message)
          else if wrong_id
          then some (some bad_fragment_id)
          else if request || not right_type
          then some (some bad_message_code)
          else reported e
    ]
      ≡ some none
    → (valid ≡ some true)
      × (wrong_id ≡ false)
      × (request ≡ false)
      × (right_type ≡ true)
      × (reported e ≡ some none)
response_guard none wrong_id request right_type e h = cc
response_guard (some false) wrong_id request right_type e h = cc
response_guard (some true) true request right_type e h = cc
response_guard (some true) false true right_type e h = cc
response_guard (some true) false false false e h = cc
response_guard (some true) false false true e h = (refl, refl, refl, refl, h)

genuine :
    (addr_size n : ℕ) (ts : List PcapTurn) (fid : ℕ) (b : Buffer)
    → fid < n
    → CameFrom ts fid b
    → check_header addr_size true fid pcap_data b ≡ some none
    → get16 b 8 ≤ 4096
    → IsGenuine addr_size n ts (get_fragment_id b) b
unfolding check_header
genuine addr_size n ts fid b lt origin accepted small =
    let (valid, id, responding, typed, clean) =
      response_guard (validate addr_size b) (true && not (get_fragment_id b == fid)) (is_request b)
        (is_type (get_type b) pcap_data) (get_error_code b) accepted in
    let same : get_fragment_id b ≡ fid = ground arith in
    record {
      known = omega (arith, same);
      arrived = subst (λ (i : ℕ). CameFrom ts i b) (sym same) origin;
      identified = refl;
      valid = valid;
      responding = responding;
      typed = is_type_lem (get_type b) pcap_data typed;
      clean = reported_lem (get_error_code b) clean;
      size_le = small;
    }

step_cases :
    (p : PcapStep)
    → (p ≡ assertion_failed) ⊎ ((s : PcapState) × (p ≡ next s)) ⊎ ((s : PcapState) × (p ≡ breaks s))
step_cases assertion_failed = inl refl
step_cases (next s) = inr (inl (s, refl))
step_cases (breaks s) = inr (inr (s, refl))

module _ (addr_size n : ℕ) (all : List PcapTurn) where
  abbrev pub AllGenuine : List (ℕ × Buffer) → Type 0
  AllGenuine [] = Unit
  AllGenuine ((fid, b) ∷ captured) = IsGenuine addr_size n all fid b × AllGenuine captured

  abbrev Stepped : PcapStep → Type 0
  Stepped assertion_failed = Unit
  Stepped (next s) = AllGenuine s.captured
  Stepped (breaks s) = AllGenuine s.captured

  abbrev Passed : Option PcapState → Type 0
  Passed none = Unit
  Passed (some s) = AllGenuine s.captured

  take_capture-Stepped :
      (fid : ℕ) (got : Option ErrorCode × Buffer) (s : PcapState)
      → fid < n
      → ((b : Buffer) → got ≡ (none, b) → CameFrom all fid b)
      → AllGenuine s.captured
      → Stepped (take_capture addr_size fid got s)
  unfolding take_capture
  take_capture-Stepped fid (some recv_zero_pending, b) s lt origin h = h
  take_capture-Stepped fid (some _, b) s lt origin h = h
  take_capture-Stepped fid (none, b) s lt origin h =
      elim (Option-cases (check_header addr_size true fid pcap_data b)) [
        | inl failing ↦ rw (failing, take_capture) tt
        | inr (some e, refused) ↦ rw (refused, take_capture) h
        | inr (none, accepted) ↦ elim (Bool-cases (ltb 4096 (get16 b 8))) [
          | inl big ↦ rw (accepted, big, take_capture) h
          | inr small ↦
              rw (accepted, small, take_capture)
                (genuine addr_size n all fid b lt (origin b refl) accepted (ground arith), h)
        ]
      ]

  pcap_step-Stepped :
      (t : PcapTurn) (fid : ℕ) (fd : Option ℕ) (s : PcapState)
      → fid < n
      → Memᴰ t all
      → AllGenuine s.captured
      → Stepped (pcap_step addr_size t fid fd s)
  unfolding pcap_step
  pcap_step-Stepped t fid fd s lt m h =
      elim (Bool-cases (not (t.is_pollin fid) || not (t.is_subscribed fid))) [
        | inl quiet ↦ rw (quiet, pcap_step) h
        | inr ready ↦
            rw (ready, pcap_step)
              (take_capture-Stepped fid (t.received fid) _ lt
                (λ b got. (t, m, got, ground arith, ground arith)) h)
      ]

  pcap_pass-Passed :
      (t : PcapTurn) (fid : ℕ) (xs : List FragmentMetadata) (s : PcapState)
      → fid + length xs ≤ n
      → Memᴰ t all
      → AllGenuine s.captured
      → Passed (pcap_pass addr_size t fid xs s)
  unfolding pcap_pass
  pcap_pass-Passed t fid [] s le m h = h
  pcap_pass-Passed t fid (x ∷ xs) s le m h =
      let stepped = pcap_step-Stepped t fid x.fd_pcap s (omega arith) m h in
      elim (step_cases (pcap_step addr_size t fid x.fd_pcap s)) [
        | inl failing ↦ rw (failing, pcap_pass) tt
        | inr (inl (s', on)) ↦
            rw (on, pcap_pass)
              (pcap_pass-Passed t (fid + 1) xs s' (omega arith) m (subst Stepped on stepped))
        | inr (inr (s', over)) ↦ rw (over, pcap_pass) (subst Stepped over stepped)
      ]

  polled_same :
      (t : PcapTurn) (s : PcapState)
      → AllGenuine s.captured
      → AllGenuine (polled_state t s).captured
  polled_same t s h = elim (Bool-cases t.poll_succeeds) [ inl e ↦ rw (e) h | inr e ↦ rw (e) h ]

  pcap_loop-Passed :
      (fragments : List FragmentMetadata) (ts : List PcapTurn) (s : PcapState)
      → length fragments ≡ n
      → ((t : PcapTurn) → Memᴰ t ts → Memᴰ t all)
      → AllGenuine s.captured
      → Passed (pcap_loop addr_size fragments ts s)
  unfolding pcap_loop
  pcap_loop-Passed fragments [] s count inside h = h
  pcap_loop-Passed fragments (t ∷ ts) s count inside h = elim (Option-cases s.error_code) [
    | inr (e, failed) ↦ rw (failed, pcap_loop) h
    | inl fine ↦ elim (Bool-cases t.keep_running) [
      | inr stopped ↦ rw (fine, stopped, pcap_loop) h
      | inl running ↦
          let passed =
            pcap_pass-Passed t 0 fragments (polled_state t s) (omega arith)
              (inside t (Memᴰ.head refl)) (polled_same t s h) in
          elim (Option-cases (pcap_pass addr_size t 0 fragments (polled_state t s))) [
            | inl failing ↦ rw (fine, running, failing, pcap_loop) tt
            | inr (s', done) ↦
                rw (fine, running, done, pcap_loop)
                  (pcap_loop-Passed fragments ts s' count (λ u k. inside u (Memᴰ.tail k))
                    (subst Passed done passed))
          ]
    ]
  ]

-- Whatever arrives on the pcap plane, every packet that the thread hands to the test is the payload
-- of a valid PCAP_DATA response without an error, has at most 4096 bytes, and goes under the id of
-- the fragment from whose connection it was received in one of the turns, in which that fragment was
-- subscribed.
pub pcap_thread_loop_lem :
    (addr_size : ℕ) (fragments : List FragmentMetadata) (ts : List PcapTurn) (s : PcapState)
    → pcap_thread_loop addr_size fragments ts ≡ some s
    → AllGenuine addr_size (length fragments) ts s.captured
unfolding pcap_thread_loop
pcap_thread_loop_lem addr_size fragments ts s h =
    subst (Passed addr_size (length fragments) ts) h
      (pcap_loop-Passed addr_size (length fragments) ts fragments ts _ refl (λ t m. m) tt)

accepted_capture :
    (addr_size fid : ℕ) (b : Buffer)
    → validate addr_size b ≡ some true
    → Says false pcap_data fid none b
    → check_header addr_size true fid pcap_data b ≡ some none
unfolding check_header
accepted_capture addr_size fid b valid h =
    rw (valid, check_header)
      (rw (h.directed, h.typed, h.identified, h.failing, same_type pcap_data) (ground arith))

taken_capture :
    (addr_size fid : ℕ) (b : Buffer) (s : PcapState)
    → validate addr_size b ≡ some true
    → Says false pcap_data fid none b
    → get16 b 8 ≤ 4096
    → take_capture addr_size fid (none, b) s
      ≡ next (record s { error_code = none; captured = (fid, b) ∷ s.captured })
unfolding take_capture
taken_capture addr_size fid b s valid h small =
    let accepted = accepted_capture addr_size fid b valid h in
    let fits : ltb 4096 (get16 b 8) ≡ false = ground arith in
    rw (accepted, fits, h.identified, take_capture) refl

put_bytes_at :
    (i : ℕ) (bytes : List ℕ) (b : Buffer)
    → ((j : ℕ) → j < i → put_bytes i bytes b j ≡ b j)
      × ((k : ℕ) → k < length bytes → put_bytes i bytes b (i + k) ≡ get_or bytes k 0)
unfolding put_bytes
put_bytes_at i bytes b = (
  λ j lt. ground arith,
  λ k lt.
      let place : i + k - i ≡ k = omega arith in
      ground (arith, ap (λ (m : ℕ). get_or bytes m 0) place),
)

-- A captured packet, whose first two bytes tell the number of its bytes, from 12 to 4096 of them,
-- arrives: the response can be finalized, and the orchestrator hands the same bytes to the test
-- under the fragment's id.
pub captured_arrives :
    (addr_size fid : ℕ) (bytes : List ℕ) (b : Buffer) (s : PcapState)
    → fid < 65536
    → size_of bytes ≡ length bytes
    → 12 ≤ length bytes
    → length bytes ≤ 4096
    → (b' : Buffer) × (finalize addr_size
          (fill_captured bytes (Control.prepare_header fid pcap_data none b)).1
        ≡ some b')
      × (take_capture addr_size fid (none, b') s
          ≡ next (record s { error_code = none; captured = (fid, b') ∷ s.captured }))
      × ((k : ℕ) → k < length bytes → b' (8 + k) ≡ get_or bytes k 0)
unfolding fill_captured payload_size
captured_arrives addr_size fid bytes b s small counted lo hi =
    let p = Control.prepare_header fid pcap_data none b in
    let whole : take (size_of bytes) bytes ≡ bytes = take_all (size_of bytes) bytes counted in
    let (header, at) = put_bytes_at 8 bytes p in
    let f = put_bytes 8 bytes p in
    let same_id : u16 fid ≡ fid = omega (arith, small) in
    let told =
      subst (λ (i : ℕ). Says false pcap_data i none f) same_id
        (unchanged-Says false pcap_data (u16 fid) none p f (response-Says fid pcap_data none b)
          (λ j l h. header j h)) in
    let size : get16 f 8 ≡ length bytes =
      ap₂ (λ (x y : ℕ). x + 256 * y) (at 0 (omega arith)) (at 1 (omega arith)) ∙ counted in
    let (b', made, valid, said, same) =
      sent-Says addr_size false pcap_data fid none f told
        (λ q. cc, omega (arith, size, hi), λ q r. omega (arith, size, lo)) in
    let size' : get16 b' 8 ≡ length bytes =
      ap₂ (λ (x y : ℕ). x + 256 * y) (same 8 (omega arith) (omega (arith, size, lo)))
        (same 9 (omega arith) (omega (arith, size, lo)))
      ∙ size in
    (
      b',
      rw (whole) made,
      taken_capture addr_size fid b' s valid said (omega (arith, size')),
      λ k lt. same (8 + k) (omega arith) (omega (arith, size)) ∙ at k lt,
    )
