-- ===== src/Message/Canary.antt =====
-- A finalized message passes its own validation.
use mathlib.Core.Path.{ap₂}
use cmu_mixnet.Prelude.{
  ℕ, ◌+◌, ◌-◌, ◌*◌, ◌≤◌, ◌<◌, ◌≡◌, ◌≢◌, refl, ap, ◌∙◌, Bool, true, false, ◌||◌, some, arith, ltb,
  if◌then◌else◌,
}
use cmu_mixnet.Message.{
  MessageType, noop, setup_ctrl, setup_pcap, topology, start_mixnet_server, start_mixnet_clients,
  resolve_mixnet_conns, change_link_state, pcap_data, pcap_subscription, send_packet,
  start_testcase, end_testcase, shutdown, Buffer, get16, put16, put_canary, has_canary, is_request,
  get_type, get_total_length, payload_length, compute_total_length, validate, finalize,
  code_is_request, code_to_type,
}

-- The bytes that a payload takes, before they are counted in 16 bits.
unfoldable pub payload_size : (addr_size : ℕ) → Bool → MessageType → Buffer → ℕ
payload_size addr_size request noop b = 0
payload_size addr_size request setup_ctrl b = if request then 1 else 4
payload_size addr_size request setup_pcap b = if request then addr_size else 0
payload_size addr_size request topology b = if request then 16 + get16 b 10 * 2 else 0
payload_size addr_size request start_mixnet_server b = if request then 0 else addr_size
payload_size addr_size request start_mixnet_clients b = 8 + get16 b 8 * addr_size
payload_size addr_size request resolve_mixnet_conns b =
    if request then 8 + get16 b 8 * addr_size else 0
payload_size addr_size request change_link_state b = if request then 4 else 0
payload_size addr_size request pcap_data b = if request then 0 else get16 b 8
payload_size addr_size request pcap_subscription b = if request then 1 else 0
payload_size addr_size request send_packet b = if request then 8 + get16 b 14 else 0
payload_size addr_size request start_testcase b = 0
payload_size addr_size request end_testcase b = 0
payload_size addr_size request shutdown b = 0

-- The message has a type that is sent, its payload fits the buffer, and a captured packet reaches
-- past its own size field.
pub record Fits (addr_size : ℕ) (type : MessageType) (b : Buffer) : Type 0 where
  pub typed : get_type b ≡ some type
  pub sent : type ≢ noop
  pub room : payload_size addr_size (is_request b) type b ≤ 65523
  pub whole : type ≡ pcap_data → is_request b ≡ false → 2 ≤ get16 b 8

module _ (addr_size : ℕ) (r : Bool) (b b' : Buffer) where
  -- The length depends on the payload's own bytes only.
  local :
      (type : MessageType)
      → type ≢ noop
      → payload_size addr_size r type b ≤ 65523
      → (type ≡ pcap_data → r ≡ false → 2 ≤ get16 b 8)
      → ((j : ℕ) → 8 ≤ j → j < 8 + payload_size addr_size r type b → b' j ≡ b j)
      → payload_length addr_size r type b' ≡ some (payload_size addr_size r type b)
  unfolding payload_length payload_size
  local noop sent room whole same = absurd (sent refl)
  local topology sent room whole same = ground (arith, same 10, same 11)
  local start_mixnet_clients sent room whole same = ground (arith, same 8, same 9)
  local resolve_mixnet_conns sent room whole same = ground (arith, same 8, same 9)
  local pcap_data sent room whole same = ground (arith, same 8, same 9, whole refl)
  local send_packet sent room whole same = ground (arith, same 14, same 15)
  local _ sent room whole same = ground arith

-- The two writes of `finalize` for a payload of `n` bytes.
abbrev pub sealed : ℕ → Buffer → Buffer
sealed n b = put_canary (8 + n) (put16 0 (12 + n) b)

sealed-between : (n : ℕ) (b : Buffer) (j : ℕ) → 2 ≤ j → j < 8 + n → sealed n b j ≡ b j
sealed-between n b j lo hi = ground arith

sealed-has_canary : (n : ℕ) (b : Buffer) → has_canary (sealed n b) (8 + n) ≡ true
sealed-has_canary n b = ground arith

sealed_length : (n : ℕ) (b : Buffer) → n ≤ 65523 → get16 (sealed n b) 0 ≡ 12 + n
sealed_length n b fits = ground arith

sealed_code : (n : ℕ) (b : Buffer) (j : ℕ) → 2 ≤ j → j < 8 → sealed n b j ≡ b j
sealed_code n b j lo hi = sealed-between n b j lo (omega arith)

sealed-type : (n : ℕ) (b : Buffer) → get_type (sealed n b) ≡ get_type b
unfolding get_type
sealed-type n b =
    ap₂ (λ (x y : ℕ). code_to_type (x + 256 * y)) (sealed_code n b 2 (omega arith) (omega arith))
      (sealed_code n b 3 (omega arith) (omega arith))

sealed-is_request : (n : ℕ) (b : Buffer) → is_request (sealed n b) ≡ is_request b
unfolding is_request
sealed-is_request n b =
    ap₂ (λ (x y : ℕ). code_is_request (x + 256 * y)) (sealed_code n b 2 (omega arith) (omega arith))
      (sealed_code n b 3 (omega arith) (omega arith))

module _ (addr_size : ℕ) (type : MessageType) (b : Buffer) (h : Fits addr_size type b) where
  abbrev size : ℕ
  size = payload_size addr_size (is_request b) type b

  length_of :
      (b' : Buffer)
      → get_type b' ≡ get_type b
      → is_request b' ≡ is_request b
      → ((j : ℕ) → 8 ≤ j → j < 8 + size → b' j ≡ b j)
      → compute_total_length addr_size b' ≡ some (12 + size)
  unfolding compute_total_length
  length_of b' e e' same =
      let found = local addr_size (is_request b) b b' type h.sent h.room h.whole same in
      let room = h.room in
      rw (e ∙ h.typed, compute_total_length) (rw (e', found) (ap some (omega arith)))

  -- A message that fits is finalized; the result passes its own validation and declares its true
  -- length, and nothing of the code, the fragment's id, the error code and the payload has changed.
  pub finalize-validate :
      (b' : Buffer) × (finalize addr_size b ≡ some b')
      × (validate addr_size b' ≡ some true)
      × (get_total_length b' ≡ 12 + size)
      × ((j : ℕ) → 2 ≤ j → j < 8 + size → b' j ≡ b j)
  unfolding finalize validate get_total_length
  finalize-validate =
      let b' = sealed size b in
      let n = size in
      let inside : (ltb (12 + n) 12 || ltb 65535 (12 + n)) ≡ false = ground (arith, h.room) in
      let pos : 12 + n - 4 ≡ 8 + n = omega arith in
      let before = length_of b refl refl (λ j lo hi. refl) in
      let after =
        length_of b' (sealed-type size b) (sealed-is_request size b)
          (λ j lo hi. sealed-between size b j (omega arith) hi) in
      (
        b',
        rw (before, finalize) (rw (inside, pos) refl),
        rw (after, validate) (rw (inside, pos) (ap some (sealed-has_canary size b))),
        sealed_length size b h.room,
        λ j lo hi. sealed-between size b j lo hi,
      )
