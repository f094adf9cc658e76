-- ===== src/Headers.antt =====
-- What the two sides of the control plane accept of each other's messages (prepare_header and
-- check_header of framework/fragment.cpp and orchestrator.cpp).
use mathlib.Core.Path.{ap₂}
use mathlib.Core.Option.{some-injective}
use cmu_mixnet.Prelude.{
  ℕ, inl, inr, ◌+◌, ◌*◌, ◌≤◌, ◌<◌, ◌≡◌, ◌≢◌, refl, sym, ap, subst, ◌∙◌, Bool, true, false, not,
  ◌&&◌, ◌||◌, Option, none, some, arith, ◌==◌, ltb, Bool-cases, Option-cases, if◌then◌else◌, u16,
  get_elem?,
}
use cmu_mixnet.ErrorCode.{
  ErrorCode, error_codes, error_number, error_number_lt, get_elem?-error_number, malformed_message,
  bad_message_code, bad_fragment_id, fragment_exception,
}
use cmu_mixnet.Message.{
  MessageType, message_types, noop, pcap_data, Buffer, get16, code_create, is_request, get_type,
  get_fragment_id, get_error_code, set_fragment_id, set_error_code, set_code, validate, finalize,
  compute_total_length, type_number, code_to_type, code_is_request,
}
use cmu_mixnet.Message.Code.{code_create_lem}
use cmu_mixnet.Message.Canary.{payload_size, Fits, finalize-validate}
use cmu_mixnet.Control.{reported, is_type}
use cmu_mixnet.Control
use cmu_mixnet.Orchestrator

-- What the header of a message says.
pub record Says (request : Bool) (type : MessageType) (fid : ℕ) (e : Option ErrorCode) (b : Buffer)
    : Type 0 where
  pub directed : is_request b ≡ request
  pub typed : get_type b ≡ some type
  pub identified : get_fragment_id b ≡ fid
  pub failing : get_error_code b ≡ some e

code_bound : (request : Bool) (type : MessageType) → code_create request type < 65536
unfolding code_create
code_bound request type = ground arith

says :
    (request : Bool) (type : MessageType) (fid : ℕ) (e : Option ErrorCode) (b : Buffer)
    → get16 b 2 ≡ code_create request type
    → get16 b 4 ≡ fid
    → get16 b 6 ≡ error_number e
    → Says request type fid e b
unfolding is_request get_type get_fragment_id get_error_code
says request type fid e b code id number =
    let (direction, typed) = code_create_lem request type in
    record {
      directed = rw code direction;
      typed = rw code typed;
      identified = id;
      failing = rw number (get_elem?-error_number e);
    }

pub request-Says :
    (fid : ℕ) (type : MessageType) (b : Buffer)
    → fid < 65536
    → Says true type fid none (Orchestrator.prepare_header fid type b)
unfolding Orchestrator.prepare_header set_fragment_id set_error_code set_code
request-Says fid type b small =
    let bound = code_bound true type in
    says true type fid none _ (ground arith) (ground arith) (ground arith)

pub response-Says :
    (fid : ℕ) (type : MessageType) (e : Option ErrorCode) (b : Buffer)
    → Says false type (u16 fid) e (Control.prepare_header fid type e b)
unfolding Control.prepare_header set_fragment_id set_error_code set_code
response-Says fid type e b =
    let bound = code_bound false type in
    let few = error_number_lt e in
    says false type (u16 fid) e _ (ground arith) (ground arith) (ground arith)

-- A payload that can be sent: it fits the buffer, and a captured packet has a size of its own.
abbrev pub Sendable : (addr_size : ℕ) → Bool → MessageType → Buffer → Type 0
Sendable addr_size request type b =
    (type ≢ noop)
    × (payload_size addr_size request type b ≤ 65523)
    × (type ≡ pcap_data → request ≡ false → 2 ≤ get16 b 8)

-- Messages with the same header behind the length say the same.
pub unchanged-Says :
    (request : Bool) (type : MessageType) (fid : ℕ) (e : Option ErrorCode) (b b' : Buffer)
    → Says request type fid e b
    → ((j : ℕ) → 2 ≤ j → j < 8 → b' j ≡ b j)
    → Says request type fid e b'
unfolding is_request get_type get_fragment_id get_error_code
unchanged-Says request type fid e b b' h same =
    let field : (i : ℕ) → 2 ≤ i → i < 7 → get16 b' i ≡ get16 b i = λ i lo hi.
      ap₂ (λ (x y : ℕ). x + 256 * y) (same i lo (omega arith))
        (same (i + 1) (omega arith) (omega arith)) in
    let code = field 2 (omega arith) (omega arith) in
    record {
      directed = ap code_is_request code ∙ h.directed;
      typed = ap code_to_type code ∙ h.typed;
      identified = field 4 (omega arith) (omega arith) ∙ h.identified;
      failing =
          ap (λ (x : ℕ). get_elem? error_codes x) (field 6 (omega arith) (omega arith)) ∙ h.failing;
    }

-- Finalized, the message is valid and its header says the same.
pub sent-Says :
    (addr_size : ℕ) (request : Bool) (type : MessageType) (fid : ℕ) (e : Option ErrorCode)
    (b : Buffer)
    → Says request type fid e b
    → Sendable addr_size request type b
    → (b' : Buffer) × (finalize addr_size b ≡ some b')
      × (validate addr_size b' ≡ some true)
      × Says request type fid e b'
      × ((j : ℕ) → 2 ≤ j → j < 8 + payload_size addr_size request type b → b' j ≡ b j)
sent-Says addr_size request type fid e b h (real, room, whole) =
    let fits : Fits addr_size type b = record {
      typed = h.typed;
      sent = real;
      room = rw (h.directed) room;
      whole = λ p d. whole p (sym (h.directed) ∙ d);
    } in
    let (b', made, valid, total, same) = finalize-validate addr_size type b fits in
    let header =
      unchanged-Says request type fid e b b' h (λ j lo hi. same j lo (omega (arith, hi))) in
    (b', made, valid, header, λ j lo hi. same j lo (rw (h.directed) hi))

pub same_type : (type : MessageType) → is_type (some type) type ≡ true
unfolding type_number
same_type type = ground arith

-- A valid request for a fragment passes its check.
pub accepted_request :
    (addr_size fid : ℕ) (type : MessageType) (b : Buffer) (check_id check_type : Bool)
    → validate addr_size b ≡ some true
    → Says true type fid none b
    → Control.check_header addr_size fid check_id check_type type b ≡ some none
unfolding Control.check_header
accepted_request addr_size fid type b check_id check_type valid h =
    rw (valid, Control.check_header)
      (rw (h.directed, h.typed, h.identified, h.failing, same_type type) (ground arith))

reported_failing :
    (e : Option ErrorCode) → e ≢ none → reported (some e) ≡ some (some fragment_exception)
reported_failing none h = absurd (h refl)
reported_failing (some x) h = refl

-- A response that a fragment prepares for an error code and finalizes carries that code. The
-- orchestrator's check_header returns NONE for it when the code is NONE, and FRAGMENT_EXCEPTION for
-- every other code, whether or not it checks the id. The fragment's id has 16 bits, the payload fits
-- the buffer, the type is not NOOP.
pub response_passes :
    (addr_size fid : ℕ) (type : MessageType) (e : Option ErrorCode) (b : Buffer) (check_id : Bool)
    → fid < 65536
    → Sendable addr_size false type (Control.prepare_header fid type e b)
    → (b' : Buffer) × (finalize addr_size (Control.prepare_header fid type e b) ≡ some b')
      × (get_error_code b' ≡ some e)
      × (e ≡ none → Orchestrator.check_header addr_size check_id fid type b' ≡ some none)
      × (e ≢ none
          → Orchestrator.check_header addr_size check_id fid type b'
            ≡ some (some fragment_exception))
unfolding Orchestrator.check_header
response_passes addr_size fid type e b check_id small sendable =
    let p = Control.prepare_header fid type e b in
    let (b', made, valid, h, same) =
      sent-Says addr_size false type (u16 fid) e p (response-Says fid type e b) sendable in
    let whole : u16 fid ≡ fid = omega (arith, small) in
    let told = subst (λ (x : ℕ). Says false type x e b') whole h in
    let checked : Orchestrator.check_header addr_size check_id fid type b' ≡ reported (some e) =
      rw (valid, Orchestrator.check_header)
        (rw (told.directed, told.typed, told.identified, told.failing, same_type type)
          (ground arith)) in
    (
      b',
      made,
      told.failing,
      λ clean. checked ∙ ap (λ (x : Option ErrorCode). reported (some x)) clean,
      λ failing. checked ∙ reported_failing e failing,
    )

type_number_lem : (t : MessageType) → get_elem? message_types (type_number t) ≡ some t
unfolding type_number
type_number_lem noop = refl
type_number_lem _ = refl

pub is_type_lem :
    (found : Option MessageType) (type : MessageType)
    → is_type found type ≡ true
    → found ≡ some type
is_type_lem none type h = cc
is_type_lem (some t) type h =
    let same : type_number t ≡ type_number type = ground arith in
    sym (type_number_lem t) ∙ ap (λ (x : ℕ). get_elem? message_types x) same ∙ type_number_lem type

pub reported_lem : (e : Option (Option ErrorCode)) → reported e ≡ some none → e ≡ some none
reported_lem none h = cc
reported_lem (some none) h = refl
reported_lem (some (some e)) h = cc

-- The chain of tests of check_header.
no_guard :
    (valid : Option Bool) (request wrong_id wrong_type : Bool) (e : Option (Option ErrorCode))
    → elim valid [
      | none ↦ none
      | some v ↦
          if not v
          then some (some malformed_message)
          else if not request
          then some (some bad_message_code)
          else if wrong_id
          then some (some bad_fragment_id)
          else if wrong_type
          then some (some bad_message_code)
          else reported e
    ]
      ≡ some none
    → (valid ≡ some true)
      × (request ≡ true)
      × (wrong_id ≡ false)
      × (wrong_type ≡ false)
      × (reported e ≡ some none)
no_guard none request wrong_id wrong_type e h = cc
no_guard (some false) request wrong_id wrong_type e h = cc
no_guard (some true) false wrong_id wrong_type e h = cc
no_guard (some true) true true wrong_type e h = cc
no_guard (some true) true false true e h = cc
no_guard (some true) true false false e h = (refl, refl, refl, refl, h)

-- When a fragment's check_header returns NONE, the message is valid, it is a request, it carries
-- the fragment's id and the expected type as far as these are checked, and it reports no error.
pub check_header_accepts :
    (addr_size fid : ℕ) (check_id check_type : Bool) (type : MessageType) (b : Buffer)
    → Control.check_header addr_size fid check_id check_type type b ≡ some none
    → (validate addr_size b ≡ some true)
      × (is_request b ≡ true)
      × (check_id ≡ true → get_fragment_id b ≡ fid)
      × (check_type ≡ true → get_type b ≡ some type)
      × (get_error_code b ≡ some none)
unfolding Control.check_header
check_header_accepts addr_size fid check_id check_type type b h =
    let (valid, request, id, typed, clean) =
      no_guard (validate addr_size b) (is_request b) (check_id && not (get_fragment_id b == fid))
        (check_type && not (is_type (get_type b) type)) (get_error_code b) h in
    (
      valid,
      request,
      λ checked. ground arith,
      λ checked. is_type_lem (get_type b) type (ground arith),
      reported_lem (get_error_code b) clean,
    )

-- The tests that are left of a valid request without an error.
abbrev guards : (to fid : ℕ) (t type : MessageType) → Bool → Bool → Option (Option ErrorCode)
guards to fid t type check_id check_type =
    if check_id && not (to == fid)
    then some (some bad_fragment_id)
    else if check_type && not (is_type (some t) type)
    then some (some bad_message_code)
    else some none

type_differs : (t type : MessageType) → t ≢ type → is_type (some t) type ≡ false
type_differs t type other = elim (Bool-cases (is_type (some t) type)) [
  | inl same ↦ absurd (other (some-injective _ _ (is_type_lem (some t) type same)))
  | inr apart ↦ apart
]

guards_id :
    (to fid : ℕ) (t type : MessageType) (check_id check_type : Bool)
    → check_id ≡ true
    → to ≢ fid
    → guards to fid t type check_id check_type ≡ some (some bad_fragment_id)
guards_id to fid t type true check_type on apart =
    let other : (to == fid) ≡ false = ground arith in rw (other) refl
guards_id to fid t type false check_type on apart = cc

ids_agree :
    (to fid : ℕ) (check_id : Bool)
    → (check_id ≡ true → to ≡ fid)
    → (check_id && not (to == fid)) ≡ false
ids_agree to fid true ours = let e = ours refl in ground arith
ids_agree to fid false ours = refl

guards_type :
    (to fid : ℕ) (t type : MessageType) (check_id check_type : Bool)
    → (check_id ≡ true → to ≡ fid)
    → check_type ≡ true
    → t ≢ type
    → guards to fid t type check_id check_type ≡ some (some bad_message_code)
guards_type to fid t type check_id true ours on apart =
    rw (ids_agree to fid check_id ours, type_differs t type apart) refl
guards_type to fid t type check_id false ours on apart = cc

guards_pass :
    (to fid : ℕ) (t type : MessageType) (check_id check_type : Bool)
    → (check_id ≡ true → to ≡ fid)
    → (check_type ≡ true → t ≡ type)
    → guards to fid t type check_id check_type ≡ some none
guards_pass to fid t type check_id true ours right =
    let same : is_type (some t) type ≡ true =
      subst (λ (x : MessageType). is_type (some t) x ≡ true) (right refl) (same_type t) in
    rw (ids_agree to fid check_id ours, same) refl
guards_pass to fid t type check_id false ours right = rw (ids_agree to fid check_id ours) refl

-- What a fragment with the id `fid`, waiting for a request of the type `type`, makes of a request
-- that the orchestrator has prepared for `to` with the type `t` and finalized: if it checks the id
-- and is not the one meant, BAD_FRAGMENT_ID; if it checks the type and another one came,
-- BAD_MESSAGE_CODE; and NONE if every check that is on agrees. The id meant has 16 bits, the payload
-- fits the buffer, the type is not NOOP.
pub request_checked :
    (addr_size to fid : ℕ) (t type : MessageType) (check_id check_type : Bool) (b : Buffer)
    → to < 65536
    → Sendable addr_size true t (Orchestrator.prepare_header to t b)
    → (b' : Buffer) × (finalize addr_size (Orchestrator.prepare_header to t b) ≡ some b')
      × (check_id ≡ true
          → to ≢ fid
          → Control.check_header addr_size fid check_id check_type type b'
            ≡ some (some bad_fragment_id))
      × ((check_id ≡ true → to ≡ fid)
          → check_type ≡ true
          → t ≢ type
          → Control.check_header addr_size fid check_id check_type type b'
            ≡ some (some bad_message_code))
      × ((check_id ≡ true → to ≡ fid)
          → (check_type ≡ true → t ≡ type)
          → Control.check_header addr_size fid check_id check_type type b' ≡ some none)
unfolding Control.check_header
request_checked addr_size to fid t type check_id check_type b small sendable =
    let p = Orchestrator.prepare_header to t b in
    let (b', made, valid, h, same) =
      sent-Says addr_size true t to none p (request-Says to t b small) sendable in
    let checked : Control.check_header addr_size fid check_id check_type type b'
        ≡ guards to fid t type check_id check_type =
      rw (valid, Control.check_header) (rw (h.directed, h.typed, h.identified, h.failing) refl) in
    (
      b',
      made,
      λ on apart. checked ∙ guards_id to fid t type check_id check_type on apart,
      λ ours on apart. checked ∙ guards_type to fid t type check_id check_type ours on apart,
      λ ours right. checked ∙ guards_pass to fid t type check_id check_type ours right,
    )

-- Whatever its payload, a message keeps the fields behind its length when it is finalized.
finalize_header :
    (addr_size : ℕ) (b b' : Buffer) (j : ℕ)
    → finalize addr_size b ≡ some b'
    → 2 ≤ j
    → j < 8
    → b' j ≡ b j
unfolding finalize
finalize_header addr_size b b' j h lo hi = elim (Option-cases (compute_total_length addr_size b)) [
  | inl failing ↦ let never = rw (failing, finalize) at h in cc
  | inr (n, found) ↦ elim (Bool-cases (ltb n 12 || ltb 65535 n)) [
    | inl outside ↦ let never = rw (found, finalize, outside) at h in cc
    | inr inside ↦
        let written = rw (found, finalize, inside) at h in
        let long : 12 ≤ n = ground arith in
        sym (ap (λ (f : Buffer). f j) (some-injective _ _ written)) ∙ ground arith
  ]
]

-- A finalized message says what it said.
pub finalize-Says :
    (addr_size : ℕ) (request : Bool) (type : MessageType) (fid : ℕ) (e : Option ErrorCode)
    (b b' : Buffer)
    → finalize addr_size b ≡ some b'
    → Says request type fid e b
    → Says request type fid e b'
finalize-Says addr_size request type fid e b b' made h =
    unchanged-Says request type fid e b b' h
      (λ j lo hi. finalize_header addr_size b b' j made lo hi)
