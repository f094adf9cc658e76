-- ===== src/Control/Testcase/Answers.antt =====
-- The requests of a testcase and their answers (recv_request, send_response and
-- run_state_run_testcase of framework/fragment.cpp).
use mathlib.Core.Path.{ap₂}
use cmu_mixnet.Prelude.{
  ℕ, ◌≤◌, ◌<◌, ◌≡◌, refl, sym, ap, ◌∙◌, inl, inr, Bool, true, false, Option, none, some, List, [],
  ◌∷◌, ◌++◌, Option-cases, u16,
}
use cmu_mixnet.ErrorCode.{ErrorCode}
use cmu_mixnet.Message.{MessageType, Buffer, finalize, is_request, get_type, get_fragment_id}
use cmu_mixnet.Headers.{check_header_accepts, Says, response-Says, finalize-Says, unchanged-Says}
use cmu_mixnet.Control.{
  Input, message, broken, Plane, Call, failed_assertion, called, prepare_header, check_header,
  recv_blocking, send_blocking, recv_request, send_response, checked, sent_call, hand_over,
  send_filled,
}

plane_of : Call → Plane → Plane
plane_of failed_assertion p = p
plane_of (called e p') p = p'

-- A request that has been received: it was the head of the inbox and stands in the buffer.
pub record Asked (fid : ℕ) (p p' : Plane) : Type 0 where
  pub head : p.inbox ≡ message p'.buffer ∷ p'.inbox
  pub unsent : p'.outbox ≡ p.outbox
  pub request : is_request p'.buffer ≡ true
  pub addressed : get_fragment_id p'.buffer ≡ fid

-- One receive, by what the inbox holds.
abbrev take_input : ErrorCode → Plane → List Input → Option ErrorCode × Plane
take_input broke p [] = (some broke, p)
take_input broke p (broken e ∷ rest) = (some e, record p { inbox = rest })
take_input broke p (message b ∷ rest) = (none, record p { buffer = b; inbox = rest })

took :
    (broke : ErrorCode) (p : Plane) (xs : List Input)
    → p.inbox ≡ xs
    → recv_blocking broke p ≡ take_input broke p xs
unfolding recv_blocking
took broke p [] e = rw e refl
took broke p (broken x ∷ rest) e = rw e refl
took broke p (message b ∷ rest) e = rw e refl

accepted_one :
    (r : Option (Option ErrorCode)) (q p' : Plane)
    → elim r [ none ↦ failed_assertion | some e ↦ called e q ] ≡ called none p'
    → (r ≡ some none) × (q ≡ p')
accepted_one none q p' h = cc
accepted_one (some none) q p' h = (refl, cc)
accepted_one (some (some e)) q p' h = cc

pub recv_request-Asked :
    (addr_size fid : ℕ) (check_type : Bool) (type : MessageType) (broke : ErrorCode) (p p' : Plane)
    (xs : List Input)
    → p.inbox ≡ xs
    → recv_request addr_size fid true check_type type broke p ≡ called none p'
    → Asked fid p p'
unfolding recv_request checked
recv_request-Asked addr_size fid check_type type broke p p' xs e h =
    let at_once = ap (checked addr_size fid true check_type type) (took broke p xs e) in
    by_input xs e (sym at_once ∙ h)
  where
    by_input :
        (xs : List Input)
        → p.inbox ≡ xs
        → checked addr_size fid true check_type type (take_input broke p xs) ≡ called none p'
        → Asked fid p p'
    by_input [] e h = cc
    by_input (broken x ∷ rest) e h = cc
    by_input (message b ∷ rest) e h =
        let q : Plane = record p { buffer = b; inbox = rest } in
        let (accepted, same) =
          accepted_one (check_header addr_size fid true check_type type b) q p' h in
        let (valid, request, id, typed, clean) =
          check_header_accepts addr_size fid true check_type type b accepted in
        let held : b ≡ p'.buffer = ap (λ (x : Plane). x.buffer) same in
        record {
          head =
              e
              ∙ ap₂ (λ (x : Buffer) (xs : List Input). message x ∷ xs) held
                  (ap (λ (x : Plane). x.inbox) same);
          unsent = sym (ap (λ (x : Plane). x.outbox) same);
          request = rw (sym held) request;
          addressed = rw (sym held) (id refl);
        }

-- A response that has been sent: the last message of the outbox.
pub record Replied (fid : ℕ) (type : MessageType) (e : Option ErrorCode) (p p' : Plane) (r : Buffer)
    : Type 0 where
  pub unread : p'.inbox ≡ p.inbox
  pub last : p'.outbox ≡ p.outbox ++ r ∷ []
  pub says : Says false type (u16 fid) e r

-- One send, by the next answer.
abbrev take_answer : Plane → List (Option ErrorCode) → Option ErrorCode × Plane
take_answer p [] = (none, record p { outbox = p.outbox ++ p.buffer ∷ [] })
take_answer p (none ∷ rest) =
    (none, record p { answers = rest; outbox = p.outbox ++ p.buffer ∷ [] })
take_answer p (some e ∷ rest) = (some e, record p { answers = rest })

gave :
    (p : Plane) (xs : List (Option ErrorCode)) → p.answers ≡ xs → send_blocking p ≡ take_answer p xs
unfolding send_blocking
gave p [] e = rw e refl
gave p (none ∷ rest) e = rw e refl
gave p (some x ∷ rest) e = rw e refl

sent_one :
    (p p' : Plane)
    → sent_call (send_blocking p) ≡ called none p'
    → (p'.inbox ≡ p.inbox) × (p'.outbox ≡ p.outbox ++ p.buffer ∷ [])
sent_one p p' h = by_answer p.answers (sym (ap sent_call (gave p p.answers refl)) ∙ h)
  where
    by_answer :
        (xs : List (Option ErrorCode))
        → sent_call (take_answer p xs) ≡ called none p'
        → (p'.inbox ≡ p.inbox) × (p'.outbox ≡ p.outbox ++ p.buffer ∷ [])
    by_answer [] h =
        let same = (accepted_one (some none) _ p' h).1 in
        (sym (ap (λ (x : Plane). x.inbox) same), sym (ap (λ (x : Plane). x.outbox) same))
    by_answer (none ∷ rest) h =
        let same = (accepted_one (some none) _ p' h).1 in
        (sym (ap (λ (x : Plane). x.inbox) same), sym (ap (λ (x : Plane). x.outbox) same))
    by_answer (some x ∷ rest) h = cc

-- The lambda leaves the header alone.
abbrev pub Keeps : (Buffer → Option ErrorCode × Buffer) → Type 0
Keeps fill = (b : Buffer) (j : ℕ) → 2 ≤ j → j < 8 → (fill b).1 j ≡ b j

pub send_response-Replied :
    (addr_size fid : ℕ) (type : MessageType) (e : Option ErrorCode)
    (fill : Buffer → Option ErrorCode × Buffer) (p p' : Plane)
    → Keeps fill
    → send_response addr_size fid type e fill p ≡ called none p'
    → (r : Buffer) × Replied fid type e p p' r
unfolding send_response send_filled hand_over
send_response-Replied addr_size fid type e fill p p' keeps h =
    let m = prepare_header fid type e p.buffer in
    let b = (fill m).1 in
    let says =
      unchanged-Says false type (u16 fid) e m b (response-Says fid type e p.buffer) (keeps m) in
    let after : Option ErrorCode → Call = λ o. send_filled addr_size p (o, b) in
    elim (Option-cases (fill m).0) [
      | inr (x, bad) ↦ let never = sym (ap after bad) ∙ h in cc
      | inl good ↦ elim (Option-cases (finalize addr_size b)) [
        | inl failing ↦ let never = sym (ap (hand_over p) failing) ∙ sym (ap after good) ∙ h in cc
        | inr (b', made) ↦
            let q : Plane = record p { buffer = b' } in
            let done : sent_call (send_blocking q) ≡ called none p' =
              sym (ap (hand_over p) made) ∙ sym (ap after good) ∙ h in
            let (unread, last) = sent_one q p' done in
            (
              b',
              record {
                unread = unread;
                last = last;
                says = finalize-Says addr_size false type (u16 fid) e b b' made says;
              },
            )
      ]
    ]

-- A receive with the check of the type: the head of the inbox is a request of the type, and nothing
-- is sent.
pub record Requested (type : MessageType) (p p' : Plane) : Type 0 where
  pub front : p.inbox ≡ message p'.buffer ∷ p'.inbox
  pub silent : p'.outbox ≡ p.outbox
  pub requests : is_request p'.buffer ≡ true
  pub typed : get_type p'.buffer ≡ some type

pub recv_request-Requested :
    (addr_size fid : ℕ) (check_id : Bool) (type : MessageType) (broke : ErrorCode) (p p' : Plane)
    → recv_request addr_size fid check_id true type broke p ≡ called none p'
    → Requested type p p'
unfolding recv_request checked
recv_request-Requested addr_size fid check_id type broke p p' h =
    let at_once = ap (checked addr_size fid check_id true type) (took broke p p.inbox refl) in
    by_input p.inbox refl (sym at_once ∙ h)
  where
    by_input :
        (xs : List Input)
        → p.inbox ≡ xs
        → checked addr_size fid check_id true type (take_input broke p xs) ≡ called none p'
        → Requested type p p'
    by_input [] e h = cc
    by_input (broken x ∷ rest) e h = cc
    by_input (message b ∷ rest) e h =
        let q : Plane = record p { buffer = b; inbox = rest } in
        let (accepted, same) =
          accepted_one (check_header addr_size fid check_id true type b) q p' h in
        let (valid, request, id, typed, clean) =
          check_header_accepts addr_size fid check_id true type b accepted in
        let held : b ≡ p'.buffer = ap (λ (x : Plane). x.buffer) same in
        record {
          front =
              e
              ∙ ap₂ (λ (x : Buffer) (xs : List Input). message x ∷ xs) held
                  (ap (λ (x : Plane). x.inbox) same);
          silent = sym (ap (λ (x : Plane). x.outbox) same);
          requests = rw (sym held) request;
          typed = rw (sym held) (typed refl);
        }
