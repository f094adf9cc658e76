-- ===== src/Orchestrator/Asking.antt =====
-- What the loop over the fragments has sent when it returns NONE.
use Prim.{tt}
use cmu_mixnet.Prelude.{
  ℕ, zero, suc, ◌+◌, ◌≤◌, ◌<◌, ◌≡◌, inl, inr, true, Option, none, some, List, [], ◌∷◌, arith, ◌==◌,
  Option-cases, Bool-cases, subst, length,
}
use cmu_mixnet.ErrorCode.{ErrorCode}
use cmu_mixnet.Message.{
  MessageType, Buffer, is_request, get_type, get_fragment_id, get_error_code, set_fragment_id,
}
use cmu_mixnet.Headers.{Says, request-Says, unchanged-Says, finalize-Says}
use cmu_mixnet.Orchestrator.{prepare_header}
use cmu_mixnet.Orchestrator.Foreach.{
  Fd, Sending, Sent, failed_assertion, sent, request_for, send_each, sent_in_time, also_sent,
  foreach_fragment_send_generic,
}

-- The messages to the descriptors, the first of them that of fragment `idx`: a request for each
-- fragment, which the socket has taken whole.
pub data Asked (sending : ℕ → Sending) (type : MessageType)
    : ℕ → List Fd → List (Fd × Buffer) → Type 0 where
  all_asked : {idx : ℕ} → Asked sending type idx [] []
  asked :
      {idx : ℕ} {fds : List Fd} {xs : List (Fd × Buffer)} (fd : Fd) (message : Buffer)
      → Says true type idx none message
      → (sending idx).result ≡ none
      → Asked sending type (idx + 1) fds xs
      → Asked sending type idx (fd ∷ fds) ((fd, message) ∷ xs)

-- A lambda that writes to the payload only.
abbrev pub FillsPayload : (ℕ → Buffer → Option Buffer) → Type 0
FillsPayload fill =
    (idx : ℕ) (b b' : Buffer) → fill idx b ≡ some b' → (j : ℕ) → 2 ≤ j → j < 8 → b' j ≡ b j

pub readdressed-Says :
    (type : MessageType) (fid fid' : ℕ) (b : Buffer)
    → fid' < 65536
    → Says true type fid none b
    → Says true type fid' none (set_fragment_id fid' b)
unfolding set_fragment_id is_request get_type get_fragment_id get_error_code
readdressed-Says type fid fid' b small h = record {
  directed = h.directed;
  typed = h.typed;
  identified = ground arith;
  failing = h.failing;
}

request_for-Says :
    (addr_size : ℕ) (fill : ℕ → Buffer → Option Buffer) (type : MessageType) (idx fid : ℕ)
    (b message : Buffer)
    → FillsPayload fill
    → idx < 65536
    → Says true type fid none b
    → request_for addr_size fill idx b ≡ some message
    → Says true type idx none message
unfolding request_for
request_for-Says addr_size fill type idx fid b message fills small h made =
    elim (Option-cases (fill idx (set_fragment_id idx b))) [
      | inl e ↦ let never = rw (e, request_for) at made in cc
      | inr (filled, e) ↦
          let made' = rw (e, request_for) at made in
          let same = fills idx (set_fragment_id idx b) filled e in
          finalize-Says addr_size true type idx none filled message made' (
            unchanged-Says true type idx none (set_fragment_id idx b) filled
              (readdressed-Says type fid idx b small h) same)
    ]

-- The parts of an outcome.
abbrev Fine : (ℕ → Sending) → MessageType → ℕ → List Fd → Sent → Type 0
Fine sending type idx fds failed_assertion = Unit
Fine sending type idx fds (sent (some e) pending b xs) = Unit
Fine sending type idx fds (sent none pending b xs) = pending ≡ 0 → Asked sending type idx fds xs

also-Fine :
    (sending : ℕ → Sending) (type : MessageType) (idx : ℕ) (fd : Fd) (fds : List Fd)
    (message : Buffer) (o : Sent)
    → Says true type idx none message
    → (sending idx).result ≡ none
    → Fine sending type (idx + 1) fds o
    → Fine sending type idx (fd ∷ fds) (also_sent (fd, message) o)
also-Fine sending type idx fd fds message failed_assertion h a f = f
also-Fine sending type idx fd fds message (sent (some e) pending b xs) h a f = f
also-Fine sending type idx fd fds message (sent none pending b xs) h a f =
    λ p. asked fd message h a (f p)

-- An error stays.
abbrev Failed : Sent → Type 0
Failed failed_assertion = Unit
Failed (sent (some e) pending b xs) = Unit
Failed (sent none pending b xs) = ⊥

Failed-Fine :
    (sending : ℕ → Sending) (type : MessageType) (idx : ℕ) (fds : List Fd) (o : Sent)
    → Failed o
    → Fine sending type idx fds o
Failed-Fine sending type idx fds failed_assertion h = h
Failed-Fine sending type idx fds (sent (some e) pending b xs) h = h
Failed-Fine sending type idx fds (sent none pending b xs) h = absurd h

also-Failed : (x : Fd × Buffer) (o : Sent) → Failed o → Failed (also_sent x o)
also-Failed x failed_assertion h = h
also-Failed x (sent (some e) pending b xs) h = h
also-Failed x (sent none pending b xs) h = h

module _ (addr_size : ℕ) (fill : ℕ → Buffer → Option Buffer) (sending : ℕ → Sending) where
  send_each-Failed :
      (idx : ℕ) (fds : List Fd) (timer : ℕ) (e : ErrorCode) (b : Buffer)
      → Failed (send_each addr_size fill sending idx fds timer (some e) b)
  unfolding send_each
  send_each-Failed idx [] timer e b = tt
  send_each-Failed idx (fd ∷ fds) zero e b = tt
  send_each-Failed idx (fd ∷ fds) (suc t) e b =
      elim (Option-cases (request_for addr_size fill idx b)) [
        | inl failing ↦ rw (failing, send_each) tt
        | inr (message, made) ↦
            rw (made, send_each)
              (also-Failed (fd, message) _
                (send_each-Failed (idx + 1) fds (sending idx).timer e message))
      ]

  send_each-Fine :
      (type : MessageType) (idx fid : ℕ) (fds : List Fd) (timer : ℕ) (b : Buffer)
      → FillsPayload fill
      → idx + length fds ≤ 65535
      → Says true type fid none b
      → Fine sending type idx fds (send_each addr_size fill sending idx fds timer none b)
  unfolding send_each
  send_each-Fine type idx fid [] timer b fills small h = λ p. all_asked
  send_each-Fine type idx fid (fd ∷ fds) zero b fills small h = λ p. absurd (omega arith)
  send_each-Fine type idx fid (fd ∷ fds) (suc t) b fills small h =
      elim (Option-cases (request_for addr_size fill idx b)) [
        | inl failing ↦ rw (failing, send_each) tt
        | inr (message, made) ↦
            let told =
              request_for-Says addr_size fill type idx fid b message fills (omega arith) h made in
            elim (Option-cases (sending idx).result) [
              | inl fine ↦
                  rw (made, send_each, fine)
                    (also-Fine sending type idx fd fds message _ told fine (
                      send_each-Fine type (idx + 1) idx fds (sending idx).timer message fills
                        (omega arith) told))
              | inr (code, failing) ↦
                  rw (made, send_each, failing)
                    (Failed-Fine sending type idx (fd ∷ fds) _ (
                      also-Failed (fd, message) _
                        (send_each-Failed (idx + 1) fds (sending idx).timer code message)))
            ]
      ]

in_time :
    (sending : ℕ → Sending) (type : MessageType) (fds : List Fd) (o : Sent) (b : Buffer)
    (pending : ℕ) (xs : List (Fd × Buffer))
    → Fine sending type 0 fds o
    → sent_in_time o ≡ sent none pending b xs
    → Asked sending type 0 fds xs
in_time sending type fds failed_assertion b pending xs f h = cc
in_time sending type fds (sent (some e) n b' ys) b pending xs f h = cc
in_time sending type fds (sent none n b' ys) b pending xs f h = elim (Bool-cases (n == 0)) [
  | inl reached ↦
      let same = rw (reached) at h in
      let lists : ys ≡ xs = cc in subst (Asked sending type 0 fds) lists (f (ground arith))
  | inr left ↦ let never = rw (left) at h in cc
]

-- When the loop over fewer than 65536 fragments returns NONE, and the lambda writes to the payload
-- only, it has sent each fragment, in order and on the fragment's own descriptor, one message that
-- says it is a request of that type for that fragment without an error, and every sending has
-- returned NONE.
pub foreach_fragment_send_generic_lem :
    (addr_size : ℕ) (fds : List Fd) (type : MessageType) (fill : ℕ → Buffer → Option Buffer)
    (timer : ℕ) (sending : ℕ → Sending) (b b' : Buffer) (pending : ℕ) (xs : List (Fd × Buffer))
    → FillsPayload fill
    → length fds < 65536
    → foreach_fragment_send_generic addr_size fds type fill timer sending b
      ≡ sent none pending b' xs
    → Asked sending type 0 fds xs
unfolding foreach_fragment_send_generic
foreach_fragment_send_generic_lem addr_size fds type fill timer sending b b' pending xs fills small
      h =
    in_time sending type fds
      (send_each addr_size fill sending 0 fds timer none (prepare_header 0 type b)) b' pending xs
      (send_each-Fine addr_size fill sending type 0 0 fds timer (prepare_header 0 type b) fills
        (omega arith) (request-Says 0 type b (omega arith)))
      h
