-- ===== src/Control/Testcase/Session.antt =====
-- A testcase as a conversation (run_state_run_testcase of framework/fragment.cpp).
use Prim.{tt}
use mathlib.Core.Option.{some-injective}
use mathlib.Core.List.{append_assoc}
use cmu_mixnet.Prelude.{
  ℕ, ◌≡◌, ◌≢◌, u16, refl, sym, ap, subst, ◌∙◌, inl, inr, Bool, true, false, not, ◌&&◌, Option, none,
  some, List, [], ◌∷◌, ◌++◌, ◌==◌, Bool-cases, Option-cases, if◌then◌else◌, map,
}
use cmu_mixnet.ErrorCode.{ErrorCode, fragment_exception, recv_wait_timeout, ctrl_connection_broken}
use cmu_mixnet.Message.{
  MessageType, noop, change_link_state, pcap_subscription, send_packet, end_testcase, Buffer, get16,
  get_type, is_request, get_fragment_id,
}
use cmu_mixnet.Networking.{Outcome, returned}
use cmu_mixnet.Control.{
  Input, message, Plane, Call, failed_assertion, called, recv_request, no_payload,
}
use cmu_mixnet.Control.Tasks.{
  Context, Turn, Served, serve, task_update_link_state, is_clean, link_served,
}
use cmu_mixnet.Control.Testcase.{
  answer, turn_error, Step, stop, next, after_answer, after_switch, after_request, turn_step,
  run_testcase, after_turn,
}
use cmu_mixnet.Control.Testcase.Answers.{Asked, recv_request-Asked, send_response-Replied}

-- A response to a request: the same type, from the fragment that was asked.
pub record Reply (fid : ℕ) (b r : Buffer) : Type 0 where
  pub asked : is_request b ≡ true
  pub asked_here : get_fragment_id b ≡ fid
  pub answers : is_request r ≡ false
  pub answers_here : get_fragment_id r ≡ u16 fid
  pub same_type : get_type r ≡ get_type b

-- Requests and their responses, the last request being END_TESTCASE and no other one.
pub data Session (fid : ℕ) : List Buffer → List Buffer → Type 0 where
  ending :
      {b r : Buffer}
      → Reply fid b r
      → get_type b ≡ some end_testcase
      → Session fid (b ∷ []) (r ∷ [])
  asking :
      {b r : Buffer} {bs rs : List Buffer}
      → Reply fid b r
      → get_type b ≢ some end_testcase
      → Session fid bs rs
      → Session fid (b ∷ bs) (r ∷ rs)

-- What the `switch` decides: whoever is not answered has failed, and only END_TESTCASE ends.
abbrev Decided : Option MessageType → Served → Type 0
Decided type s =
    (s.do_respond ≡ false → s.error ≢ none)
    × (s.ends ≡ true → type ≡ some end_testcase)
    × (s.ends ≡ false → type ≢ some end_testcase)

unclean : (e : Option ErrorCode) → is_clean e ≡ false → e ≢ none
unclean none h f = cc
unclean (some e) h f = cc

link-Decided :
    (s : Served) (u : Option (Option ErrorCode × Buffer × Context))
    → link_served u ≡ some s
    → Decided (some change_link_state) s
link-Decided s none h = cc
link-Decided s (some (e, b, c)) h =
    subst (Decided _) (some-injective _ _ h) (λ e. cc, λ e. cc, λ e. λ f. cc)

serve-Decided :
    (t : Turn) (type : Option MessageType) (b : Buffer) (c : Context) (s : Served)
    → serve t type b c ≡ some s
    → Decided type s
unfolding serve
serve-Decided t none b c s h = cc
serve-Decided t (some change_link_state) b c s h =
    link-Decided s (task_update_link_state t (get16 b 8) (not (b 10 == 0)) b c) h
serve-Decided t (some pcap_subscription) b c s h =
    subst (Decided _) (some-injective _ _ h) (λ e. cc, λ e. cc, λ e. λ f. cc)
serve-Decided t (some send_packet) b c s h =
    subst (Decided _) (some-injective _ _ h) (λ e. cc, λ e. cc, λ e. λ f. cc)
serve-Decided t (some end_testcase) b c s h =
    subst (Decided _) (some-injective _ _ h) (unclean _, λ e. refl, λ e. cc)
serve-Decided t (some noop) b c s h =
    subst (Decided _) (some-injective _ _ h) (λ e. λ f. cc, λ e. cc, λ e. λ f. cc)
serve-Decided t (some _) b c s h =
    subst (Decided _) (some-injective _ _ h) (λ e. λ f. cc, λ e. cc, λ e. λ f. cc)

-- What a turn that goes on, or that ends the testcase well, has done.
record Turned (fid : ℕ) (p p' : Plane) (over : Bool) : Type 0 where
  b : Buffer
  r : Buffer
  head : p.inbox ≡ message b ∷ p'.inbox
  last : p'.outbox ≡ p.outbox ++ r ∷ []
  reply : Reply fid b r
  at_end : over ≡ true → get_type b ≡ some end_testcase
  before : over ≡ false → get_type b ≢ some end_testcase

-- The answer of a turn, when no error is left.
answered-Turned :
    (addr_size fid : ℕ) (s : Served) (p p' p'' : Plane)
    → Asked fid p p'
    → Decided (get_type p'.buffer) s
    → answer addr_size fid (get_type p'.buffer) s p' ≡ called none p''
    → Turned fid p p'' s.ends
unfolding answer
answered-Turned addr_size fid s p p' p'' a (responds, at_end, before) h =
    elim (Option-cases (get_type p'.buffer)) [
      | inl unknown ↦ let never = rw unknown at h in cc
      | inr (type, known) ↦ elim (Bool-cases s.do_respond) [
        | inl responded ↦
            let q : Plane = record p' { buffer = s.buffer } in
            let (r, done) =
              send_response-Replied addr_size fid type s.error no_payload q p'' (λ m j lo hi. refl)
                (rw (known, responded) at h) in
            record {
              b = p'.buffer;
              r = r;
              head = a.head ∙ ap (λ (xs : List Input). message p'.buffer ∷ xs) (sym (done.unread));
              last = done.last ∙ ap (λ (xs : List Buffer). xs ++ r ∷ []) (a.unsent);
              reply = record {
                asked = a.request;
                asked_here = a.addressed;
                answers = done.says.directed;
                answers_here = done.says.identified;
                same_type = done.says.typed ∙ sym known;
              };
              at_end = at_end;
              before = before;
            }
        | inr silent ↦ let same = rw (known, silent) at h in absurd (responds silent cc)
      ]
    ]

-- Where a turn has led.
abbrev Led : ℕ → Plane → Step → Type 0
Led fid p (stop none p' c) = Unit
Led fid p (stop (some none) p' c) = Turned fid p p' true
Led fid p (stop (some (some e)) p' c) = Unit
Led fid p (next p' c) = Turned fid p p' false

no_error :
    (died : Bool) (e : Option ErrorCode)
    → (if died then some fragment_exception else e) ≡ none
    → e ≡ none
no_error true e h = cc
no_error false e h = h

answered-Led :
    (addr_size fid : ℕ) (t : Turn) (s : Served) (p p' : Plane) (k : Call)
    → Asked fid p p'
    → Decided (get_type p'.buffer) s
    → answer addr_size fid (get_type p'.buffer) s p' ≡ k
    → Led fid p (after_answer t s k p')
unfolding after_answer
answered-Led addr_size fid t s p p' failed_assertion a d h = tt
answered-Led addr_size fid t s p p' (called e p'') a d h = elim (Option-cases (turn_error t s e)) [
  | inr (x, died) ↦ rw (died, after_answer, Led) tt
  | inl well ↦
      let fine : e ≡ none = no_error (not s.ends && t.one_exited) e well in
      let done = answered-Turned addr_size fid s p p' p'' a d (rw fine at h) in
      elim (Bool-cases s.ends) [
        | inl over ↦ rw (well, after_answer, over) (rw over at done)
        | inr more ↦ rw (well, after_answer, more) (rw more at done)
      ]
]

switched-Led :
    (addr_size fid : ℕ) (t : Turn) (p p' : Plane) (c : Context) (o : Option Served)
    → Asked fid p p'
    → serve t (get_type p'.buffer) p'.buffer c ≡ o
    → Led fid p (after_switch addr_size fid t p' c o)
unfolding after_switch
switched-Led addr_size fid t p p' c none a h = tt
switched-Led addr_size fid t p p' c (some s) a h =
    answered-Led addr_size fid t s p p' _ a (serve-Decided t (get_type p'.buffer) p'.buffer c s h)
      refl

requested-Led :
    (addr_size fid : ℕ) (t : Turn) (c : Context) (p : Plane) (k : Call)
    → recv_request addr_size fid true false noop ctrl_connection_broken p ≡ k
    → Led fid p (after_request addr_size fid t c p k)
unfolding after_request
requested-Led addr_size fid t c p failed_assertion h = tt
requested-Led addr_size fid t c p (called (some recv_wait_timeout) p') h = tt
requested-Led addr_size fid t c p (called (some _) p') h = tt
requested-Led addr_size fid t c p (called none p') h =
    switched-Led addr_size fid t p p' c _
      (recv_request-Asked addr_size fid false noop ctrl_connection_broken p p' p.inbox refl h) refl

-- The messages taken from `p` and sent by `p'` make up a session.
abbrev pub Conversed : ℕ → Plane → Plane → Type 0
Conversed fid p p' =
    (requests : List Buffer) × (responses : List Buffer) × (p.inbox
      ≡ map message requests ++ p'.inbox)
    × (p'.outbox ≡ p.outbox ++ responses)
    × Session fid requests responses

after_turn-Conversed :
    (fid : ℕ) (loop : Plane → Context → Option Outcome × Plane × Context) (p : Plane) (s : Step)
    → ((q : Plane) (c : Context)
        → (loop q c).0 ≡ some (returned none)
        → Conversed fid q (loop q c).1)
    → Led fid p s
    → (after_turn loop s).0 ≡ some (returned none)
    → Conversed fid p (after_turn loop s).1
unfolding after_turn
after_turn-Conversed fid loop p (stop none p' c) converses led h = cc
after_turn-Conversed fid loop p (stop (some (some e)) p' c) converses led h = cc
after_turn-Conversed fid loop p (stop (some none) p' c) converses led h =
    (led.b ∷ [], led.r ∷ [], led.head, led.last, ending (led.reply) (led.at_end refl))
after_turn-Conversed fid loop p (next p' c) converses led h =
    let (bs, rs, taken, sent, session) = converses p' c h in
    (
      led.b ∷ bs,
      led.r ∷ rs,
      led.head ∙ ap (λ (xs : List Input). message led.b ∷ xs) taken,
      sent ∙ ap (λ (xs : List Buffer). xs ++ rs) (led.last) ∙ append_assoc p.outbox (led.r ∷ []) rs,
      asking (led.reply) (led.before refl) session,
    )

-- When the loop of a testcase returns NONE, the fragment has taken requests from the front of its
-- inbox and sent one response for each, in order, of the same type and under its own id; the last
-- of the requests is END_TESTCASE and the earlier ones are not.
pub run_testcase-Session :
    (addr_size fid : ℕ) (turns : List Turn) (p : Plane) (c : Context)
    → (run_testcase addr_size fid turns p c).0 ≡ some (returned none)
    → Conversed fid p (run_testcase addr_size fid turns p c).1
unfolding run_testcase turn_step
run_testcase-Session addr_size fid [] p c h = cc
run_testcase-Session addr_size fid (t ∷ ts) p c h =
    after_turn-Conversed fid (run_testcase addr_size fid ts) p (turn_step addr_size fid t p c)
      (λ q c' ends. run_testcase-Session addr_size fid ts q c' ends)
      (requested-Led addr_size fid t c p _ refl) h
