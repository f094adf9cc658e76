-- ===== src/Control/States/Trace.antt =====
-- What a fragment answers on its way through the states (framework/fragment.cpp).
use Prim.{tt}
use mathlib.Core.Path.{ap₂}
use mathlib.Core.List.{append_assoc, append-nil, map-append}
use mathlib.Core.List.Memᴰ
use cmu_mixnet.Prelude.{
  ℕ, ◌≡◌, refl, Memᴰ, inl, inr, sym, ap, ◌∙◌, Bool, true, false, Option, none, some, List, [], ◌∷◌,
  ◌++◌, map,
}
use cmu_mixnet.ErrorCode.{ErrorCode, ctrl_connection_broken}
use cmu_mixnet.Message.{MessageType, Buffer, get_type, is_request}
use cmu_mixnet.Control.{
  Input, message, Plane, Call, failed_assertion, called, recv_request, send_response,
}
use cmu_mixnet.Control.Testcase.Answers.{Keeps, send_response-Replied, recv_request-Requested}
use cmu_mixnet.Control.States.{
  Fragment, Result, asserted, unfinished, ended, then_do, unless, on_ctrl, receive_ctrl,
  respond_ctrl,
}

-- The types of the requests that are taken, and those of the responses that are sent.
abbrev pub Kinds : Type 0
Kinds = List (Option MessageType) × List (Option MessageType)

abbrev pub nothing : Kinds
nothing = ([], [])

abbrev pub asks : MessageType → Kinds
asks type = (some type ∷ [], [])

abbrev pub tells : MessageType → Kinds
tells type = ([], some type ∷ [])

abbrev pub answers : MessageType → Kinds
answers type = (some type ∷ [], some type ∷ [])

abbrev pub joined : Kinds → Kinds → Kinds
joined ss ts = (ss.0 ++ ts.0, ss.1 ++ ts.1)

-- Between two states the fragment has taken requests of these types from the front of what arrives
-- on its control plane, and has sent responses of these types on it.
pub record Delivered (f g : Fragment) (kinds : Kinds) : Type 0 where
  pub requests : List Buffer
  pub responses : List Buffer
  pub taken : f.ctrl.inbox ≡ map message requests ++ g.ctrl.inbox
  pub appended : g.ctrl.outbox ≡ f.ctrl.outbox ++ responses
  pub asked : map get_type requests ≡ kinds.0
  pub told : map get_type responses ≡ kinds.1
  pub requesting : (b : Buffer) → Memᴰ b requests → is_request b ≡ true
  pub responding : (r : Buffer) → Memᴰ r responses → is_request r ≡ false

-- A method that returns NONE has taken and sent messages of these types.
abbrev pub Sends : Fragment → Result → Kinds → Type 0
Sends f asserted kinds = Unit
Sends f unfinished kinds = Unit
Sends f (ended (some e) g) kinds = Unit
Sends f (ended none g) kinds = Delivered f g kinds

none_in : (v : Bool) (b : Buffer) → Memᴰ b [] → is_request b ≡ v
none_in v b m = absurd (Memᴰ.not-nil m)

one_in : (v : Bool) (x b : Buffer) → is_request x ≡ v → Memᴰ b (x ∷ []) → is_request b ≡ v
one_in v x b h m = ap is_request (Memᴰ.eq_of_singleton m) ∙ h

both_in :
    (v : Bool) (xs ys : List Buffer)
    → ((b : Buffer) → Memᴰ b xs → is_request b ≡ v)
    → ((b : Buffer) → Memᴰ b ys → is_request b ≡ v)
    → (b : Buffer) → Memᴰ b (xs ++ ys)
    → is_request b ≡ v
both_in v xs ys h k b m = elim (Memᴰ.append_cases xs m) [ inl n ↦ h b n | inr n ↦ k b n ]

pub sent_nothing : {f g : Fragment} → g.ctrl ≡ f.ctrl → Delivered f g nothing
sent_nothing {f} {g} e = record {
  requests = [];
  responses = [];
  taken = sym (ap (λ (p : Plane). p.inbox) e);
  appended = ap (λ (p : Plane). p.outbox) e ∙ sym (append-nil _);
  asked = refl;
  told = refl;
  requesting = none_in true;
  responding = none_in false;
}

pub sent_both :
    {f g h : Fragment} {ss ts : Kinds}
    → Delivered f g ss
    → Delivered g h ts
    → Delivered f h (joined ss ts)
sent_both {f} {g} {h} {ss} {ts} a b = record {
  requests = a.requests ++ b.requests;
  responses = a.responses ++ b.responses;
  taken =
      a.taken
      ∙ ap (λ (xs : List Input). map message a.requests ++ xs) (b.taken)
      ∙ sym (append_assoc (map message a.requests) (map message b.requests) h.ctrl.inbox)
      ∙ ap (λ (xs : List Input). xs ++ h.ctrl.inbox)
          (sym (map-append message a.requests b.requests));
  appended =
      b.appended
      ∙ ap (λ (xs : List Buffer). xs ++ b.responses) (a.appended)
      ∙ append_assoc f.ctrl.outbox a.responses b.responses;
  asked = map-append get_type a.requests b.requests ∙ ap₂ ◌++◌ (a.asked) (b.asked);
  told = map-append get_type a.responses b.responses ∙ ap₂ ◌++◌ (a.told) (b.told);
  requesting = both_in true a.requests b.requests a.requesting b.requesting;
  responding = both_in false a.responses b.responses a.responding b.responding;
}

-- A step and what follows it.
pub then_do-Sends :
    (f : Fragment) (r : Result) (k : Fragment → Result) (ss ts : Kinds)
    → Sends f r ss
    → ((g : Fragment) → Sends g (k g) ts)
    → Sends f (then_do r k) (joined ss ts)
then_do-Sends f asserted k ss ts a b = tt
then_do-Sends f unfinished k ss ts a b = tt
then_do-Sends f (ended (some e) g) k ss ts a b = tt
then_do-Sends f (ended none g) k ss ts a b = after (k g) (b g)
  where
    after : (r : Result) → Sends g r ts → Sends f r (joined ss ts)
    after asserted s = tt
    after unfinished s = tt
    after (ended (some e) h) s = tt
    after (ended none h) s = sent_both a s

pub unless-Sends :
    (ok : Bool) (e : ErrorCode) (f : Fragment) (r : Result) (ts : Kinds)
    → Sends f r ts
    → Sends f (unless ok e f r) ts
unless-Sends true e f r ts s = s
unless-Sends false e f r ts s = tt

pub receive_ctrl-Sends :
    (addr_size : ℕ) (check_id : Bool) (type : MessageType) (f : Fragment)
    → Sends f (receive_ctrl addr_size check_id type f) (asks type)
unfolding receive_ctrl
receive_ctrl-Sends addr_size check_id type f = by_call _ refl
  where
    by_call :
        (k : Call)
        → recv_request addr_size f.fid check_id true type ctrl_connection_broken f.ctrl ≡ k
        → Sends f (on_ctrl f k) (asks type)
    by_call failed_assertion h = tt
    by_call (called (some e) p) h = tt
    by_call (called none p) h =
        let got =
          recv_request-Requested addr_size f.fid check_id type ctrl_connection_broken f.ctrl p h in
        record {
          requests = p.buffer ∷ [];
          responses = [];
          taken = got.front;
          appended = got.silent ∙ sym (append-nil _);
          asked = ap (λ (x : Option MessageType). x ∷ []) (got.typed);
          told = refl;
          requesting = λ b. one_in true p.buffer b (got.requests);
          responding = none_in false;
        }

pub respond_ctrl-Sends :
    (addr_size : ℕ) (type : MessageType) (fill : Buffer → Option ErrorCode × Buffer) (f : Fragment)
    → Keeps fill
    → Sends f (respond_ctrl addr_size type fill f) (tells type)
unfolding respond_ctrl
respond_ctrl-Sends addr_size type fill f keeps = by_call _ refl
  where
    by_call :
        (k : Call)
        → send_response addr_size f.fid type none fill f.ctrl ≡ k
        → Sends f (on_ctrl f k) (tells type)
    by_call failed_assertion h = tt
    by_call (called (some e) p) h = tt
    by_call (called none p) h =
        let (r, replied) = send_response-Replied addr_size f.fid type none fill f.ctrl p keeps h in
        record {
          requests = [];
          responses = r ∷ [];
          taken = sym (replied.unread);
          appended = replied.last;
          asked = refl;
          told = ap (λ (x : Option MessageType). x ∷ []) (replied.says.typed);
          requesting = none_in true;
          responding = λ b. one_in false r b (replied.says.directed);
        }
