-- ===== src/Control/States/Answers.antt =====
-- What a fragment has answered when its state machine is done (fragment::run of
-- framework/fragment.cpp).
use Prim.{tt}
use cmu_mixnet.Prelude.{
  ℕ, ◌≡◌, true, drop, refl, subst, ◌∙◌, false, Option, none, some, List, [], ◌∷◌,
}
use cmu_mixnet.Message.{MessageType, Buffer, get_type}
use cmu_mixnet.Message
use cmu_mixnet.Networking.{Outcome, returned, running}
use cmu_mixnet.ErrorCode.{ctrl_connection_broken}
use cmu_mixnet.Control.{
  Plane, Call, failed_assertion, called, recv_request, send_response, no_payload,
}
use cmu_mixnet.Control.Tasks.{Context}
use cmu_mixnet.Control.Testcase.Session.{Conversed, run_testcase-Session}
use cmu_mixnet.Control.States.{
  Fragment, Surroundings, Result, asserted, unfinished, ended, ended_loop, then_do, on_ctrl,
  respond_ctrl, run_state_run_testcase, run_state_do_shutdown,
}
use cmu_mixnet.Control.States.Trace.{
  Kinds, nothing, answers, joined, Delivered, Sends, sent_nothing, sent_both,
}
use cmu_mixnet.Control.States.Conversation.{
  setup_ctrl-Sends, setup_pcap-Sends, create_topology-Sends, start_mixnet_server-Sends,
  start_mixnet_client-Sends, resolve-Sends, start_testcase-Sends, shutdown-Sends,
}
use cmu_mixnet.Control.States.Run.{
  State, setup_ctrl, setup_pcap, create_topology, start_mixnet_server, start_mixnet_client,
  resolve_mixnet_connections, start_testcase, run_testcase, shutdown, End, run_state, next_state,
  is_done, after_state, run_from, run,
}

-- A method, or the machine from a state on, has taken and answered some messages, then held one
-- session, then taken and answered some more, and the fragment is still called as in the session.
abbrev Answered : Fragment → Result → Kinds → Kinds → Type 0
Answered f asserted ss ts = Unit
Answered f unfinished ss ts = Unit
Answered f (ended (some e) g) ss ts = Unit
Answered f (ended none g) ss ts =
    (f1 f2 : Fragment) × Delivered f f1 ss
    × Conversed f1.fid f1.ctrl f2.ctrl
    × Delivered f2 g ts
    × (g.fid ≡ f1.fid)

testcase-Answered :
    (addr_size : ℕ) (sys : Surroundings) (f : Fragment)
    → Answered f (run_state_run_testcase addr_size sys f) nothing nothing
unfolding run_state_run_testcase
testcase-Answered addr_size sys f =
    by_outcome _ (run_testcase-Session addr_size f.fid sys.turns f.ctrl f.context)
  where
    by_outcome :
        (o : Option Outcome × Plane × Context)
        → (o.0 ≡ some (returned none) → Conversed f.fid f.ctrl o.1)
        → Answered f (ended_loop f o) nothing nothing
    by_outcome (none, p, c) h = tt
    by_outcome (some running, p, c) h = tt
    by_outcome (some (returned (some e)), p, c) h = tt
    by_outcome (some (returned none), p, c) h =
        let f2 : Fragment = record f { ctrl = p; context = c } in
        (f, f2, sent_nothing refl, h refl, sent_nothing refl, refl)

-- A state before the testcase.
before_testcase :
    (s : State) (loop : State → Fragment → End) (f : Fragment) (r : Result) (ss ss' ts : Kinds)
    → is_done (next_state s) ≡ false
    → Sends f r ss
    → ((g : Fragment) → Answered g (loop (next_state s) g).1 ss' ts)
    → Answered f (after_state s loop r).1 (joined ss ss') ts
unfolding after_state
before_testcase s loop f asserted ss ss' ts more a k = tt
before_testcase s loop f unfinished ss ss' ts more a k = tt
before_testcase s loop f (ended (some e) g) ss ss' ts more a k = tt
before_testcase s loop f (ended none g) ss ss' ts more a k =
    rw (more, Answered) (after (loop (next_state s) g).1 (k g))
  where
    after : (r : Result) → Answered g r ss' ts → Answered f r (joined ss ss') ts
    after asserted b = tt
    after unfinished b = tt
    after (ended (some e) h) b = tt
    after (ended none h) (f1, f2, before, talk, later, named) =
        (f1, f2, sent_both a before, talk, later, named)

-- A method that leaves the fragment's id as it is.
abbrev SameId : Fragment → Result → Type 0
SameId f asserted = Unit
SameId f unfinished = Unit
SameId f (ended (some e) g) = Unit
SameId f (ended none g) = g.fid ≡ f.fid

on_ctrl-SameId :
    (f : Fragment) (k : Call) (next : Fragment → Result)
    → ((g : Fragment) → SameId g (next g))
    → SameId f (then_do (on_ctrl f k) next)
on_ctrl-SameId f failed_assertion next h = tt
on_ctrl-SameId f (called (some e) p) next h = tt
on_ctrl-SameId f (called none p) next h =
    by_result (next (record f { ctrl = p })) (h (record f { ctrl = p }))
  where
    by_result : (r : Result) → SameId (record f { ctrl = p }) r → SameId f r
    by_result asserted i = tt
    by_result unfinished i = tt
    by_result (ended (some e) g) i = tt
    by_result (ended none g) i = i

answer-SameId : (f : Fragment) (k : Call) → SameId f (on_ctrl f k)
answer-SameId f failed_assertion = tt
answer-SameId f (called (some e) p) = tt
answer-SameId f (called none p) = refl

shutdown-SameId : (addr_size : ℕ) (f : Fragment) → SameId f (run_state_do_shutdown addr_size f)
unfolding run_state_do_shutdown
shutdown-SameId addr_size f =
    on_ctrl-SameId f
      (recv_request addr_size f.fid true true Message.shutdown ctrl_connection_broken f.ctrl)
      (respond_ctrl addr_size Message.shutdown no_payload)
      (λ g. answer-SameId g (send_response addr_size g.fid Message.shutdown none no_payload g.ctrl))

-- The testcase itself, and then the end.
after_testcase :
    (loop : State → Fragment → End) (f : Fragment) (r : Result) (ts : Kinds)
    → Answered f r nothing nothing
    → ((g : Fragment) → Sends g (loop shutdown g).1 ts × SameId g (loop shutdown g).1)
    → Answered f (after_state run_testcase loop r).1 nothing ts
unfolding after_state next_state
after_testcase loop f asserted ts a k = tt
after_testcase loop f unfinished ts a k = tt
after_testcase loop f (ended (some e) g) ts a k = tt
after_testcase loop f (ended none g) ts (f1, f2, before, talk, later, named) k =
    after (loop shutdown g).1 (k g).0 (k g).1
  where
    after : (r : Result) → Sends g r ts → SameId g r → Answered f r nothing ts
    after asserted b i = tt
    after unfinished b i = tt
    after (ended (some e) h) b i = tt
    after (ended none h) b i = (f1, f2, before, talk, sent_both later b, i ∙ named)

at_the_end :
    (loop : State → Fragment → End) (f : Fragment) (r : Result) (ts : Kinds)
    → Sends f r ts
    → SameId f r
    → Sends f (after_state shutdown loop r).1 ts × SameId f (after_state shutdown loop r).1
unfolding after_state next_state
at_the_end loop f asserted ts a i = (tt, tt)
at_the_end loop f unfinished ts a i = (tt, tt)
at_the_end loop f (ended (some e) g) ts a i = (tt, tt)
at_the_end loop f (ended none g) ts a i = (a, i)

-- What is sent before a testcase, and after it.
abbrev pub setup_types : List (Option MessageType)
setup_types =
    some Message.setup_ctrl
    ∷ some Message.setup_pcap
    ∷ some Message.topology
    ∷ some Message.start_mixnet_server
    ∷ some Message.start_mixnet_clients
    ∷ some Message.resolve_mixnet_conns
    ∷ some Message.start_testcase
    ∷ []

-- The setup from its n-th request on.
abbrev setup_from : ℕ → Kinds
setup_from n = (drop n setup_types, drop n setup_types)

run-Answered :
    (addr_size : ℕ) (sys : Surroundings) (f : Fragment)
    → Answered f (run addr_size sys f).1 (setup_types, setup_types) (answers Message.shutdown)
unfolding run run_from run_state next_state
run-Answered addr_size sys f =
    let last = answers Message.shutdown in
    let loop : ℕ → State → Fragment → End = λ n. run_from n addr_size sys in
    let method = run_state addr_size sys in
    let ending : (g : Fragment)
        → Sends g (loop 1 shutdown g).1 last × SameId g (loop 1 shutdown g).1 =
      λ g.
        at_the_end (loop 0) g (method shutdown g) last (shutdown-Sends addr_size g)
          (shutdown-SameId addr_size g) in
    let from8 : (g : Fragment) → Answered g (loop 2 run_testcase g).1 nothing last = λ g.
      after_testcase (loop 1) g (method run_testcase g) last (testcase-Answered addr_size sys g)
        ending in
    let from7 : (g : Fragment) → Answered g (loop 3 start_testcase g).1 (setup_from 6) last = λ g.
      before_testcase start_testcase (loop 2) g (method start_testcase g)
        (answers Message.start_testcase) (setup_from 7) last refl (start_testcase-Sends addr_size g)
        from8 in
    let from6 : (g : Fragment)
        → Answered g (loop 4 resolve_mixnet_connections g).1 (setup_from 5) last =
      λ g.
        before_testcase resolve_mixnet_connections (loop 3) g (method resolve_mixnet_connections g)
          (answers Message.resolve_mixnet_conns) (setup_from 6) last refl
          (resolve-Sends addr_size sys g) from7 in
    let from5 : (g : Fragment) → Answered g (loop 5 start_mixnet_client g).1 (setup_from 4) last =
      λ g.
        before_testcase start_mixnet_client (loop 4) g (method start_mixnet_client g)
          (answers Message.start_mixnet_clients) (setup_from 5) last refl
          (start_mixnet_client-Sends addr_size sys g) from6 in
    let from4 : (g : Fragment) → Answered g (loop 6 start_mixnet_server g).1 (setup_from 3) last =
      λ g.
        before_testcase start_mixnet_server (loop 5) g (method start_mixnet_server g)
          (answers Message.start_mixnet_server) (setup_from 4) last refl
          (start_mixnet_server-Sends addr_size sys g) from5 in
    let from3 : (g : Fragment) → Answered g (loop 7 create_topology g).1 (setup_from 2) last = λ g.
      before_testcase create_topology (loop 6) g (method create_topology g)
        (answers Message.topology) (setup_from 3) last refl (create_topology-Sends addr_size g)
        from4 in
    let from2 : (g : Fragment) → Answered g (loop 8 setup_pcap g).1 (setup_from 1) last = λ g.
      before_testcase setup_pcap (loop 7) g (method setup_pcap g) (answers Message.setup_pcap)
        (setup_from 2) last refl (setup_pcap-Sends addr_size sys g) from3 in
    let from1 : (g : Fragment) → Answered g (loop 9 setup_ctrl g).1 (setup_from 0) last = λ g.
      before_testcase setup_ctrl (loop 8) g (method setup_ctrl g) (answers Message.setup_ctrl)
        (setup_from 1) last refl (setup_ctrl-Sends addr_size sys g) from2 in
    from1 f

-- When a fragment's state machine returns NONE, there are two states on its way, the one before and
-- the one after its testcase. Up to the first, it has taken from the front of what arrives on its
-- control plane a request of each of the types SETUP_CTRL, SETUP_PCAP, TOPOLOGY,
-- START_MIXNET_SERVER, START_MIXNET_CLIENTS, RESOLVE_MIXNET_CONNS and START_TESTCASE, in this order,
-- and has sent a response of each of these types, in this order. Between the two it has taken the
-- next requests and sent one response for each, in order, of the same type and under the id that it
-- still has at the end, END_TESTCASE being the last request and no earlier one. After the second it
-- has taken one SHUTDOWN request and sent one SHUTDOWN response. It has taken and sent nothing else.
pub run_answers :
    (addr_size : ℕ) (sys : Surroundings) (f g : Fragment)
    → (run addr_size sys f).1 ≡ ended none g
    → (f1 f2 : Fragment) × Delivered f f1 (setup_types, setup_types)
      × Conversed f1.fid f1.ctrl f2.ctrl
      × Delivered f2 g (answers Message.shutdown)
      × (g.fid ≡ f1.fid)
run_answers addr_size sys f g e =
    subst (λ (r : Result). Answered f r (setup_types, setup_types) (answers Message.shutdown)) e
      (run-Answered addr_size sys f)
