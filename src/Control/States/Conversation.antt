-- ===== src/Control/States/Conversation.antt =====
-- The whole conversation of a fragment on its control plane (fragment::run of
-- framework/fragment.cpp).
use Prim.{tt}
use cmu_mixnet.Prelude.{
  ℕ, ◌≡◌, refl, sym, ap, ◌∙◌, true, false, Option, none, some, ◌++◌, arith, ◌==◌, take,
}
use cmu_mixnet.ErrorCode.{
  ErrorCode, pcap_connection_broken, fragment_bad_neighbor_count, socket_accept_timeout,
}
use cmu_mixnet.Message.{
  MessageType, get16, setup_ctrl, setup_pcap, topology, start_mixnet_server, start_mixnet_clients,
  resolve_mixnet_conns, start_testcase, shutdown,
}
use cmu_mixnet.Control.{
  Plane, Call, failed_assertion, called, no_payload, recv_request, send_response,
}
use cmu_mixnet.Control.Testcase.Answers.{Keeps}
use cmu_mixnet.Control.States.{
  Fragment, Surroundings, Result, asserted, unfinished, ended, then_do, on_pcap, name_clients,
  put_pid, put_over, connect_all, num_accepted, resolve_from, configured, with_identity, connected,
  receive_ctrl, respond_ctrl, unless, run_state_setup_ctrl, run_state_setup_pcap,
  run_state_create_topology, run_state_start_mixnet_server, run_state_start_mixnet_client,
  run_state_resolve_mixnet_connections, run_state_start_testcase, run_state_do_shutdown,
}
use cmu_mixnet.Control.States.Trace.{
  Kinds, nothing, asks, tells, answers, Sends, sent_nothing, then_do-Sends, unless-Sends,
  receive_ctrl-Sends, respond_ctrl-Sends,
}

-- What is taken and sent from a state is so from any state with the same control plane.
from_same :
    (f g : Fragment) (r : Result) (ts : Kinds) → g.ctrl ≡ f.ctrl → Sends g r ts → Sends f r ts
from_same f g asserted ts e s = tt
from_same f g unfinished ts e s = tt
from_same f g (ended (some x) h) ts e s = tt
from_same f g (ended none h) ts e s = record {
  requests = s.requests;
  responses = s.responses;
  taken = sym (ap (λ (p : Plane). p.inbox) e) ∙ s.taken;
  appended = s.appended ∙ ap (λ (p : Plane). p.outbox ++ s.responses) e;
  asked = s.asked;
  told = s.told;
  requesting = s.requesting;
  responding = s.responding;
}

pub ended-Sends :
    (e : Option ErrorCode) (f g : Fragment) → g.ctrl ≡ f.ctrl → Sends f (ended e g) nothing
ended-Sends none f g same = sent_nothing same
ended-Sends (some x) f g same = tt

pub on_pcap-Sends : (f : Fragment) (k : Call) → Sends f (on_pcap f k) nothing
on_pcap-Sends f failed_assertion = tt
on_pcap-Sends f (called e p) = ended-Sends e f (record f { pcap = p }) refl

pub plain-Sends :
    (addr_size : ℕ) (type : MessageType) (f : Fragment)
    → Sends f (respond_ctrl addr_size type no_payload f) (tells type)
plain-Sends addr_size type f = respond_ctrl-Sends addr_size type no_payload f (λ b j lo hi. refl)

pub setup_ctrl-Sends :
    (addr_size : ℕ) (sys : Surroundings) (f : Fragment)
    → Sends f (run_state_setup_ctrl addr_size sys f) (answers setup_ctrl)
unfolding run_state_setup_ctrl with_identity
setup_ctrl-Sends addr_size sys f = unless-Sends sys.ctrl_socket _ f _ _ (
    unless-Sends sys.ctrl_connects _ f _ _ (
      then_do-Sends f _ _ (tells setup_ctrl) (asks setup_ctrl)
        (respond_ctrl-Sends addr_size setup_ctrl (λ b. (none, put_pid sys.pid b)) f
          (λ b j lo hi. ground arith))
        (λ g.
          then_do-Sends g _ _ (asks setup_ctrl) nothing
            (receive_ctrl-Sends addr_size false setup_ctrl g)
            (λ h. ended-Sends none h (with_identity h) refl))))

pub setup_pcap-Sends :
    (addr_size : ℕ) (sys : Surroundings) (f : Fragment)
    → Sends f (run_state_setup_pcap addr_size sys f) (answers setup_pcap)
unfolding run_state_setup_pcap
setup_pcap-Sends addr_size sys f =
    then_do-Sends f _ _ (asks setup_pcap) (tells setup_pcap)
      (receive_ctrl-Sends addr_size true setup_pcap f)
      (λ f1.
        then_do-Sends f1 _ _ (tells setup_pcap) nothing (plain-Sends addr_size setup_pcap f1) (λ f2.
          unless-Sends sys.pcap_socket _ f2 _ _ (
            unless-Sends sys.pcap_connects _ f2 _ _ (
              then_do-Sends f2
                (on_pcap f2 (send_response addr_size f2.fid setup_pcap none no_payload f2.pcap))
                (λ f3. on_pcap f3 (
                  recv_request addr_size f3.fid true true setup_pcap pcap_connection_broken
                    f3.pcap))
                nothing nothing (on_pcap-Sends f2 _) (λ f3. on_pcap-Sends f3 _)))))

-- A method that takes its request and then only answers it.
asked_and_answered :
    (addr_size : ℕ) (type : MessageType) (f : Fragment) (k : Fragment → Result)
    → ((g : Fragment) → Sends g (k g) (tells type))
    → Sends f (then_do (receive_ctrl addr_size true type f) k) (answers type)
asked_and_answered addr_size type f k h =
    then_do-Sends f _ k (asks type) (tells type) (receive_ctrl-Sends addr_size true type f) h

pub create_topology-Sends :
    (addr_size : ℕ) (f : Fragment)
    → Sends f (run_state_create_topology addr_size f) (answers topology)
unfolding run_state_create_topology configured
create_topology-Sends addr_size f =
    asked_and_answered addr_size topology f _
      (λ g. from_same g (configured g) _ _ refl (plain-Sends addr_size topology (configured g)))

pub start_mixnet_server-Sends :
    (addr_size : ℕ) (sys : Surroundings) (f : Fragment)
    → Sends f (run_state_start_mixnet_server addr_size sys f) (answers start_mixnet_server)
unfolding run_state_start_mixnet_server
start_mixnet_server-Sends addr_size sys f =
    asked_and_answered addr_size start_mixnet_server f _ (λ g.
      then_do-Sends g (ended sys.server_setup g) _ nothing (tells start_mixnet_server)
        (ended-Sends sys.server_setup g g refl)
        (λ h.
          respond_ctrl-Sends addr_size start_mixnet_server
            (λ b. (none, put_over 8 addr_size sys.server_address b)) h (λ b j lo hi. ground arith)))

named : (addr_size : ℕ) (names : Option (ℕ → ℕ)) (n : ℕ) → Keeps (name_clients addr_size names n)
named addr_size none n b j lo hi = ground arith
named addr_size (some bytes) n b j lo hi = ground arith

pub start_mixnet_client-Sends :
    (addr_size : ℕ) (sys : Surroundings) (f : Fragment)
    → Sends f (run_state_start_mixnet_client addr_size sys f) (answers start_mixnet_clients)
unfolding run_state_start_mixnet_client
start_mixnet_client-Sends addr_size sys f =
    let n = f.config.num_neighbors in
    let name = name_clients addr_size sys.names n in
    let reached = connect_all (take n sys.clients) in
    let all_accepted = num_accepted sys.accepted == n in
    let answer : Fragment → Result = λ h.
      unless all_accepted socket_accept_timeout h
        (respond_ctrl addr_size start_mixnet_clients name h) in
    asked_and_answered addr_size start_mixnet_clients f _ (λ g.
      unless-Sends (n == get16 g.ctrl.buffer 8) fragment_bad_neighbor_count g
        (then_do (ended reached g) answer) (tells start_mixnet_clients)
        (then_do-Sends g (ended reached g) answer nothing (tells start_mixnet_clients)
          (ended-Sends reached g g refl)
          (λ h. unless-Sends all_accepted socket_accept_timeout h _ (tells start_mixnet_clients) (
            respond_ctrl-Sends addr_size start_mixnet_clients name h
              (named addr_size sys.names n)))))

pub resolve-Sends :
    (addr_size : ℕ) (sys : Surroundings) (f : Fragment)
    → Sends f (run_state_resolve_mixnet_connections addr_size sys f) (answers resolve_mixnet_conns)
unfolding run_state_resolve_mixnet_connections connected
resolve-Sends addr_size sys f =
    let n = f.config.num_neighbors in
    let answer = respond_ctrl addr_size resolve_mixnet_conns no_payload in
    asked_and_answered addr_size resolve_mixnet_conns f _ (λ g.
      let found = connected (sys.address_at g.ctrl.buffer) sys.accepted n g in
      unless-Sends (get16 g.ctrl.buffer 8 == n) fragment_bad_neighbor_count g (then_do found answer)
        (tells resolve_mixnet_conns)
        (then_do-Sends g found answer nothing (tells resolve_mixnet_conns)
          (ended-Sends (resolve_from (sys.address_at g.ctrl.buffer) sys.accepted 0 n g.tx_sockets).0
            g
            (record g {
              tx_sockets =
                  (resolve_from (sys.address_at g.ctrl.buffer) sys.accepted 0 n g.tx_sockets).1;
            })
            refl)
          (λ h. plain-Sends addr_size resolve_mixnet_conns h)))

pub start_testcase-Sends :
    (addr_size : ℕ) (f : Fragment)
    → Sends f (run_state_start_testcase addr_size f) (answers start_testcase)
unfolding run_state_start_testcase
start_testcase-Sends addr_size f =
    asked_and_answered addr_size start_testcase f _ (λ g. plain-Sends addr_size start_testcase g)

pub shutdown-Sends :
    (addr_size : ℕ) (f : Fragment) → Sends f (run_state_do_shutdown addr_size f) (answers shutdown)
unfolding run_state_do_shutdown
shutdown-Sends addr_size f =
    asked_and_answered addr_size shutdown f _ (λ g. plain-Sends addr_size shutdown g)
