-- ===== src/Tests/Fleet.antt =====
-- The orchestrator with two fragments.
use mathlib.Core.Option.{some-injective}
use cmu_mixnet.Prelude.{
  ℕ, zero, suc, ◌+◌, ◌<◌, ◌≡◌, ◌≢◌, refl, sym, ap, true, false, Bool, Option, none, some, List, [],
  ◌∷◌, ◌++◌, ◌==◌, arith, length, get_or,
}
use cmu_mixnet.Message.{
  MessageType, Buffer, start_testcase, setup_pcap, pcap_data, finalize, compute_total_length,
  payload_length, get_type,
}
use cmu_mixnet.Control
use cmu_mixnet.Control.Capture.{fill_captured}
use cmu_mixnet.Orchestrator
use cmu_mixnet.Orchestrator.Foreach.{
  Fd, Sending, Sent, failed_assertion, sent, polled, Wait, Gathering, Gathered, assertion, waiting,
  gathered, foreach_fragment_send_generic, foreach_fragment_recv_generic,
}
use cmu_mixnet.Orchestrator.Asking.{Asked, FillsPayload, foreach_fragment_send_generic_lem}
use cmu_mixnet.Orchestrator.Heard.{occurrences}
use cmu_mixnet.Orchestrator.Gathering.{Processed, foreach_fragment_recv_generic_lem}
use cmu_mixnet.Orchestrator.Returning.{foreach_fragment_recv_generic_returns}
use cmu_mixnet.Orchestrator.Payloads.{
  FragmentMetadata, new_fragment, fragment_at, is_unset, fill_nothing, take_nothing, take_pcap,
}
use cmu_mixnet.Orchestrator.Mapping.{Introduced, setup_pcap_maps}
use cmu_mixnet.Orchestrator.Pcap.{PcapTurn, PcapState, next, take_capture, pcap_thread_loop}
use cmu_mixnet.Capturing.{AllGenuine, pcap_thread_loop_lem, captured_arrives}
use cmu_mixnet.Tests.Framework.{zeros}

abbrev fds : List Fd
fds = some 5 ∷ some 6 ∷ []

abbrev sending : ℕ → Sending
sending idx = record { result = none; timer = 10 }

abbrev asking : Sent
asking = foreach_fragment_send_generic 16 fds start_testcase fill_nothing 20 sending zeros

abbrev is_sent : Sent → Bool
is_sent failed_assertion = false
is_sent (sent (some e) pending b xs) = false
is_sent (sent none pending b xs) = true

abbrev posted : Sent → List (Fd × Buffer)
posted failed_assertion = []
posted (sent e pending b xs) = xs

sent_parts :
    (o : Sent)
    → is_sent o ≡ true
    → (pending : ℕ) × (b : Buffer) × (o ≡ sent none pending b (posted o))
sent_parts failed_assertion h = cc
sent_parts (sent (some e) pending b xs) h = cc
sent_parts (sent none pending b xs) h = (pending, b, refl)

asking_works : is_sent asking ≡ true
unfolding foreach_fragment_send_generic finalize compute_total_length payload_length
    Orchestrator.prepare_header get_type
asking_works = refl

fill_nothing-FillsPayload : FillsPayload fill_nothing
fill_nothing-FillsPayload idx b b' e j lo hi = ap (λ (f : Buffer). f j) (sym (some-injective _ _ e))

foreach_fragment_send_generic_lem_example : Asked sending start_testcase 0 fds (posted asking)
foreach_fragment_send_generic_lem_example =
    foreach_fragment_send_generic_lem 16 fds start_testcase fill_nothing 20 sending zeros
      (sent_parts asking asking_works).1 (sent_parts asking asking_works).0 (posted asking)
      fill_nothing-FillsPayload (omega arith) (sent_parts asking asking_works).2

-- The response of fragment `fid`, as it is received.
abbrev or_zeros : Option Buffer → Buffer
or_zeros none = zeros
or_zeros (some b) = b

abbrev answer_of : MessageType → ℕ → Buffer
answer_of type fid = or_zeros (finalize 16 (Control.prepare_header fid type none zeros))

abbrev waits : List Wait
waits =
    record {
      polling = polled 2 (λ idx. true);
      received = λ idx. (none, answer_of start_testcase idx);
      timer = 10;
    }
    ∷ []

abbrev fragments : List FragmentMetadata
fragments = new_fragment ∷ new_fragment ∷ []

abbrev hearing : Gathered (List FragmentMetadata)
hearing =
    foreach_fragment_recv_generic (List FragmentMetadata) 16 true start_testcase take_nothing fds 20
      waits zeros fragments

abbrev is_gathered : Gathered (List FragmentMetadata) → Bool
is_gathered assertion = false
is_gathered waiting = false
is_gathered (gathered (some e) g) = false
is_gathered (gathered none g) = true

abbrev gathering_of : Gathered (List FragmentMetadata) → Gathering (List FragmentMetadata)
gathering_of assertion = record {
  pfds = [];
  num_pending = 0;
  error_code = none;
  buffer = zeros;
  state = [];
  heard = [];
}
gathering_of waiting = record {
  pfds = [];
  num_pending = 0;
  error_code = none;
  buffer = zeros;
  state = [];
  heard = [];
}
gathering_of (gathered e g) = g

gathered_well :
    (o : Gathered (List FragmentMetadata))
    → is_gathered o ≡ true
    → o ≡ gathered none (gathering_of o)
gathered_well assertion h = cc
gathered_well waiting h = cc
gathered_well (gathered (some e) g) h = cc
gathered_well (gathered none g) h = refl

hearing_works : is_gathered hearing ≡ true
unfolding foreach_fragment_recv_generic finalize compute_total_length payload_length
    Control.prepare_header get_type Orchestrator.check_header
hearing_works = refl

foreach_fragment_recv_generic_lem_example :
    ((i : ℕ) → i < length fds → occurrences i (gathering_of hearing).heard ≡ 1)
    × (length (gathering_of hearing).heard ≡ length fds)
    × Processed
        (List FragmentMetadata)
        16
        true
        start_testcase
        take_nothing
        (length fds)
        fragments
        (gathering_of hearing).heard
        (gathering_of hearing).state
foreach_fragment_recv_generic_lem_example =
    foreach_fragment_recv_generic_lem (List FragmentMetadata) 16 true start_testcase take_nothing
      fds 20 waits zeros fragments (gathering_of hearing) (gathered_well hearing hearing_works)

-- A poll() that fails, and the deadline after it.
abbrev late : Wait
late = record { polling = polled 0 (λ idx. false); received = λ idx. (none, zeros); timer = 0 }

foreach_fragment_recv_generic_returns_example :
    foreach_fragment_recv_generic
      (List FragmentMetadata)
      16
      true
      start_testcase
      take_nothing
      fds
      20
      (waits ++ late ∷ [])
      zeros
      fragments
    ≢ waiting
foreach_fragment_recv_generic_returns_example =
    foreach_fragment_recv_generic_returns (List FragmentMetadata) 16 true start_testcase
      take_nothing fds 20 waits late zeros fragments refl

-- The two connections were accepted in the other order than the fragments' ids.
abbrev introductions : List Wait
introductions =
    record {
      polling = polled 1 (λ idx. idx == 0);
      received = λ idx. (none, answer_of setup_pcap 1);
      timer = 10;
    }
    ∷ record {
      polling = polled 1 (λ idx. idx == 1);
      received = λ idx. (none, answer_of setup_pcap 0);
      timer = 5;
    }
    ∷ []

abbrev mapping : Gathered (List FragmentMetadata)
mapping =
    foreach_fragment_recv_generic (List FragmentMetadata) 16 false setup_pcap (take_pcap fds) fds 20
      introductions zeros fragments

mapping_works : is_gathered mapping ≡ true
unfolding foreach_fragment_recv_generic finalize compute_total_length payload_length
    Control.prepare_header get_type Orchestrator.check_header take_pcap
mapping_works = refl

all_connected : (i : ℕ) → i < length fds → is_unset (get_or fds i none) ≡ false
all_connected zero lt = refl
all_connected (suc zero) lt = refl
all_connected (suc (suc i)) lt = absurd (omega arith)

nobody_mapped : (fid : ℕ) → is_unset (fragment_at fragments fid).fd_pcap ≡ true
nobody_mapped zero = refl
nobody_mapped (suc zero) = refl
nobody_mapped (suc (suc fid)) = refl

setup_pcap_maps_example :
    (is_unset (fragment_at (gathering_of mapping).state 1).fd_pcap ≡ false)
    × Introduced fds (gathering_of mapping).heard (gathering_of mapping).state 1
setup_pcap_maps_example =
    setup_pcap_maps 16 fds 20 introductions zeros fragments (gathering_of mapping) refl
      all_connected nobody_mapped (gathered_well mapping mapping_works) 1 (omega arith)

-- A packet without a payload.
abbrev packet : List ℕ
packet = 12 ∷ 0 ∷ 1 ∷ 0 ∷ 0 ∷ 0 ∷ 0 ∷ 0 ∷ 0 ∷ 0 ∷ 0 ∷ 0 ∷ []

abbrev quiet : PcapState
quiet = record { pfds = fds; error_code = none; captured = [] }

captured_arrives_example :
    (b' : Buffer) × (finalize 16
        (fill_captured packet (Control.prepare_header 1 pcap_data none zeros)).1
      ≡ some b')
    × (take_capture 16 1 (none, b') quiet
        ≡ next (record quiet { error_code = none; captured = (1, b') ∷ [] }))
    × ((k : ℕ) → k < length packet → b' (8 + k) ≡ get_or packet k 0)
captured_arrives_example =
    captured_arrives 16 1 packet zeros quiet (omega arith) refl (omega arith) (omega arith)

abbrev capture : Buffer
capture =
    or_zeros (finalize 16 (fill_captured packet (Control.prepare_header 1 pcap_data none zeros)).1)

abbrev pcap_turns : List PcapTurn
pcap_turns =
    record {
      keep_running = true;
      poll_succeeds = true;
      is_pollin = λ fid. fid == 1;
      is_subscribed = λ fid. true;
      received = λ fid. (none, capture);
    }
    ∷ []

abbrev captures_one : Option PcapState → Bool
captures_one none = false
captures_one (some s) = length s.captured == 1

abbrev pcap_of : Option PcapState → PcapState
pcap_of none = quiet
pcap_of (some s) = s

captures_well : (o : Option PcapState) → captures_one o ≡ true → o ≡ some (pcap_of o)
captures_well none h = cc
captures_well (some s) h = refl

capturing_works : captures_one (pcap_thread_loop 16 fragments pcap_turns) ≡ true
unfolding pcap_thread_loop finalize compute_total_length payload_length Control.prepare_header
    get_type Orchestrator.check_header fill_captured
capturing_works = refl

pcap_thread_loop_lem_example :
    AllGenuine 16
      (length fragments)
      pcap_turns
      (pcap_of (pcap_thread_loop 16 fragments pcap_turns)).captured
pcap_thread_loop_lem_example =
    pcap_thread_loop_lem 16 fragments pcap_turns
      (pcap_of (pcap_thread_loop 16 fragments pcap_turns))
      (captures_well (pcap_thread_loop 16 fragments pcap_turns) capturing_works)
