-- ===== src/Orchestrator/Pcap.antt =====
-- The thread that receives captured packets (pcap_thread_loop of framework/orchestrator.cpp). The
-- flag and the subscriptions belong to the other thread, so each turn comes with their values.
use cmu_mixnet.Prelude.{
  ℕ, ◌+◌, Bool, true, false, not, ◌||◌, Option, none, some, List, [], ◌∷◌, if◌then◌else◌, ltb, map,
  set,
}
use cmu_mixnet.Packet.{max_mixnet_packet_size}
use cmu_mixnet.ErrorCode.{ErrorCode, poll_error, recv_zero_pending, mixnet_bad_packet_size}
use cmu_mixnet.Message.{pcap_data, Buffer, header_size, get16, get_fragment_id}
use cmu_mixnet.Orchestrator.{check_header}
use cmu_mixnet.Orchestrator.Foreach.{Fd}
use cmu_mixnet.Orchestrator.Payloads.{FragmentMetadata}

-- What one turn meets: the flag, whether poll() succeeds, which descriptors are POLLIN, which
-- fragments are subscribed, and what recv_with_timeout answers.
pub record PcapTurn : Type 0 where
  pub keep_running : Bool
  pub poll_succeeds : Bool
  pub is_pollin : ℕ → Bool
  pub is_subscribed : ℕ → Bool
  pub received : ℕ → Option ErrorCode × Buffer

-- The variables of the loop. `captured` are the calls of testcase::pcap, the newest first.
pub record PcapState : Type 0 where
  pub pfds : List Fd
  pub error_code : Option ErrorCode
  pub captured : List (ℕ × Buffer)

-- The body of the `for` loop fails an assertion, goes on to the next fragment, or breaks.
pub data PcapStep : Type 0 where
  assertion_failed : PcapStep
  next breaks : PcapState → PcapStep

-- What follows a receive.
unfoldable pub take_capture : (addr_size fid : ℕ) → Option ErrorCode × Buffer → PcapState → PcapStep
unfolding check_header get_fragment_id
take_capture addr_size fid (some recv_zero_pending, b) s = next (record s { error_code = none })
take_capture addr_size fid (some e, b) s = breaks (record s { error_code = some e })
take_capture addr_size fid (none, b) s = elim (check_header addr_size true fid pcap_data b) [
  | none ↦ assertion_failed
  | some (some e) ↦ breaks (record s { error_code = some e })
  | some none ↦
      if ltb max_mixnet_packet_size (get16 b header_size)
      then breaks (record s { error_code = some mixnet_bad_packet_size })
      else next (record s { error_code = none; captured = (get_fragment_id b, b) ∷ s.captured })
]

unfoldable pub pcap_step : (addr_size : ℕ) → PcapTurn → ℕ → Fd → PcapState → PcapStep
unfolding take_capture
pcap_step addr_size t fid fd_pcap s =
    let s' = record s { pfds = set s.pfds fid (if t.is_subscribed fid then fd_pcap else none) } in
    if not (t.is_pollin fid) || not (t.is_subscribed fid)
    then next s'
    else take_capture addr_size fid (t.received fid) s'

-- The `for` loop over the fragments from `fid` on; `none` is a failed assertion.
unfoldable pub pcap_pass :
    (addr_size : ℕ) → PcapTurn → ℕ → List FragmentMetadata → PcapState → Option PcapState
unfolding pcap_step
pcap_pass addr_size t fid [] s = some s
pcap_pass addr_size t fid (x ∷ xs) s = elim (pcap_step addr_size t fid x.fd_pcap s) [
  | assertion_failed ↦ none
  | breaks s' ↦ some s'
  | next s' ↦ pcap_pass addr_size t (fid + 1) xs s'
]

abbrev pub polled_state : PcapTurn → PcapState → PcapState
polled_state t s = if t.poll_succeeds then s else record s { error_code = some poll_error }

-- The `while` loop, as far as the turns go.
unfoldable pub pcap_loop :
    (addr_size : ℕ) → List FragmentMetadata → List PcapTurn → PcapState → Option PcapState
unfolding pcap_pass
pcap_loop addr_size fragments [] s = some s
pcap_loop addr_size fragments (t ∷ ts) s = elim s.error_code [
  | some e ↦ some s
  | none ↦ elim t.keep_running [
    | false ↦ some s
    | true ↦ elim (pcap_pass addr_size t 0 fragments (polled_state t s)) [
      | none ↦ none
      | some s' ↦ pcap_loop addr_size fragments ts s'
    ]
  ]
]

abbrev pub fd_of : FragmentMetadata → Fd
fd_of x = x.fd_pcap

unfoldable pub pcap_thread_loop :
    (addr_size : ℕ) → List FragmentMetadata → List PcapTurn → Option PcapState
unfolding pcap_loop
pcap_thread_loop addr_size fragments ts =
    pcap_loop addr_size fragments ts
      (record { pfds = map fd_of fragments; error_code = none; captured = [] })
