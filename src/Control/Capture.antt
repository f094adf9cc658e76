-- ===== src/Control/Capture.antt =====
-- The thread that sends captured packets to the orchestrator (fragment::worker_pcap of
-- framework/fragment.cpp). A packet in the queue is its bytes; the NULL pointer is `none`.
use cmu_mixnet.Prelude.{ℕ, Bool, true, false, Option, none, some, List, [], ◌∷◌, leb, take}
use cmu_mixnet.ErrorCode.{ErrorCode}
use cmu_mixnet.Packet.{max_mixnet_packet_size}
use cmu_mixnet.Message.{pcap_data, Buffer, header_size}
use cmu_mixnet.Networking.{leading_length}
use cmu_mixnet.Control.{Plane, failed_assertion, called, send_response}
use cmu_mixnet.Orchestrator.{put_bytes}

-- packet->total_size
abbrev pub size_of : List ℕ → ℕ
size_of bytes = leading_length bytes

unfoldable pub fill_captured : List ℕ → Buffer → Option ErrorCode × Buffer
unfolding put_bytes
fill_captured bytes b = (none, put_bytes header_size (take (size_of bytes) bytes) b)

-- How the thread ends: on a failed assertion, or with its exit code; or it waits for the queue.
pub data WorkerEnd : Type 0 where
  worker_asserted : WorkerEnd
  exited : Option ErrorCode → Plane → WorkerEnd
  reading : Plane → WorkerEnd

-- The loop; `keep_running` is read before each packet.
pub worker_pcap :
    (addr_size fid : ℕ) → List (Bool × Option (List ℕ)) → Option ErrorCode → Plane → WorkerEnd
unfolding fill_captured send_response
worker_pcap addr_size fid [] exit_code p = reading p
worker_pcap addr_size fid ((keep_running, ptr) ∷ queue) exit_code p = elim keep_running [
  | false ↦ exited exit_code p
  | true ↦ elim ptr [
    | none ↦ exited exit_code p
    | some bytes ↦ elim (leb (size_of bytes) max_mixnet_packet_size) [
      | false ↦ worker_asserted
      | true ↦ elim (send_response addr_size fid pcap_data none (fill_captured bytes) p) [
        | failed_assertion ↦ worker_asserted
        | called (some e) p' ↦ exited (some e) p'
        | called none p' ↦ worker_pcap addr_size fid queue none p'
      ]
    ]
  ]
]
