-- ===== src/Control/Tasks.antt =====
-- The tasks of a testcase and the loop that runs them (framework/fragment.cpp). A turn of the loop
-- comes with what the rest of the process does to it: the other threads, the allocator, the sockets.
use cmu_mixnet.Prelude.{
  ℕ, zero, suc, ◌+◌, Bool, true, false, not, Option, none, some, List, [], ◌∷◌, ◌++◌, if◌then◌else◌,
  ◌==◌, ltb, set, u16,
}
use cmu_mixnet.Packet.{
  StpPayload, LsaPayload, RoutingHeader, PingFields, stp, flood, lsa, routed, unknown, user_bytes,
  ping_body, Packet, packet_header_size, routing_header_size,
}
use cmu_mixnet.ErrorCode.{
  ErrorCode, bad_message_code, fragment_exception, fragment_threads_nonresponsive,
  recv_zero_pending,
}
use cmu_mixnet.Message.{
  MessageType, change_link_state, pcap_subscription, send_packet, end_testcase, Buffer, get16,
  header_size,
}

-- The part of the node's context that the tasks change. `injected` are the packets that they have
-- put into the user's queue, `sentinels` counts the empty pointers put into the pcap queue.
pub record Context : Type 0 where
  pub num_neighbors : ℕ
  pub link_states : List Bool
  pub is_pcap_subscribed : Bool
  pub keep_running : Bool
  pub injected : List Packet
  pub sentinels : ℕ

-- The bytes of fresh memory, read as the payload that the packet's type asks for.
pub record RawBytes : Type 0 where
  pub raw_stp : StpPayload
  pub raw_lsa : LsaPayload
  pub raw_ping : PingFields

-- What a turn meets: whether malloc() and the two queues grant memory, the packets waiting on the
-- link (each as the control buffer stands after it is read) and what ends them, and whether the
-- threads are found to have ended, after the pause of task_end_testcase and after a task.
pub record Turn : Type 0 where
  pub has_memory : Bool
  pub user_slot : Bool
  pub pcap_slot : Bool
  pub raw : RawBytes
  pub waiting : List Buffer
  pub last : ErrorCode
  pub both_exited : Bool
  pub one_exited : Bool

pub task_update_pcap_subscription : Bool → Context → Option ErrorCode × Context
task_update_pcap_subscription v c = (none, record c { is_pcap_subscribed = v })

abbrev pub bytes_from : Buffer → ℕ → ℕ → List ℕ
bytes_from b i zero = []
bytes_from b i (suc n) = b i ∷ bytes_from b (i + 1) n

-- The packet of a type that a send_packet request asks for.
unfoldable pub injected_packet : RawBytes → Buffer → Packet
injected_packet raw b =
    let type = get16 b header_size in
    let data_length = get16 b (header_size + 6) in
    let header : RoutingHeader = record {
      src_address = get16 b (header_size + 2);
      dst_address = get16 b (header_size + 4);
      route_length = 0;
      hop_index = 0;
      route = [];
    } in
    let base = packet_header_size + routing_header_size in
    if type == 3
    then record {
      total_size = u16 (base + data_length);
      payload = routed header (user_bytes (bytes_from b (header_size + 8) data_length));
    }
    else if type == 4
    then record { total_size = base; payload = routed header (ping_body raw.raw_ping) }
    else record {
      total_size = packet_header_size;
      payload =
          if type == 0
          then stp raw.raw_stp
          else if type == 1
          then flood
          else if type == 2
          then lsa raw.raw_lsa
          else unknown type;
    }

pub task_send_packet : Turn → Buffer → Context → Option ErrorCode × Context
unfolding injected_packet
task_send_packet t b c =
    if not t.has_memory
    then (some fragment_exception, c)
    else if not t.user_slot
    then (some fragment_exception, c)
    else (none, record c { injected = c.injected ++ injected_packet t.raw b ∷ [] })

-- The loop that drains the link, with the control message's buffer.
pub drain : List Buffer → ErrorCode → Buffer → Option ErrorCode × Buffer
drain [] last b = (some last, b)
drain (b' ∷ rest) last b = drain rest last b'

-- `none` for a neighbor that the node does not have.
unfoldable pub task_update_link_state :
    Turn → ℕ → Bool → Buffer → Context → Option (Option ErrorCode × Buffer × Context)
unfolding drain
task_update_link_state t nid state b c =
    let c' = record c { link_states = set c.link_states nid state } in
    let (e, b') = if state then (none, b) else drain t.waiting t.last b in
    if not (ltb nid c.num_neighbors)
    then none
    else some (elim e [
      | none ↦ (none, b', c')
      | some recv_zero_pending ↦ (none, b', c')
      | some other ↦ (some other, b', c')
    ])

pub task_end_testcase : Turn → Context → Option ErrorCode × Context
task_end_testcase t c =
    let stopping = record c { keep_running = false } in
    if not t.pcap_slot then (some fragment_exception, stopping) else (
      if t.both_exited then none else some fragment_threads_nonresponsive,
      record stopping { sentinels = c.sentinels + 1 },
    )

-- What the `switch` leaves behind: the error code, do_respond, end_testcase, the message buffer and
-- the context.
pub record Served : Type 0 where
  pub error : Option ErrorCode
  pub do_respond : Bool
  pub ends : Bool
  pub buffer : Buffer
  pub context : Context

abbrev pub respond : Option ErrorCode × Context → Buffer → Served
respond (e, c) b = record { error = e; do_respond = true; ends = false; buffer = b; context = c }

abbrev pub link_served : Option (Option ErrorCode × Buffer × Context) → Option Served
link_served none = none
link_served (some (e, b, c)) = some (respond (e, c) b)

-- Only a clean end is answered.
abbrev pub is_clean : Option ErrorCode → Bool
is_clean none = true
is_clean (some e) = false

unfoldable pub serve : Turn → Option MessageType → Buffer → Context → Option Served
unfolding task_update_pcap_subscription task_send_packet task_update_link_state task_end_testcase
serve t none b c = none
serve t (some change_link_state) b c =
    link_served
      (task_update_link_state t (get16 b header_size) (not (b (header_size + 2) == 0)) b c)
serve t (some pcap_subscription) b c =
    some (respond (task_update_pcap_subscription (not (b header_size == 0)) c) b)
serve t (some send_packet) b c = some (respond (task_send_packet t b c) b)
serve t (some end_testcase) b c =
    let (e, c') = task_end_testcase t c in
    some (record { error = e; do_respond = is_clean e; ends = true; buffer = b; context = c' })
serve t (some other) b c = some (record {
  error = some bad_message_code;
  do_respond = false;
  ends = false;
  buffer = b;
  context = c;
})
