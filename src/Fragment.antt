-- ===== src/Fragment.antt =====
-- The ports of a node (node_send and node_recv of framework/fragment.cpp), which
-- stand behind mixnet_send() and mixnet_recv(). The sockets and the message queues are arguments:
-- what each of them answers during the call.
pub mod Sizes
pub mod Sends
pub mod Rounds
use cmu_mixnet.Prelude.{
  ℕ, zero, suc, ◌+◌, ◌-◌, ◌*◌, ◌%◌, Bool, true, false, not, ◌&&◌, ◌||◌, Option, none, some,
  if◌then◌else◌, ◌==◌, ltb, u16,
}
use cmu_mixnet.ErrorCode.{ErrorCode, fragment_pcap_mq_full}
use cmu_mixnet.Packet.{
  Payload, stp, flood, lsa, routed, unknown, Body, user_bytes, ping_body, Packet,
  packet_header_size, stp_size, lsa_size, link_params_size, routing_header_size, address_size,
  ping_size, min_mixnet_packet_size, max_mixnet_packet_size,
}

-- What becomes of a packet: -1, and the caller keeps it; 1, and it is in the pcap queue, freed, or
-- on the link of a port; or the exception that ends the thread.
pub data Sent : Type 0 where
  refused : Sent
  mirrored : Packet → Sent
  discarded : Sent
  transmitted : ℕ → Packet → Sent
  send_exit : ErrorCode → Sent

-- The `switch` on the packet's type.
abbrev pub is_size_valid : ℕ → Payload → Bool
is_size_valid payload_size (stp p) = payload_size == stp_size
is_size_valid payload_size flood = payload_size == 0
is_size_valid payload_size (lsa p) = payload_size == lsa_size + link_params_size * p.neighbor_count
is_size_valid payload_size (routed h (user_bytes b)) = true
is_size_valid payload_size (routed h (ping_body p)) =
    payload_size == ping_size + routing_header_size + address_size * h.route_length
is_size_valid payload_size (unknown t) = false

-- The types that the user's port takes.
abbrev pub is_user_type : Payload → Bool
is_user_type (stp p) = false
is_user_type flood = true
is_user_type (lsa p) = false
is_user_type (routed h b) = true
is_user_type (unknown t) = false

-- `queued` tells whether the pcap queue has room, `link` what _send_blocking answers on a port.
abbrev pub finish_send : Bool → Bool → Option ErrorCode → ℕ → ℕ → Packet → Sent
finish_send is_pcap_subscribed queued link max_port_id port packet =
    if port == max_port_id
    then if not (is_user_type packet.payload)
      then refused
      else if is_pcap_subscribed
      then if queued then mirrored packet else send_exit fragment_pcap_mq_full
      else discarded
    else elim link [ none ↦ transmitted port packet | some e ↦ send_exit e ]

-- The reserved field, which is not part of the model's packets, is cleared on the way.
pub node_send : ℕ → Bool → Bool → (ℕ → Option ErrorCode) → ℕ → Packet → Sent
node_send num_neighbors is_pcap_subscribed queued link port packet =
    if ltb num_neighbors port
    then refused
    else if ltb packet.total_size min_mixnet_packet_size
        || ltb max_mixnet_packet_size packet.total_size
    then refused
    else if not (is_size_valid (packet.total_size - packet_header_size) packet.payload)
    then refused
    else finish_send is_pcap_subscribed queued (link port) num_neighbors port packet

-- What a port answers when it is tried once: a packet, nothing, or an error of the socket. A link
-- that is down, and an empty queue of the user, have nothing.
pub data Arrival : Type 0 where
  arrived : Packet → Arrival
  pending_none : Arrival
  broken : ErrorCode → Arrival

-- The result of node_recv beside the next port to try: 0, 1 with a packet and its port, or the
-- exception.
pub data Received : Type 0 where
  nothing : Received
  packet_from : ℕ → Packet → Received
  receive_exit : ErrorCode → Received

-- The `do` loop, for at most `n` more ports.
pub poll : (n : ℕ) → ℕ → (ℕ → Arrival) → ℕ → ℕ → Received × ℕ
poll zero max_port_id arrivals stop_idx idx = (nothing, idx)
poll (suc n) max_port_id arrivals stop_idx idx =
    let next = (idx + 1) % (max_port_id + 1) in
    let rest = poll n max_port_id arrivals stop_idx next in
    elim (arrivals idx) [
      | arrived p ↦ (packet_from idx p, next)
      | broken e ↦ (receive_exit e, idx)
      | pending_none ↦ if next == stop_idx then (nothing, next) else rest
    ]

-- Each port is tried at most once.
pub node_recv : ℕ → (ℕ → Arrival) → ℕ → Received × ℕ
unfolding poll
node_recv num_neighbors arrivals rx_port_idx =
    poll (num_neighbors + 1) num_neighbors arrivals rx_port_idx rx_port_idx
