-- ===== src/Packet.antt =====
-- Packets (mixnet/packet.h, mixnet/address.h). A packet is its declared size and its decoded
-- payload; the fields stand in the order of the wire layout. `links` and `route` hold the entries
-- that trail their struct in the buffer, and a body holds what follows the route. The type tag is
-- the payload's constructor.
use cmu_mixnet.Prelude.{ℕ, Bool, List}

-- INVALID_MIXADDR
abbrev pub invalid_mixaddr : ℕ
invalid_mixaddr = 65535

pub record StpPayload : Type 0 where
  pub root_address : ℕ
  pub path_length : ℕ
  pub node_address : ℕ

pub record LinkParams : Type 0 where
  pub neighbor_mixaddr : ℕ
  pub cost : ℕ

pub record LsaPayload : Type 0 where
  pub node_address : ℕ
  pub neighbor_count : ℕ
  pub links : List LinkParams

pub record RoutingHeader : Type 0 where
  pub src_address : ℕ
  pub dst_address : ℕ
  pub route_length : ℕ
  pub hop_index : ℕ
  pub route : List ℕ

pub record PingFields : Type 0 where
  pub is_request : Bool
  pub pad : ℕ
  pub send_time : ℕ

-- What follows the route of a DATA packet (the user's bytes) or of a PING packet. On a PING fresh
-- from the user the fields are whatever bytes stand in the buffer.
pub data Body : Type 0 where
  user_bytes : List ℕ → Body
  ping_body : PingFields → Body

pub data Payload : Type 0 where
  stp : StpPayload → Payload
  flood : Payload
  lsa : LsaPayload → Payload
  routed : RoutingHeader → Body → Payload
  unknown : ℕ → Payload

pub record Packet : Type 0 where
  pub total_size : ℕ
  pub payload : Payload

-- A DATA or PING packet.
pub record Routed : Type 0 where
  pub total_size : ℕ
  pub header : RoutingHeader
  pub body : Body

abbrev pub packet_of : Routed → Packet
packet_of r = record { total_size = r.total_size; payload = routed r.header r.body }

-- enum mixnet_packet_type_enum
unfoldable pub packet_type : Payload → ℕ
packet_type (stp p) = 0
packet_type flood = 1
packet_type (lsa p) = 2
packet_type (routed h (user_bytes b)) = 3
packet_type (routed h (ping_body p)) = 4
packet_type (unknown t) = t

-- The sizes of the structs, which the header asserts.
abbrev pub packet_header_size : ℕ
packet_header_size = 12

abbrev pub stp_size : ℕ
stp_size = 6

abbrev pub lsa_size : ℕ
lsa_size = 4

abbrev pub link_params_size : ℕ
link_params_size = 4

abbrev pub routing_header_size : ℕ
routing_header_size = 8

abbrev pub address_size : ℕ
address_size = 2

abbrev pub ping_size : ℕ
ping_size = 10

abbrev pub min_mixnet_packet_size : ℕ
min_mixnet_packet_size = 12

abbrev pub max_mixnet_packet_size : ℕ
max_mixnet_packet_size = 4096

abbrev pub max_mixnet_route_length : ℕ
max_mixnet_route_length = 256
