-- ===== src/Message.antt =====
-- The messages between the orchestrator and the fragments (framework/message.h and message.cpp). A
-- message is its buffer, byte by byte, with the fields in the layout of the header and of the
-- payload structs, the low byte of a field first. `none` is a failed assertion.
pub mod Code
pub mod Canary
use cmu_mixnet.Prelude.{
  ℕ, zero, suc, ◌+◌, ◌-◌, ◌*◌, ◌/◌, ◌%◌, ◌^◌, ◌≤◌, ◌<◌, Bool, true, false, not, ◌&&◌, ◌||◌, Option,
  none, some, List, [], ◌∷◌, if◌then◌else◌, ◌==◌, ltb, get_elem?, u16,
}
use cmu_mixnet.ErrorCode.{ErrorCode, error_codes, error_number}

pub data MessageType : Type 0 where
  noop setup_ctrl setup_pcap topology start_mixnet_server start_mixnet_clients : MessageType
  resolve_mixnet_conns change_link_state pcap_data pcap_subscription send_packet : MessageType
  start_testcase end_testcase shutdown : MessageType

-- The enumeration in its order, up to ENUMERATION_LIMIT.
abbrev pub message_types : List MessageType
message_types =
    noop ∷ setup_ctrl ∷ setup_pcap ∷ topology ∷ start_mixnet_server ∷ start_mixnet_clients
    ∷ resolve_mixnet_conns ∷ change_link_state ∷ pcap_data ∷ pcap_subscription ∷ send_packet
    ∷ start_testcase ∷ end_testcase ∷ shutdown ∷ []

unfoldable pub type_number : MessageType → ℕ
type_number noop = 0
type_number setup_ctrl = 1
type_number setup_pcap = 2
type_number topology = 3
type_number start_mixnet_server = 4
type_number start_mixnet_clients = 5
type_number resolve_mixnet_conns = 6
type_number change_link_state = 7
type_number pcap_data = 8
type_number pcap_subscription = 9
type_number send_packet = 10
type_number start_testcase = 11
type_number end_testcase = 12
type_number shutdown = 13

abbrev pub Buffer : Type 0
Buffer = ℕ → ℕ

abbrev pub get16 : Buffer → ℕ → ℕ
get16 b i = b i + 256 * b (i + 1)

abbrev pub put8 : ℕ → ℕ → Buffer → Buffer
put8 i v b j = if i == j then v % 256 else b j

abbrev pub put16 : ℕ → ℕ → Buffer → Buffer
put16 i v b = put8 (i + 1) (v / 256) (put8 i v b)

-- The sizes of the header, of the canary and of its value's bytes.
abbrev pub header_size : ℕ
header_size = 8

abbrev pub canary_size : ℕ
canary_size = 4

-- 0xdeadbeef
abbrev pub has_canary : Buffer → ℕ → Bool
has_canary b i = (b i == 239) && (b (i + 1) == 190) && (b (i + 2) == 173) && (b (i + 3) == 222)

abbrev pub put_canary : ℕ → Buffer → Buffer
put_canary i b = put8 (i + 3) 222 (put8 (i + 2) 173 (put8 (i + 1) 190 (put8 i 239 b)))

abbrev pub min_message_length : ℕ
min_message_length = header_size + canary_size

abbrev pub max_message_length : ℕ
max_message_length = 65535

-- The direction is the top bit, the type the other 15.
pub code_to_type : ℕ → Option MessageType
code_to_type code = get_elem? message_types (code % 2 ^ 15)

pub code_is_request : ℕ → Bool
code_is_request code = code / 2 ^ 15 % 2 == 0

unfoldable pub code_create : Bool → MessageType → ℕ
unfolding type_number
code_create is_request type = u16 ((if is_request then 0 else 2 ^ 15) + type_number type % 2 ^ 15)

abbrev pub message_code : Buffer → ℕ
message_code b = get16 b 2

unfoldable pub is_request : Buffer → Bool
unfolding code_is_request
is_request b = code_is_request (message_code b)

unfoldable pub get_type : Buffer → Option MessageType
unfolding code_to_type
get_type b = code_to_type (message_code b)

unfoldable pub get_fragment_id : Buffer → ℕ
get_fragment_id b = get16 b 4

pub get_total_length : Buffer → ℕ
get_total_length b = get16 b 0

unfoldable pub get_error_code : Buffer → Option (Option ErrorCode)
get_error_code b = get_elem? error_codes (get16 b 6)

-- The payload structs' sizes; `addr_size` is that of the system's sockaddr_in.
abbrev pub with_addresses : (addr_size : ℕ) → ℕ → ℕ
with_addresses addr_size n = u16 (8 + n * addr_size)

-- The length of a request's or a response's payload.
unfoldable pub payload_length : (addr_size : ℕ) → Bool → MessageType → Buffer → Option ℕ
payload_length addr_size request noop b = none
payload_length addr_size request setup_ctrl b = some (if request then 1 else 4)
payload_length addr_size request setup_pcap b = some (if request then u16 addr_size else 0)
payload_length addr_size request topology b =
    some (if request then u16 (16 + get16 b (header_size + 2) * 2) else 0)
payload_length addr_size request start_mixnet_server b = some (if request then 0 else u16 addr_size)
payload_length addr_size request start_mixnet_clients b =
    some (with_addresses addr_size (get16 b header_size))
payload_length addr_size request resolve_mixnet_conns b =
    some (if request then with_addresses addr_size (get16 b header_size) else 0)
payload_length addr_size request change_link_state b = some (if request then 4 else 0)
payload_length addr_size request pcap_data b = some (if request then 0 else get16 b header_size)
payload_length addr_size request pcap_subscription b = some (if request then 1 else 0)
payload_length addr_size request send_packet b =
    some (if request then u16 (8 + get16 b (header_size + 6)) else 0)
payload_length addr_size request start_testcase b = some 0
payload_length addr_size request end_testcase b = some 0
payload_length addr_size request shutdown b = some 0

unfoldable pub compute_total_length : (addr_size : ℕ) → Buffer → Option ℕ
compute_total_length addr_size b = elim (get_type b) [
  | none ↦ none
  | some type ↦ elim (payload_length addr_size (is_request b) type b) [
    | none ↦ none
    | some length ↦ some (u16 (header_size + length + canary_size))
  ]
]

unfoldable pub validate : (addr_size : ℕ) → Buffer → Option Bool
validate addr_size b = elim (compute_total_length addr_size b) [
  | none ↦ none
  | some length ↦ some (
      if ltb length min_message_length || ltb max_message_length length
      then false
      else has_canary b (length - canary_size))
]

-- memset of the header.
pub clear : Buffer → Buffer
clear b j = if ltb j header_size then 0 else b j

unfoldable pub finalize : (addr_size : ℕ) → Buffer → Option Buffer
finalize addr_size b = elim (compute_total_length addr_size b) [
  | none ↦ none
  | some length ↦
      if ltb length min_message_length || ltb max_message_length length
      then none
      else some (put_canary (length - canary_size) (put16 0 length b))
]

unfoldable pub set_fragment_id : ℕ → Buffer → Buffer
set_fragment_id id b = put16 4 id b

unfoldable pub set_error_code : Option ErrorCode → Buffer → Buffer
unfolding error_number
set_error_code e b = put16 6 (error_number e) b

unfoldable pub set_code : Bool → MessageType → Buffer → Buffer
unfolding code_create
set_code is_request type b = put16 2 (code_create is_request type) b
