-- ===== src/Injection.antt =====
-- A packet on its way from the orchestrator into a node (send_packet of framework/orchestrator.cpp,
-- task_send_packet of framework/fragment.cpp).
use mathlib.Core.Path.{ap₂}
use cmu_mixnet.Prelude.{
  ℕ, suc, ◌+◌, ◌-◌, ◌*◌, ◌≤◌, ◌<◌, ◌≡◌, ◌⊎◌, refl, ap, ◌∙◌, Bool, true, inl, inr, none, some, List,
  [], ◌∷◌, arith, u16, length, get_or,
}
use cmu_mixnet.Config.{Config}
use cmu_mixnet.Tree.{user_port}
use cmu_mixnet.Fragment.Sizes.{well_sized}
use cmu_mixnet.Fragment.Rounds.{is_arrival}
use cmu_mixnet.Packet.{Packet, RoutingHeader, routed, user_bytes}
use cmu_mixnet.Message.{send_packet, Buffer, get16, finalize}
use cmu_mixnet.Message.Canary.{payload_size}
use cmu_mixnet.Headers.{Sendable, unchanged-Says, request-Says, sent-Says, accepted_request}
use cmu_mixnet.Control.Tasks.{RawBytes, bytes_from, injected_packet}
use cmu_mixnet.Control
use cmu_mixnet.Orchestrator.{put_bytes, fill_send_packet}
use cmu_mixnet.Orchestrator

-- The bytes that stand at a place, read one by one.
bytes_from_lem :
    (b : Buffer) (i : ℕ) (bytes : List ℕ)
    → ((k : ℕ) → k < length bytes → b (i + k) ≡ get_or bytes k 0)
    → bytes_from b i (length bytes) ≡ bytes
bytes_from_lem b i [] same = refl
bytes_from_lem b i (x ∷ xs) same =
    let first : b i ≡ x = ap b (omega arith) ∙ same 0 (omega arith) in
    ap₂ (λ (y : ℕ) (ys : List ℕ). y ∷ ys) first
      (bytes_from_lem b (i + 1) xs (λ k lt. ap b (omega arith) ∙ same (suc k) (omega (arith, lt))))

module _ (src dst type : ℕ) (bytes : List ℕ) (b : Buffer) where
  abbrev filled : Buffer
  filled = fill_send_packet src dst type bytes b

  filled_header : (j : ℕ) → j < 8 → filled j ≡ b j
  unfolding fill_send_packet put_bytes
  filled_header j lt = ground arith

  filled_fields :
      src < 65536
      → dst < 65536
      → type < 65536
      → length bytes < 65536
      → (get16 filled 8 ≡ type)
        × (get16 filled 10 ≡ src)
        × (get16 filled 12 ≡ dst)
        × (get16 filled 14 ≡ length bytes)
  unfolding fill_send_packet put_bytes
  filled_fields s d t n = (ground arith, ground arith, ground arith, ground arith)

  filled_bytes : (k : ℕ) → k < length bytes → filled (16 + k) ≡ get_or bytes k 0
  unfolding fill_send_packet put_bytes
  filled_bytes k lt =
      let place : 16 + k - 16 ≡ k = omega arith in
      ground (arith, ap (λ (m : ℕ). get_or bytes m 0) place)

-- A DATA packet that the orchestrator's send_packet asks a fragment to inject, of no more bytes
-- than it allows and between 16-bit addresses, arrives: the request can be finalized, the fragment
-- accepts it, and the packet that it makes of it has these addresses, these bytes, an empty route
-- and the size of its headers and bytes, which leaves room for the longest route.
pub injected_data :
    (addr_size fid src dst : ℕ) (bytes : List ℕ) (raw : RawBytes) (b : Buffer)
    (check_id check_type : Bool)
    → fid < 65536
    → src < 65536
    → dst < 65536
    → length bytes ≤ Orchestrator.max_mixnet_data_size
    → (let header : RoutingHeader = record {
      src_address = src;
      dst_address = dst;
      route_length = 0;
      hop_index = 0;
      route = [];
    } in
        let packet : Packet = record {
          total_size = 20 + length bytes;
          payload = routed header (user_bytes bytes);
        } in
        (b' : Buffer) × (finalize addr_size
            (fill_send_packet src dst 3 bytes (Orchestrator.prepare_header fid send_packet b))
          ≡ some b')
        × (Control.check_header addr_size fid check_id check_type send_packet b' ≡ some none)
        × (injected_packet raw b' ≡ packet)
        × (packet.total_size + 2 * 256 ≤ 4096))
unfolding injected_packet payload_size
injected_data addr_size fid src dst bytes raw b check_id check_type small s d short =
    let p = Orchestrator.prepare_header fid send_packet b in
    let f = fill_send_packet src dst 3 bytes p in
    let n = length bytes in
    let (type_at, src_at, dst_at, size_at) =
      filled_fields src dst 3 bytes p s d (omega arith) (omega (arith, short)) in
    let says =
      unchanged-Says true send_packet fid none p f (request-Says fid send_packet b small)
        (λ j lo hi. filled_header src dst 3 bytes p j hi) in
    let sendable : Sendable addr_size true send_packet f =
      (λ e. cc, omega (arith, size_at, short), λ e. cc) in
    let (b', made, valid, h, same) =
      sent-Says addr_size true send_packet fid none f says sendable in
    let field : (i : ℕ) → 8 ≤ i → i < 15 → get16 b' i ≡ get16 f i = λ i lo hi.
      ap₂ (λ (x y : ℕ). x + 256 * y) (same i (omega arith) (omega (arith, size_at)))
        (same (i + 1) (omega arith) (omega (arith, size_at))) in
    let is_data : get16 b' 8 ≡ 3 = field 8 (omega arith) (omega arith) ∙ type_at in
    let from : get16 b' 10 ≡ src = field 10 (omega arith) (omega arith) ∙ src_at in
    let to : get16 b' 12 ≡ dst = field 12 (omega arith) (omega arith) ∙ dst_at in
    let counted : get16 b' 14 ≡ n = field 14 (omega arith) (omega arith) ∙ size_at in
    let body : bytes_from b' 16 n ≡ bytes = bytes_from_lem b' 16 bytes (λ k lt.
      same (16 + k) (omega arith) (omega (arith, size_at, lt))
      ∙ filled_bytes src dst 3 bytes p k lt) in
    let wrap : u16 (20 + n) ≡ 20 + n = omega (arith, short) in
    (
      b',
      made,
      accepted_request addr_size fid send_packet b' check_id check_type valid h,
      rw (is_data, from, to, counted, body, wrap) refl,
      omega (arith, short),
    )

-- What a FLOOD, DATA or PING request injects is fit for the node's user port.
pub injected_arrives :
    (c : Config) (raw : RawBytes) (b : Buffer)
    → (get16 b 8 ≡ 1) ⊎ ((get16 b 8 ≡ 3) ⊎ (get16 b 8 ≡ 4))
    → is_arrival c (user_port c) (injected_packet raw b) ≡ true
unfolding injected_packet is_arrival well_sized
injected_arrives c raw b (inl is_flood) = rw is_flood refl
injected_arrives c raw b (inr (inl is_data)) = rw is_data (ground arith)
injected_arrives c raw b (inr (inr is_ping)) = rw is_ping (ground arith)
