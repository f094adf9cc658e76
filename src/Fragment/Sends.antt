-- ===== src/Fragment/Sends.antt =====
-- No packet that the node sends is refused.
use cmu_mixnet.Prelude.{
  ℕ, ◌+◌, ◌≤◌, ◌≡◌, refl, ap, ◌∙◌, ◌++◌, inl, inr, Bool, true, ◌&&◌, ◌||◌, Option, none, some, List,
  [], ◌∷◌, map, arith, ◌==◌, ltb, Option-cases, Bool-cases, length, u8, u16,
}
use cmu_mixnet.Packet.{RoutingHeader, Body, user_bytes, ping_body, Routed, packet_of}
use cmu_mixnet.Config.{Config, Alloc, Send, reply_copy}
use cmu_mixnet.State.{NodeState, MixSlot, port_of}
use cmu_mixnet.State.Ports.{port_of_lem}
use cmu_mixnet.Mixing.{sent_slot, next_hop_of, enqueue, send_to_next_hop}
use cmu_mixnet.Routing.{
  routed_size, tail_size, with_route, source_route, chosen_route, make_ping_reply, is_request_body,
  is_next_hop, deliver, forward, handle_routed,
}
use cmu_mixnet.Tree.{user_port}
use cmu_mixnet.Fib.{fib_lookup}
use cmu_mixnet.Fragment.Sizes.{well_sized, acceptable, all_acceptable, all_acceptable-append}

-- What waits in the mixing buffer is acceptable.
unfoldable pub held_acceptable : ℕ → Option (List MixSlot) → Bool
held_acceptable n none = true
held_acceptable n (some held) = all_acceptable n (map sent_slot held)

-- The packets sent, and those that wait, are acceptable.
unfoldable pub outcome_acceptable : ℕ → NodeState × List Send → Bool
outcome_acceptable n (s, sent) = held_acceptable n s.mix && all_acceptable n sent

map-append :
    (xs : List MixSlot) (x : MixSlot)
    → map sent_slot (xs ++ x ∷ []) ≡ map sent_slot xs ++ sent_slot x ∷ []
map-append [] x = refl
map-append (y ∷ xs) x = ap (◌∷◌ (sent_slot y)) (map-append xs x)

pub outcome-append :
    (n : ℕ) (o : NodeState × List Send) (ys : List Send)
    → outcome_acceptable n o ≡ true
    → all_acceptable n ys ≡ true
    → outcome_acceptable n (o.0, o.1 ++ ys) ≡ true
unfolding outcome_acceptable
outcome-append n (s, xs) ys h k = ground (arith, all_acceptable-append n xs ys (ground arith) k)

send_to_next_hop-acceptable :
    (c : Config) (s : NodeState) (r : Routed)
    → c.num_neighbors ≤ 255
    → held_acceptable c.num_neighbors s.mix ≡ true
    → well_sized (packet_of r) ≡ true
    → outcome_acceptable c.num_neighbors (send_to_next_hop c s r) ≡ true
unfolding send_to_next_hop enqueue held_acceptable outcome_acceptable all_acceptable acceptable
send_to_next_hop-acceptable c s r small held ok =
    elim (Option-cases (port_of c s (next_hop_of r.header))) [
      | inl e ↦ ground arith
      | inr (port, e) ↦
          let found = port_of_lem c s (next_hop_of r.header) port e in
          elim (Option-cases s.mix) [
            | inl e' ↦ ground (arith, found)
            | inr (slots, e') ↦
                let n = c.num_neighbors in
                let new : MixSlot = record { port = u8 port; packet = packet_of r } in
                let old : all_acceptable n (map sent_slot slots) ≡ true = ground arith in
                let fresh : all_acceptable n (sent_slot new ∷ []) ≡ true = ground (arith, found) in
                let all : all_acceptable n (map sent_slot (slots ++ new ∷ [])) ≡ true =
                  ap (all_acceptable n) (map-append slots new)
                  ∙ all_acceptable-append n (map sent_slot slots) (sent_slot new ∷ []) old fresh in
                ground (arith, all)
          ]
    ]

advanced-well_sized :
    (size : ℕ) (h : RoutingHeader) (i : ℕ) (b : Body)
    → well_sized (packet_of (record { total_size = size; header = h; body = b })) ≡ true
    → well_sized
        (packet_of (record { total_size = size; header = record h { hop_index = i }; body = b }))
      ≡ true
unfolding well_sized
advanced-well_sized size h i (user_bytes b) ok = ok
advanced-well_sized size h i (ping_body p) ok = ok

-- A route that passes the check of the source gives a packet of the right size.
with_route-well_sized :
    (size : ℕ) (h : RoutingHeader) (b : Body) (route : List ℕ) (now : ℕ)
    → (let r : Routed = record { total_size = size; header = h; body = b } in
        routed_size (length route) + tail_size r ≤ 4096
        → well_sized (packet_of (with_route r route now)) ≡ true)
unfolding with_route well_sized
with_route-well_sized size h (user_bytes b) route now fits = ground arith
with_route-well_sized size h (ping_body p) route now fits = ground arith

source_route-acceptable :
    (m : Alloc) (c : Config) (s : NodeState) (r : Routed) (now random : ℕ)
    → c.num_neighbors ≤ 255
    → held_acceptable c.num_neighbors s.mix ≡ true
    → outcome_acceptable c.num_neighbors (source_route m c s r now random) ≡ true
unfolding source_route outcome_acceptable all_acceptable
source_route-acceptable m c s r now random small held =
    elim (Option-cases (fib_lookup s r.header.dst_address)) [
      | inl e ↦ ground arith
      | inr (entry, e) ↦
          let route = chosen_route m c s r.header.dst_address entry.route random in
          elim (Bool-cases (ltb 4096 (routed_size (length route) + tail_size r))) [
            | inl big ↦ ground arith
            | inr fits ↦
                let ok =
                  with_route-well_sized r.total_size r.header r.body route now (ground arith) in
                ground
                  (arith, send_to_next_hop-acceptable c s (with_route r route now) small held ok)
          ]
    ]

make_ping_reply-well_sized :
    (m : Alloc) (size : ℕ) (h : RoutingHeader) (b : Body) (reply : Routed)
    → (let r : Routed = record { total_size = size; header = h; body = b } in
        well_sized (packet_of r) ≡ true
        → make_ping_reply m r ≡ some reply
        → well_sized (packet_of reply) ≡ true)
unfolding make_ping_reply well_sized
make_ping_reply-well_sized m size h (user_bytes b) reply ok e = elim (Bool-cases (m reply_copy 0)) [
  | inl granted ↦ ground arith
  | inr refused ↦ absurd (ground arith)
]
make_ping_reply-well_sized m size h (ping_body p) reply ok e = elim (Bool-cases (m reply_copy 0)) [
  | inl granted ↦ ground arith
  | inr refused ↦ absurd (ground arith)
]

user-acceptable :
    (c : Config) (r : Routed)
    → c.num_neighbors ≤ 255
    → well_sized (packet_of r) ≡ true
    → all_acceptable c.num_neighbors ((user_port c, packet_of r) ∷ []) ≡ true
unfolding all_acceptable acceptable
user-acceptable c r small ok = ground arith

deliver-acceptable :
    (m : Alloc) (c : Config) (s : NodeState) (r : Routed)
    → c.num_neighbors ≤ 255
    → held_acceptable c.num_neighbors s.mix ≡ true
    → well_sized (packet_of r) ≡ true
    → outcome_acceptable c.num_neighbors (deliver m c s r) ≡ true
unfolding deliver outcome_acceptable all_acceptable acceptable
deliver-acceptable m c s r small held ok =
    let user = user-acceptable c r small ok in
    elim (Bool-cases (is_request_body r.body)) [
      | inr e ↦ ground (arith, user)
      | inl e ↦ elim (Option-cases (make_ping_reply m r)) [
        | inl e' ↦ ground (arith, user)
        | inr (reply, e') ↦
            let reply_ok = make_ping_reply-well_sized m r.total_size r.header r.body reply ok e' in
            let sent = send_to_next_hop-acceptable c s reply small held reply_ok in
            rw (e, e', deliver)
              (outcome-append c.num_neighbors (send_to_next_hop c s reply) _ sent user)
      ]
    ]

forward-acceptable :
    (c : Config) (s : NodeState) (r : Routed)
    → c.num_neighbors ≤ 255
    → held_acceptable c.num_neighbors s.mix ≡ true
    → well_sized (packet_of r) ≡ true
    → outcome_acceptable c.num_neighbors (forward c s r) ≡ true
unfolding forward outcome_acceptable all_acceptable
forward-acceptable c s r small held ok =
    let next : Routed = record r {
      header = record (r.header) { hop_index = u16 (r.header.hop_index + 1) };
    } in
    elim (Bool-cases (is_next_hop c r.header)) [
      | inl e ↦ ground (
        arith,
        send_to_next_hop-acceptable c s next small held
            (advanced-well_sized r.total_size r.header (u16 (r.header.hop_index + 1)) r.body ok),
      )
      | inr e ↦ ground arith
    ]

pub handle_routed-acceptable :
    (m : Alloc) (c : Config) (s : NodeState) (port : ℕ) (r : Routed) (now random : ℕ)
    → c.num_neighbors ≤ 255
    → held_acceptable c.num_neighbors s.mix ≡ true
    → (port == user_port c) || well_sized (packet_of r) ≡ true
    → outcome_acceptable c.num_neighbors (handle_routed m c s port r now random) ≡ true
unfolding handle_routed outcome_acceptable all_acceptable
handle_routed-acceptable m c s port r now random small held ok =
    elim (Bool-cases (port == user_port c)) [
      | inl e ↦ ground (arith, source_route-acceptable m c s r now random small held)
      | inr e ↦ ground (
        arith,
        deliver-acceptable m c s r small held (ground arith),
        forward-acceptable c s r small held (ground arith),
      )
    ]
