-- ===== src/Node.antt =====
-- The main loop (check_timers and run_node of mixnet/node.c). One round takes what the environment
-- gives: the packet received, the granted allocations, the clock and the value of rand().
pub mod Invariant
pub mod Kept
pub mod Remixed
pub mod Reached
use cmu_mixnet.Prelude.{ℕ, Option, none, some, List, [], ◌∷◌, ◌++◌, if◌then◌else◌, ◌==◌, leb, sub64}
use cmu_mixnet.Packet.{Packet, stp, flood, lsa, routed, unknown}
use cmu_mixnet.Config.{Config, Alloc, Send}
use cmu_mixnet.State.{NodeState, become_root, unblock_all, state_init, state_free}
use cmu_mixnet.Tree.{broadcast_stp, handle_stp, handle_flood}
use cmu_mixnet.LinkState.{originate_lsa, handle_lsa}
use cmu_mixnet.Routing.{handle_routed}

-- The hello of the root, or the election of the node that has lost its root.
unfoldable pub tree_timer : Alloc → Config → NodeState → ℕ → NodeState × List Send
tree_timer m c s now =
    if s.root == c.node_addr
    then if leb c.root_hello_interval_ms (sub64 now s.hello_start_ms)
      then (record s { hello_start_ms = now }, broadcast_stp m c s none)
      else (s, [])
    else if leb c.reelection_interval_ms (sub64 now s.reelection_start_ms)
    then (let s' = unblock_all c (become_root c s) in
        (record s' { hello_start_ms = now; reelection_start_ms = now }, broadcast_stp m c s' none))
    else (s, [])

unfoldable pub lsa_timer : Alloc → Config → NodeState → ℕ → NodeState × List Send
lsa_timer m c s now =
    if leb c.root_hello_interval_ms (sub64 now s.lsa_start_ms)
    then (let (s', sent) = originate_lsa m c s in (record s' { lsa_start_ms = now }, sent))
    else (s, [])

unfoldable pub check_timers : Alloc → Config → NodeState → ℕ → NodeState × List Send
unfolding tree_timer lsa_timer
check_timers m c s now =
    let (s1, sent1) = tree_timer m c s now in
    let (s2, sent2) = lsa_timer m c s1 now in (s2, sent1 ++ sent2)

-- What one round of the loop meets.
pub record Round : Type 0 where
  pub received : Option (ℕ × Packet)
  pub handler_alloc : Alloc
  pub timer_alloc : Alloc
  pub handler_now : ℕ
  pub timer_now : ℕ
  pub random : ℕ

-- The `switch` on the packet's type.
unfoldable pub handle_packet : Config → NodeState → Round → ℕ → Packet → NodeState × List Send
handle_packet c s e port packet = elim packet.payload [
  | stp p ↦ handle_stp e.handler_alloc c s port p e.handler_now
  | flood ↦ (s, handle_flood e.handler_alloc c s port packet)
  | lsa p ↦ handle_lsa e.handler_alloc c s port packet.total_size p
  | routed h b ↦
      handle_routed e.handler_alloc c s port
        (record { total_size = packet.total_size; header = h; body = b }) e.handler_now e.random
  | unknown t ↦ (s, [])
]

unfoldable pub handle_received : Config → NodeState → Round → NodeState × List Send
unfolding handle_packet
handle_received c s e = elim e.received [
  | none ↦ (s, [])
  | some (port, packet) ↦ handle_packet c s e port packet
]

-- The body of the `while` loop.
unfoldable pub node_round : Config → NodeState → Round → NodeState × List Send
unfolding handle_received check_timers
node_round c s e =
    let (s1, sent1) = handle_received c s e in
    let (s2, sent2) = check_timers e.timer_alloc c s1 e.timer_now in (s2, sent1 ++ sent2)

-- The loop, for as many rounds as *keep_running stays set.
unfoldable pub node_rounds : Config → NodeState → List Round → NodeState × List Send
unfolding node_round
node_rounds c s [] = (s, [])
node_rounds c s (e ∷ es) =
    let (s1, sent1) = node_round c s e in
    let (s2, sent2) = node_rounds c s1 es in (s2, sent1 ++ sent2)

-- The state left behind and all that was sent; `none` if the set-up fails.
unfoldable pub run_node : Alloc → Config → ℕ → ℕ → ℕ → List Round → Option (NodeState × List Send)
unfolding node_rounds
run_node m c hello_ms reelection_ms lsa_ms es =
    elim (state_init m c hello_ms reelection_ms lsa_ms) [
      | none ↦ none
      | some s ↦
          let (s', sent) = node_rounds c s es in
          some (state_free s', broadcast_stp m c s none ++ sent)
    ]
