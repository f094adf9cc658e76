-- ===== src/Fragment/Rounds.antt =====
-- No packet that a run of the node sends is refused.
use mathlib.Core.Option.{some-injective}
use cmu_mixnet.Prelude.{
  ℕ, ◌≤◌, ◌≡◌, refl, sym, ap, ◌∙◌, ◌⊎◌, ◌++◌, inl, inr, Bool, true, false, ◌&&◌, ◌||◌, none, some,
  List, [], ◌∷◌, arith, ◌==◌, ltb, leb, Option-cases, Bool-cases, set, take, sub64,
}
use cmu_mixnet.Packet.{StpPayload, LsaPayload, Payload, stp, flood, lsa, routed, unknown, Packet}
use cmu_mixnet.Config.{Config, Alloc, Send}
use cmu_mixnet.State.{NodeState, blocked_at, state_init, unblock_all, become_root}
use cmu_mixnet.Tree.{
  stp_branch, adopt_root, follow_parent, switch_parent, block_sibling, is_better_path, child_rule,
  alive_rule, handle_stp, user_port, handle_flood, broadcast_stp, broadcast_on_tree,
}
use cmu_mixnet.Topology.{graph_update}
use cmu_mixnet.Fib.{fib_reset, fill_table, update_shortest_path}
use cmu_mixnet.LinkState.{
  consume_lsa, originate_lsa, handle_lsa, all_known, make_lsa_packet, own_lsa, lsa_packet_size,
}
use cmu_mixnet.Node.{
  tree_timer, lsa_timer, check_timers, Round, handle_packet, handle_received, node_round,
  node_rounds, run_node,
}
use cmu_mixnet.Fragment.Sizes.{
  well_sized, acceptable, all_acceptable, all_acceptable-append, broadcast_stp-acceptable,
  broadcast_on_tree-acceptable, make_lsa_packet-well_sized,
}
use cmu_mixnet.Fragment.Sends.{held_acceptable, outcome_acceptable, handle_routed-acceptable}

idle :
    (n : ℕ) (s : NodeState) → held_acceptable n s.mix ≡ true → outcome_acceptable n (s, []) ≡ true
unfolding outcome_acceptable all_acceptable
idle n s held = ground arith

kept :
    (n : ℕ) (s s' : NodeState) (sent : List Send)
    → held_acceptable n s.mix ≡ true
    → s'.mix ≡ s.mix
    → all_acceptable n sent ≡ true
    → outcome_acceptable n (s', sent) ≡ true
unfolding outcome_acceptable
kept n s s' sent held mix fine = rw (mix, held) fine

outcome_parts :
    (n : ℕ) (o : NodeState × List Send)
    → outcome_acceptable n o ≡ true
    → (held_acceptable n (o.0).mix ≡ true) × (all_acceptable n o.1 ≡ true)
unfolding outcome_acceptable
outcome_parts n o h = ground arith

both :
    (n : ℕ) (sent : List Send) (o : NodeState × List Send)
    → all_acceptable n sent ≡ true
    → outcome_acceptable n o ≡ true
    → outcome_acceptable n (o.0, sent ++ o.1) ≡ true
unfolding outcome_acceptable
both n sent o h k = ground (arith, all_acceptable-append n sent o.1 h (ground arith))

-- The handlers that leave the mixing buffer alone.
stp_branch-acceptable :
    (m : Alloc) (c : Config) (s : NodeState) (port : ℕ) (p : StpPayload)
    → c.num_neighbors ≤ 255
    → ((stp_branch m c s port p).0.mix ≡ s.mix)
      × (all_acceptable c.num_neighbors (stp_branch m c s port p).1 ≡ true)
unfolding stp_branch adopt_root follow_parent switch_parent block_sibling unblock_all all_acceptable
stp_branch-acceptable m c s port p small = elim (Bool-cases (ltb p.root_address s.root)) [
  | inl e ↦ rw (e, stp_branch) (refl, broadcast_stp-acceptable m c _ _ small)
  | inr e ↦ elim (Bool-cases ((p.root_address == s.root) && (p.node_address == s.next_hop))) [
    | inl e' ↦ rw (e, e', stp_branch) (refl, broadcast_stp-acceptable m c _ _ small)
    | inr e' ↦ elim (Bool-cases ((p.root_address == s.root) && is_better_path s p)) [
      | inl e'' ↦ rw (e, e', e'', stp_branch) (refl, broadcast_stp-acceptable m c _ _ small)
      | inr e'' ↦ elim (Bool-cases ((p.root_address == s.root) && leb p.path_length s.path_len)) [
        | inl f ↦ rw (e, e', e'', f, stp_branch) (refl, refl)
        | inr f ↦ rw (e, e', e'', f, stp_branch) (refl, refl)
      ]
    ]
  ]
]

rules-mix :
    (s : NodeState) (port : ℕ) (p : StpPayload) (now : ℕ)
    → (alive_rule (child_rule s port p) p now).mix ≡ s.mix
unfolding alive_rule child_rule
rules-mix s port p now = ground arith

handle_stp-acceptable :
    (m : Alloc) (c : Config) (s : NodeState) (port : ℕ) (p : StpPayload) (now : ℕ)
    → c.num_neighbors ≤ 255
    → held_acceptable c.num_neighbors s.mix ≡ true
    → outcome_acceptable c.num_neighbors (handle_stp m c s port p now) ≡ true
unfolding handle_stp outcome_acceptable
handle_stp-acceptable m c s port p now small held =
    let known : NodeState = record s { neighbor_addr = set s.neighbor_addr port p.node_address } in
    let (kept, fine) = stp_branch-acceptable m c known port p small in
    let mix = rules-mix (stp_branch m c known port p).0 port p now ∙ kept in
    rw (mix, fine, held) refl

handle_flood-acceptable :
    (m : Alloc) (c : Config) (s : NodeState) (port : ℕ) (size : ℕ)
    → c.num_neighbors ≤ 255
    → well_sized (record { total_size = size; payload = flood }) ≡ true
    → all_acceptable c.num_neighbors
        (handle_flood m c s port (record { total_size = size; payload = flood }))
      ≡ true
unfolding handle_flood all_acceptable acceptable
handle_flood-acceptable m c s port size small ok =
    let copies =
      broadcast_on_tree-acceptable m c s (some port) (record { total_size = size; payload = flood })
        small ok in
    elim (Bool-cases (port == user_port c)) [
      | inl e ↦ rw (e, handle_flood) copies
      | inr e ↦ elim (Bool-cases (blocked_at s port)) [
        | inl e' ↦ rw (e, e', handle_flood) refl
        | inr e' ↦
            rw (e, e', handle_flood)
              (all_acceptable-append c.num_neighbors _ _ copies (ground arith))
      ]
    ]

update_shortest_path-mix :
    (m : Alloc) (c : Config) (s : NodeState) → (update_shortest_path m c s).mix ≡ s.mix
unfolding update_shortest_path fill_table fib_reset
update_shortest_path-mix m c s = ground arith

consume_lsa-mix :
    (m : Alloc) (c : Config) (s : NodeState) (p : LsaPayload) → (consume_lsa m c s p).mix ≡ s.mix
unfolding consume_lsa
consume_lsa-mix m c s p =
    let update = graph_update m s.topology p.node_address (take p.neighbor_count p.links) in
    elim (Bool-cases update.0) [
      | inl e ↦
          rw (e, consume_lsa) (update_shortest_path-mix m c (record s { topology = update.1 }))
      | inr e ↦ rw (e, consume_lsa) refl
    ]

originate_lsa-acceptable :
    (m : Alloc) (c : Config) (s : NodeState)
    → c.num_neighbors ≤ 255
    → held_acceptable c.num_neighbors s.mix ≡ true
    → outcome_acceptable c.num_neighbors (originate_lsa m c s) ≡ true
unfolding originate_lsa outcome_acceptable all_acceptable
originate_lsa-acceptable m c s small held = elim (Bool-cases (all_known c.num_neighbors 0 s)) [
  | inr e ↦ rw (e, originate_lsa, held) refl
  | inl e ↦ elim (Option-cases (make_lsa_packet m c s)) [
    | inl e' ↦ rw (e, e', originate_lsa, held) refl
    | inr (packet, e') ↦
        let ok = make_lsa_packet-well_sized m c s packet small e' in
        let s' = consume_lsa m c s (own_lsa c s) in
        rw (e, e', originate_lsa, consume_lsa-mix m c s (own_lsa c s), held)
          (broadcast_on_tree-acceptable m c s' none packet small ok)
  ]
]

handle_lsa_cases :
    (m : Alloc) (c : Config) (s : NodeState) (port size : ℕ) (p : LsaPayload)
    → (handle_lsa m c s port size p ≡ (s, []))
      ⊎ (handle_lsa m c s port size p ≡ (
        consume_lsa m c s p,
        broadcast_on_tree m c
            (consume_lsa m c s p)
            (some port)
            (record { total_size = size; payload = lsa p }),
      ))
unfolding handle_lsa
handle_lsa_cases m c s port size p = elim (Bool-cases (port == user_port c)) [
  | inl e ↦ inl (rw (e, handle_lsa) refl)
  | inr e ↦
      elim (Bool-cases
        (ltb size (lsa_packet_size 0) || ltb size (lsa_packet_size p.neighbor_count))) [
          | inl f ↦ inl (rw (e, f, handle_lsa) refl)
          | inr f ↦ elim (Bool-cases (p.node_address == c.node_addr)) [
            | inl g ↦ inl (rw (e, f, g, handle_lsa) refl)
            | inr g ↦ elim (Bool-cases (blocked_at s port)) [
              | inl h ↦ inl (rw (e, f, g, h, handle_lsa) refl)
              | inr h ↦ inr (rw (e, f, g, h, handle_lsa) refl)
            ]
          ]
        ]
]

handle_lsa-acceptable :
    (m : Alloc) (c : Config) (s : NodeState) (port size : ℕ) (p : LsaPayload)
    → c.num_neighbors ≤ 255
    → held_acceptable c.num_neighbors s.mix ≡ true
    → well_sized (record { total_size = size; payload = lsa p }) ≡ true
    → outcome_acceptable c.num_neighbors (handle_lsa m c s port size p) ≡ true
handle_lsa-acceptable m c s port size p small held ok = elim (handle_lsa_cases m c s port size p) [
  | inl e ↦ ap (outcome_acceptable c.num_neighbors) e ∙ idle c.num_neighbors s held
  | inr e ↦
      let s' = consume_lsa m c s p in
      ap (outcome_acceptable c.num_neighbors) e
      ∙ kept c.num_neighbors s s' _ held (consume_lsa-mix m c s p) (
          broadcast_on_tree-acceptable m c s' (some port)
            (record { total_size = size; payload = lsa p }) small ok)
]

tree_timer-acceptable :
    (m : Alloc) (c : Config) (s : NodeState) (now : ℕ)
    → c.num_neighbors ≤ 255
    → held_acceptable c.num_neighbors s.mix ≡ true
    → outcome_acceptable c.num_neighbors (tree_timer m c s now) ≡ true
unfolding tree_timer outcome_acceptable all_acceptable become_root unblock_all
tree_timer-acceptable m c s now small held =
    let n = c.num_neighbors in
    let lost = unblock_all c (become_root c s) in
    elim (Bool-cases (s.root == c.node_addr)) [
      | inl e ↦ elim (Bool-cases (leb c.root_hello_interval_ms (sub64 now s.hello_start_ms))) [
        | inl f ↦
            rw (e, f, tree_timer)
              (kept n s (record s { hello_start_ms = now }) _ held refl
                (broadcast_stp-acceptable m c s none small))
        | inr f ↦ rw (e, f, tree_timer) (idle n s held)
      ]
      | inr e ↦ elim (Bool-cases (leb c.reelection_interval_ms (sub64 now s.reelection_start_ms))) [
        | inl f ↦
            let s' : NodeState = record lost { hello_start_ms = now; reelection_start_ms = now } in
            rw (e, f, tree_timer)
              (kept n s s' _ held refl (broadcast_stp-acceptable m c lost none small))
        | inr f ↦ rw (e, f, tree_timer) (idle n s held)
      ]
    ]

lsa_timer-acceptable :
    (m : Alloc) (c : Config) (s : NodeState) (now : ℕ)
    → c.num_neighbors ≤ 255
    → held_acceptable c.num_neighbors s.mix ≡ true
    → outcome_acceptable c.num_neighbors (lsa_timer m c s now) ≡ true
unfolding lsa_timer outcome_acceptable all_acceptable
lsa_timer-acceptable m c s now small held =
    let own = originate_lsa-acceptable m c s small held in
    let n = c.num_neighbors in
    elim (Bool-cases (leb c.root_hello_interval_ms (sub64 now s.lsa_start_ms))) [
      | inl e ↦ rw (e, lsa_timer) own
      | inr e ↦ rw (e, lsa_timer) (idle n s held)
    ]

check_timers-acceptable :
    (m : Alloc) (c : Config) (s : NodeState) (now : ℕ)
    → c.num_neighbors ≤ 255
    → held_acceptable c.num_neighbors s.mix ≡ true
    → outcome_acceptable c.num_neighbors (check_timers m c s now) ≡ true
unfolding check_timers
check_timers-acceptable m c s now small held =
    let n = c.num_neighbors in
    let first = tree_timer-acceptable m c s now small held in
    let (held', sent) = outcome_parts n (tree_timer m c s now) first in
    both n (tree_timer m c s now).1 (lsa_timer m c (tree_timer m c s now).0 now) sent
      (lsa_timer-acceptable m c (tree_timer m c s now).0 now small held')

abbrev is_routed : Payload → Bool
is_routed (stp p) = false
is_routed flood = false
is_routed (lsa p) = false
is_routed (routed h b) = true
is_routed (unknown t) = false

-- A packet that is well sized, or one of the user's own DATA or PING packets.
unfoldable pub is_arrival : Config → ℕ → Packet → Bool
is_arrival c port p = well_sized p || ((port == user_port c) && is_routed p.payload)

-- What a round meets is fit for the node.
unfoldable pub round_fits : Config → Round → Bool
round_fits c e = elim e.received [ none ↦ true | some (port, p) ↦ is_arrival c port p ]

unfoldable pub rounds_fit : Config → List Round → Bool
unfolding round_fits is_arrival
rounds_fit c [] = true
rounds_fit c (e ∷ es) = round_fits c e && rounds_fit c es

handle_packet-acceptable :
    (c : Config) (s : NodeState) (e : Round) (port size : ℕ) (payload : Payload)
    → c.num_neighbors ≤ 255
    → held_acceptable c.num_neighbors s.mix ≡ true
    → is_arrival c port (record { total_size = size; payload = payload }) ≡ true
    → outcome_acceptable c.num_neighbors
        (handle_packet c s e port (record { total_size = size; payload = payload }))
      ≡ true
unfolding handle_packet is_arrival
handle_packet-acceptable c s e port size (stp p) small held fits =
    handle_stp-acceptable e.handler_alloc c s port p e.handler_now small held
handle_packet-acceptable c s e port size flood small held fits =
    kept c.num_neighbors s s _ held refl
      (handle_flood-acceptable e.handler_alloc c s port size small (ground arith))
handle_packet-acceptable c s e port size (lsa p) small held fits =
    handle_lsa-acceptable e.handler_alloc c s port size p small held (ground arith)
handle_packet-acceptable c s e port size (routed h b) small held fits =
    handle_routed-acceptable e.handler_alloc c s port
      (record { total_size = size; header = h; body = b }) e.handler_now e.random small held
      (ground arith)
handle_packet-acceptable c s e port size (unknown t) small held fits = idle c.num_neighbors s held

handle_received-acceptable :
    (c : Config) (s : NodeState) (e : Round)
    → c.num_neighbors ≤ 255
    → held_acceptable c.num_neighbors s.mix ≡ true
    → round_fits c e ≡ true
    → outcome_acceptable c.num_neighbors (handle_received c s e) ≡ true
unfolding handle_received round_fits
handle_received-acceptable c s e small held fits = elim (Option-cases e.received) [
  | inl none_yet ↦ rw (none_yet, handle_received) (idle c.num_neighbors s held)
  | inr ((port, p), got) ↦
      let fits' = rw (got, round_fits) at fits in
      rw (got, handle_received)
        (handle_packet-acceptable c s e port p.total_size p.payload small held fits')
]

-- With at most 255 neighbors, one round of the loop sends only packets that their ports accept, and
-- leaves only such packets waiting in the mixing buffer, if only such packets waited before and the
-- packet received is well sized or a DATA or PING packet from the user.
pub node_round-acceptable :
    (c : Config) (s : NodeState) (e : Round)
    → c.num_neighbors ≤ 255
    → held_acceptable c.num_neighbors s.mix ≡ true
    → round_fits c e ≡ true
    → outcome_acceptable c.num_neighbors (node_round c s e) ≡ true
unfolding node_round
node_round-acceptable c s e small held fits =
    let n = c.num_neighbors in
    let o = handle_received c s e in
    let (held', sent) = outcome_parts n o (handle_received-acceptable c s e small held fits) in
    both n o.1 (check_timers e.timer_alloc c o.0 e.timer_now) sent
      (check_timers-acceptable e.timer_alloc c o.0 e.timer_now small held')

node_rounds-acceptable :
    (c : Config) (s : NodeState) (es : List Round)
    → c.num_neighbors ≤ 255
    → held_acceptable c.num_neighbors s.mix ≡ true
    → rounds_fit c es ≡ true
    → outcome_acceptable c.num_neighbors (node_rounds c s es) ≡ true
unfolding node_rounds rounds_fit
node_rounds-acceptable c s [] small held fits = idle c.num_neighbors s held
node_rounds-acceptable c s (e ∷ es) small held fits =
    let n = c.num_neighbors in
    let o = node_round c s e in
    let (held', sent) = outcome_parts n o (node_round-acceptable c s e small held (ground arith)) in
    both n o.1 (node_rounds c o.0 es) sent
      (node_rounds-acceptable c o.0 es small held' (ground arith))

state_init-held :
    (m : Alloc) (c : Config) (hello reelection lsa_ms : ℕ) (s : NodeState)
    → state_init m c hello reelection lsa_ms ≡ some s
    → held_acceptable c.num_neighbors s.mix ≡ true
unfolding state_init held_acceptable all_acceptable
state_init-held m c hello reelection lsa_ms s h = elim (Bool-cases (ltb 1 c.mixing_factor)) [
  | inl e ↦ let q : s.mix ≡ some [] = ground arith in ap (held_acceptable c.num_neighbors) q
  | inr e ↦ let q : s.mix ≡ none = ground arith in ap (held_acceptable c.num_neighbors) q
]

-- From start to end: with at most 255 neighbors, whatever memory, clock and random values a run
-- meets, no packet that it sends is one that its port refuses, if every packet it receives is well
-- sized or a DATA or PING packet from the user.
pub run_node-acceptable :
    (m : Alloc) (c : Config) (hello reelection lsa_ms : ℕ) (es : List Round) (s : NodeState)
    (sent : List Send)
    → c.num_neighbors ≤ 255
    → rounds_fit c es ≡ true
    → run_node m c hello reelection lsa_ms es ≡ some (s, sent)
    → all_acceptable c.num_neighbors sent ≡ true
unfolding run_node
run_node-acceptable m c hello reelection lsa_ms es s sent small fits h =
    elim (Option-cases (state_init m c hello reelection lsa_ms)) [
      | inl e ↦ absurd (ground arith)
      | inr (s0, e) ↦
          let n = c.num_neighbors in
          let held = state_init-held m c hello reelection lsa_ms s0 e in
          let after = node_rounds-acceptable c s0 es small held fits in
          let all =
            all_acceptable-append n (broadcast_stp m c s0 none) (node_rounds c s0 es).1
              (broadcast_stp-acceptable m c s0 none small)
              (outcome_parts n (node_rounds c s0 es) after).1 in
          let h' = rw (e, run_node) at h in
          let same = ap (λ (o : NodeState × List Send). o.1) (some-injective _ _ h') in
          ap (all_acceptable n) (sym same) ∙ all
    ]
