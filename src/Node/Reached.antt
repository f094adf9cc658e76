-- ===== src/Node/Reached.antt =====
-- The states that the loop reaches.
use cmu_mixnet.Prelude.{
  ℕ, ◌≡◌, refl, ◌∙◌, inl, inr, some, List, [], ◌∷◌, arith, ◌==◌, ltb, leb, ◌||◌, sub64,
  Option-cases, Bool-cases,
}
use cmu_mixnet.Packet.{LsaPayload, Payload, stp, flood, lsa, routed, unknown}
use cmu_mixnet.Config.{Config, Alloc}
use cmu_mixnet.State.{NodeState, blocked_at, state_init, unblock_all, become_root}
use cmu_mixnet.Tree.{user_port}
use cmu_mixnet.LinkState.{
  own_lsa, make_lsa_packet, all_known, originate_lsa, handle_lsa, lsa_packet_size,
}
use cmu_mixnet.Fib.Stable.{IsRouting-same}
use cmu_mixnet.Node.{
  tree_timer, lsa_timer, check_timers, Round, handle_packet, handle_received, node_round,
  node_rounds,
}
use cmu_mixnet.Node.Invariant.{
  IsNode, IsTree-same, IsMixing-same, IsHonest, MeetsHonest, MeetHonest, HasCosts,
  length-clear_ports, state_init-IsNode,
}
use cmu_mixnet.Node.Kept.{own_links_fit, handle_stp-IsNode, consume_lsa-IsNode}
use cmu_mixnet.Node.Remixed.{handle_routed-IsNode}

originate_lsa-IsNode :
    (m : Alloc) (c : Config) (s : NodeState)
    → HasCosts c
    → IsNode c s
    → IsNode c (originate_lsa m c s).0
unfolding originate_lsa
originate_lsa-IsNode m c s costs h =
    let own =
      consume_lsa-IsNode m c s (own_lsa c s) h (own_links_fit c.num_neighbors 0 c s costs) in
    elim (Bool-cases (all_known c.num_neighbors 0 s)) [
      | inr e ↦ rw (e, originate_lsa) h
      | inl e ↦ elim (Option-cases (make_lsa_packet m c s)) [
        | inl e' ↦ rw (e, e', originate_lsa) h
        | inr (packet, e') ↦ rw (e, e', originate_lsa) own
      ]
    ]

handle_lsa-IsNode :
    (m : Alloc) (c : Config) (s : NodeState) (port size : ℕ) (p : LsaPayload)
    → IsNode c s
    → IsHonest (lsa p)
    → IsNode c (handle_lsa m c s port size p).0
unfolding handle_lsa
handle_lsa-IsNode m c s port size p h honest =
    let new = consume_lsa-IsNode m c s p h honest in
    elim (Bool-cases (port == user_port c)) [
      | inl e ↦ rw (e, handle_lsa) h
      | inr e ↦
          elim (Bool-cases
            (ltb size (lsa_packet_size 0) || ltb size (lsa_packet_size p.neighbor_count))) [
              | inl f ↦ rw (e, f, handle_lsa) h
              | inr f ↦ elim (Bool-cases (p.node_address == c.node_addr)) [
                | inl g ↦ rw (e, f, g, handle_lsa) h
                | inr g ↦ elim (Bool-cases (blocked_at s port)) [
                  | inl k ↦ rw (e, f, g, k, handle_lsa) h
                  | inr k ↦ rw (e, f, g, k, handle_lsa) new
                ]
              ]
            ]
    ]

handle_packet-IsNode :
    (c : Config) (s : NodeState) (e : Round) (port size : ℕ) (payload : Payload)
    → IsNode c s
    → IsHonest payload
    → IsNode c (handle_packet c s e port (record { total_size = size; payload = payload })).0
unfolding handle_packet
handle_packet-IsNode c s e port size (stp p) h honest =
    handle_stp-IsNode e.handler_alloc c s port p e.handler_now h honest
handle_packet-IsNode c s e port size flood h honest = h
handle_packet-IsNode c s e port size (lsa p) h honest =
    handle_lsa-IsNode e.handler_alloc c s port size p h honest
handle_packet-IsNode c s e port size (routed head b) h honest =
    handle_routed-IsNode e.handler_alloc c s port
      (record { total_size = size; header = head; body = b }) e.handler_now e.random h
handle_packet-IsNode c s e port size (unknown t) h honest = h

handle_received-IsNode :
    (c : Config) (s : NodeState) (e : Round)
    → IsNode c s
    → MeetsHonest e
    → IsNode c (handle_received c s e).0
unfolding handle_received
handle_received-IsNode c s e h honest = elim (Option-cases e.received) [
  | inl nothing ↦ rw (nothing, handle_received) h
  | inr ((port, p), got) ↦
      let honest' = rw (got) at honest in
      rw (got, handle_received) (handle_packet-IsNode c s e port p.total_size p.payload h honest')
]

-- A clock that restarts.
timed-IsNode :
    (c : Config) (s : NodeState) (hello reelection lsa_ms : ℕ)
    → IsNode c s
    → IsNode c (record s {
      hello_start_ms = hello;
      reelection_start_ms = reelection;
      lsa_start_ms = lsa_ms;
    })
timed-IsNode c s hello reelection lsa_ms h =
    let s' : NodeState = record s {
      hello_start_ms = hello;
      reelection_start_ms = reelection;
      lsa_start_ms = lsa_ms;
    } in
    record {
      routing = IsRouting-same s s' refl refl h.routing;
      tree = IsTree-same c s s' refl refl refl h.tree;
      mixing = IsMixing-same c s s' refl h.mixing;
      ports = record { addresses = h.ports.addresses; blocks = h.ports.blocks };
    }

-- A node that makes itself the root.
lost_root-IsNode :
    (c : Config) (s : NodeState) → IsNode c s → IsNode c (unblock_all c (become_root c s))
unfolding unblock_all become_root
lost_root-IsNode c s h =
    let s' = unblock_all c (become_root c s) in
    record {
      routing = IsRouting-same s s' refl refl h.routing;
      tree = record {
        root-le = omega arith;
        own_root = λ p. (refl, refl);
        no_distance = λ p. refl;
        no_parent = λ p. refl;
      };
      mixing = IsMixing-same c s s' refl h.mixing;
      ports = record {
        addresses = h.ports.addresses;
        blocks = length-clear_ports c.num_neighbors 0 s.blocked ∙ h.ports.blocks;
      };
    }

tree_timer-IsNode :
    (m : Alloc) (c : Config) (s : NodeState) (now : ℕ)
    → IsNode c s
    → IsNode c (tree_timer m c s now).0
unfolding tree_timer
tree_timer-IsNode m c s now h = elim (Bool-cases (s.root == c.node_addr)) [
  | inl e ↦ elim (Bool-cases (leb c.root_hello_interval_ms (sub64 now s.hello_start_ms))) [
    | inl f ↦ rw (e, f, tree_timer) (timed-IsNode c s now s.reelection_start_ms s.lsa_start_ms h)
    | inr f ↦ rw (e, f, tree_timer) h
  ]
  | inr e ↦ elim (Bool-cases (leb c.reelection_interval_ms (sub64 now s.reelection_start_ms))) [
    | inl f ↦
        let lost = unblock_all c (become_root c s) in
        rw (e, f, tree_timer)
          (timed-IsNode c lost now now lost.lsa_start_ms (lost_root-IsNode c s h))
    | inr f ↦ rw (e, f, tree_timer) h
  ]
]

lsa_timer-IsNode :
    (m : Alloc) (c : Config) (s : NodeState) (now : ℕ)
    → HasCosts c
    → IsNode c s
    → IsNode c (lsa_timer m c s now).0
unfolding lsa_timer
lsa_timer-IsNode m c s now costs h =
    elim (Bool-cases (leb c.root_hello_interval_ms (sub64 now s.lsa_start_ms))) [
      | inl e ↦
          let s' = (originate_lsa m c s).0 in
          rw (e, lsa_timer)
            (timed-IsNode c s' s'.hello_start_ms s'.reelection_start_ms now
              (originate_lsa-IsNode m c s costs h))
      | inr e ↦ rw (e, lsa_timer) h
    ]

-- One round of the loop, whatever it is granted and whatever time it is, keeps the node's routing,
-- tree, mixing buffer and arrays well formed, if a neighbor whose packet it received runs the
-- protocol and the configured costs are of uint16_t.
pub node_round-IsNode :
    (c : Config) (s : NodeState) (e : Round)
    → HasCosts c
    → IsNode c s
    → MeetsHonest e
    → IsNode c (node_round c s e).0
unfolding node_round check_timers
node_round-IsNode c s e costs h honest =
    lsa_timer-IsNode e.timer_alloc c _ e.timer_now costs
      (tree_timer-IsNode e.timer_alloc c _ e.timer_now (handle_received-IsNode c s e h honest))

continued-IsNode :
    (c : Config) (s : NodeState) (es : List Round)
    → HasCosts c
    → IsNode c s
    → MeetHonest es
    → IsNode c (node_rounds c s es).0
unfolding node_rounds
continued-IsNode c s [] costs h honest = h
continued-IsNode c s (e ∷ es) costs h honest =
    continued-IsNode c (node_round c s e).0 es costs (node_round-IsNode c s e costs h honest.0)
      honest.1

-- In every state that the loop reaches, whatever memory, clock and random values it meets, the
-- topology is well formed, the forwarding table has an entry for vertices only and every route in
-- it is a cheapest walk of at most 256 hops, the readings of "I am the root" agree, a batch waits
-- only where the node mixes and is shorter than the mixing factor, and the arrays that the ports
-- index have an element for each neighbor, if the configured costs are of uint16_t and every STP
-- packet and LSA received has a valid sender, a distance that can be incremented and costs of
-- uint16_t.
pub node_rounds-IsNode :
    (m : Alloc) (c : Config) (hello reelection lsa_ms : ℕ) (es : List Round) (s : NodeState)
    → HasCosts c
    → state_init m c hello reelection lsa_ms ≡ some s
    → MeetHonest es
    → IsNode c (node_rounds c s es).0
node_rounds-IsNode m c hello reelection lsa_ms es s costs start honest =
    continued-IsNode c s es costs (state_init-IsNode m c hello reelection lsa_ms s start) honest
