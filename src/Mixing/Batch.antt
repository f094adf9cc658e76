-- ===== src/Mixing/Batch.antt =====
-- Mixing as a queue that is emptied a batch at a time.
use mathlib.Core.Path.{subst₂, ap₂, ◌≡⟨◌⟩◌, ◌∎}
use mathlib.Core.List.{append-nil, append_assoc, map-append}
use cmu_mixnet.Prelude.{
  ℕ, ◌+◌, ◌*◌, ◌≤◌, ◌<◌, ◌≡◌, refl, sym, ap, ◌∙◌, ◌⊎◌, inl, inr, Option, none, some, List, [], ◌∷◌,
  ◌++◌, map, arith, leb, Bool-cases, Option-cases, length, length-append, length-map, u8,
}
use cmu_mixnet.Packet.{Routed, packet_of}
use cmu_mixnet.Config.{Config, Send}
use cmu_mixnet.State.{MixSlot, NodeState, port_of}
use cmu_mixnet.Mixing.{next_hop_of, sent_slot, enqueue, send_to_next_hop}

-- What a packet is on the wire, if its next hop is a neighbor; any other is dropped.
abbrev pub on_wire : Config → NodeState → Routed → List Send
on_wire c s r = elim (port_of c s (next_hop_of r.header)) [
  | none ↦ []
  | some port ↦ (u8 port, packet_of r) ∷ []
]

-- The packets that the buffer holds, as they will be sent.
abbrev pub waiting : NodeState → List Send
waiting s = elim s.mix [ none ↦ [] | some held ↦ map sent_slot held ]

-- A node that mixes has a buffer with room for one more packet, and any other has none.
abbrev pub IsMixing : Config → NodeState → Type 0
IsMixing c s =
    ((c.mixing_factor ≤ 1) × (s.mix ≡ none))
    ⊎ ((1 < c.mixing_factor)
        × ((held : List MixSlot) × (s.mix ≡ some held) × (length held < c.mixing_factor)))

-- The slot of a packet with its egress port.
abbrev slot_of : Routed → ℕ → MixSlot
slot_of r port = record { port = u8 port; packet = packet_of r }

-- The three ways of sending.
send_dropped :
    (c : Config) (s : NodeState) (r : Routed)
    → port_of c s (next_hop_of r.header) ≡ none
    → send_to_next_hop c s r ≡ (s, [])
unfolding send_to_next_hop
send_dropped c s r e = rw (e, send_to_next_hop)

pub send_now :
    (c : Config) (s : NodeState) (r : Routed) (port : ℕ)
    → port_of c s (next_hop_of r.header) ≡ some port
    → s.mix ≡ none
    → send_to_next_hop c s r ≡ (s, (u8 port, packet_of r) ∷ [])
unfolding send_to_next_hop
send_now c s r port e e' = ground arith

send_held :
    (c : Config) (s : NodeState) (r : Routed) (port : ℕ) (held : List MixSlot)
    → port_of c s (next_hop_of r.header) ≡ some port
    → s.mix ≡ some held
    → send_to_next_hop c s r ≡ enqueue c s held (slot_of r port)
unfolding send_to_next_hop
send_held c s r port held e e' = ground arith

-- What a step of the buffer may do to `before`, the packets that wait and the one that arrives.
abbrev Batched : Config → NodeState → List Send → NodeState × List Send → Type 0
Batched c s before (s', sent) =
    (mix : Option (List MixSlot)) × (s' ≡ record s { mix = mix })
    × IsMixing c s'
    × (before ≡ sent ++ waiting s')
    × (1 < c.mixing_factor → (sent ≡ []) ⊎ (length sent ≡ c.mixing_factor))

enqueue-Batched :
    (c : Config) (s : NodeState) (held : List MixSlot) (slot : MixSlot)
    → 1 < c.mixing_factor
    → length held < c.mixing_factor
    → Batched c s (map sent_slot held ++ sent_slot slot ∷ []) (enqueue c s held slot)
unfolding enqueue
enqueue-Batched c s held slot big room =
    let n = length-append held (slot ∷ []) in
    elim (Bool-cases (leb c.mixing_factor (length (held ++ slot ∷ [])))) [
      | inl full ↦
          rw (full, enqueue)
            (
              some [],
              refl,
              inr (big, ([], refl, omega arith)),
              sym (map-append sent_slot held (slot ∷ [])) ∙ sym (append-nil _),
              λ _. inr (ground (arith, length-map sent_slot (held ++ slot ∷ []))),
            )
      | inr space ↦
          rw (space, enqueue)
            (
              some (held ++ slot ∷ []),
              refl,
              inr (big, (held ++ slot ∷ [], refl, ground arith)),
              sym (map-append sent_slot held (slot ∷ [])),
              λ _. inl refl,
            )
    ]

-- A well-formed buffer, taken apart.
pub send_to_next_hop-Batched :
    (c : Config) (s : NodeState) (r : Routed)
    → IsMixing c s
    → Batched c s (waiting s ++ on_wire c s r) (send_to_next_hop c s r)
send_to_next_hop-Batched c s r h = elim (Option-cases (port_of c s (next_hop_of r.header))) [
  | inl e ↦
      let wire : on_wire c s r ≡ [] = ground arith in
      subst₂ (Batched c s) (sym (ap (◌++◌ (waiting s)) wire)) (sym (send_dropped c s r e))
        (s.mix, refl, h, append-nil (waiting s), λ _. inl refl)
  | inr (port, e) ↦
      let wire : on_wire c s r ≡ (u8 port, packet_of r) ∷ [] = ground arith in
      elim h [
        | inl (small, no_buffer) ↦
            let nothing : waiting s ≡ [] = ground arith in
            subst₂ (Batched c s) (sym (ap₂ ◌++◌ nothing wire))
              (sym (send_now c s r port e no_buffer))
              (
                s.mix,
                refl,
                inl (small, no_buffer),
                ap (◌∷◌ (u8 port, packet_of r)) (sym nothing),
                λ big. absurd (omega arith),
              )
        | inr (big, (held, buffer, room)) ↦
            let waits : waiting s ≡ map sent_slot held = ground arith in
            subst₂ (Batched c s) (sym (ap₂ ◌++◌ waits wire))
              (sym (send_held c s r port held e buffer))
              (enqueue-Batched c s held (slot_of r port) big room)
      ]
]

-- Packets sent one after the other.
pub send_all : Config → NodeState → List Routed → NodeState × List Send
send_all c s [] = (s, [])
send_all c s (r ∷ rs) =
    let (s1, sent1) = send_to_next_hop c s r in
    let (s2, sent2) = send_all c s1 rs in (s2, sent1 ++ sent2)

-- What they are on the wire, by the ports as they are now.
pub all_on_wire : Config → NodeState → List Routed → List Send
all_on_wire c s [] = []
all_on_wire c s (r ∷ rs) = on_wire c s r ++ all_on_wire c s rs

all_on_wire-mix :
    (c : Config) (s : NodeState) (mix : Option (List MixSlot)) (rs : List Routed)
    → all_on_wire c (record s { mix = mix }) rs ≡ all_on_wire c s rs
unfolding all_on_wire port_of
all_on_wire-mix c s mix [] = refl
all_on_wire-mix c s mix (r ∷ rs) = ap (◌++◌ (on_wire c s r)) (all_on_wire-mix c s mix rs)

whole_batches :
    (sent rest : List Send) (factor k : ℕ)
    → (sent ≡ []) ⊎ (length sent ≡ factor)
    → length rest ≡ k * factor
    → (n : ℕ) × (length (sent ++ rest) ≡ n * factor)
whole_batches sent rest factor k (inl e) h =
    (k, omega (arith, length-append sent rest, ap length e))
whole_batches sent rest factor k (inr e) h = (k + 1, omega (arith, length-append sent rest))

-- Over any run of routed packets, in the order of their arrival: those that waited and those that
-- arrive, without the ones that no neighbor takes, are what is sent and then what waits at the end.
-- None is lost, repeated or reordered; the buffer never holds a whole batch; and a node that mixes
-- sends a whole number of batches.
pub send_all_batches :
    (c : Config) (s : NodeState) (rs : List Routed)
    → IsMixing c s
    → (waiting s ++ all_on_wire c s rs ≡ (send_all c s rs).1 ++ waiting (send_all c s rs).0)
      × IsMixing c (send_all c s rs).0
      × (1 < c.mixing_factor → (n : ℕ) × (length (send_all c s rs).1 ≡ n * c.mixing_factor))
unfolding send_all all_on_wire
send_all_batches c s [] h = (append-nil (waiting s), h, λ _. (0, omega arith))
send_all_batches c s (r ∷ rs) h =
    let (mix, frame, h1, order1, batch1) = send_to_next_hop-Batched c s r h in
    let s1 = (send_to_next_hop c s r).0 in
    let sent1 = (send_to_next_hop c s r).1 in
    let (order2, h2, batch2) = send_all_batches c s1 rs h1 in
    let later : all_on_wire c s1 rs ≡ all_on_wire c s rs =
      ap (λ (x : NodeState). all_on_wire c x rs) frame ∙ all_on_wire-mix c s mix rs in
    (
      waiting s ++ (on_wire c s r ++ all_on_wire c s rs)
          ≡⟨ sym (append_assoc (waiting s) (on_wire c s r) (all_on_wire c s rs)) ⟩
            (waiting s ++ on_wire c s r) ++ all_on_wire c s rs
          ≡⟨ ap (λ (xs : List Send). xs ++ all_on_wire c s rs) order1 ⟩
            (sent1 ++ waiting s1) ++ all_on_wire c s rs
          ≡⟨ append_assoc sent1 (waiting s1) (all_on_wire c s rs) ⟩
            sent1 ++ (waiting s1 ++ all_on_wire c s rs)
          ≡⟨ ap (λ (xs : List Send). sent1 ++ (waiting s1 ++ xs)) (sym later) ⟩
            sent1 ++ (waiting s1 ++ all_on_wire c s1 rs)
          ≡⟨ ap (◌++◌ sent1) order2 ⟩
            sent1 ++ ((send_all c s1 rs).1 ++ waiting (send_all c s1 rs).0)
          ≡⟨ sym (append_assoc sent1 (send_all c s1 rs).1 (waiting (send_all c s1 rs).0)) ⟩
            (sent1 ++ (send_all c s1 rs).1) ++ waiting (send_all c s1 rs).0 ∎,
      h2,
      λ big.
          let (k, n) = batch2 big in
          whole_batches sent1 (send_all c s1 rs).1 c.mixing_factor k (batch1 big) n,
    )
