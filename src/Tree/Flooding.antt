-- ===== src/Tree/Flooding.antt =====
-- Where a FLOOD packet goes.
use mathlib.Core.List.Memᴰ
use mathlib.Core.Logic.{⊎_elim}
use cmu_mixnet.Prelude.{
  ℕ, ◌<◌, ◌≡◌, ◌≢◌, ◌⊎◌, ◌↔◌, inl, inr, false, some, List, [], ◌∷◌, ◌++◌, Memᴰ, arith,
}
use cmu_mixnet.Packet.{Packet}
use cmu_mixnet.Config.{Config, Alloc, IsGranted, Send}
use cmu_mixnet.State.{NodeState, blocked_at}
use cmu_mixnet.Tree.{broadcast_on_tree, user_port, handle_flood}
use cmu_mixnet.Tree.Broadcast.{broadcast_on_tree_mem}

Memᴰ-concat_iff : (x a : Send) (xs : List Send) → Memᴰ x (xs ++ a ∷ []) ↔ (Memᴰ x xs ⊎ (x ≡ a))
Memᴰ-concat_iff x a xs = (
  λ m. ⊎_elim inl (λ last. inr (Memᴰ.eq_of_singleton last)) (Memᴰ.append_cases xs m),
  ⊎_elim (Memᴰ.append_left _) (λ e. Memᴰ.append_right xs (Memᴰ.head e)),
)

not-mem-nil : (x : Send) → Memᴰ x [] → ⊥
not-mem-nil x k = Memᴰ.not-nil k

-- A FLOOD packet is taken from the user and from tree links only.
abbrev pub IsTaken : Config → NodeState → ℕ → Type 0
IsTaken c s port = (port ≡ c.num_neighbors) ⊎ (blocked_at s port ≡ false)

-- With memory granted and fewer than 256 neighbors, a FLOOD packet that arrives from the user or
-- over a tree link is sent, as it is, on every other tree link, and to the user unless the user
-- sent it; nothing else is sent, and nothing at all for one that arrives over a blocked link.
pub handle_flood_mem :
    (m : Alloc) (c : Config) (s : NodeState) (port : ℕ) (sent : Packet) (q : ℕ) (packet : Packet)
    → IsGranted m
    → c.num_neighbors < 256
    → Memᴰ (q, packet) (handle_flood m c s port sent) ↔ (
        (packet ≡ sent)
        × IsTaken c s port
        × (q ≢ port)
        × ((q ≡ c.num_neighbors) ⊎ ((q < c.num_neighbors) × (blocked_at s q ≡ false))))
unfolding handle_flood
handle_flood_mem m c s port sent q packet granted small = ground (
  arith,
  broadcast_on_tree_mem m c s (some port) sent q packet granted,
  Memᴰ-concat_iff (q, packet) (user_port c, sent) (broadcast_on_tree m c s (some port) sent),
  not-mem-nil (q, packet),
)
