-- ===== src/Switching.antt =====
-- A request to switch a link, from the orchestrator to a fragment (change_link_state of
-- framework/orchestrator.cpp, task_update_link_state of framework/fragment.cpp).
use mathlib.Core.Option
use mathlib.Core.Path.{ap₂}
use cmu_mixnet.Prelude.{
  ℕ, suc, ◌+◌, ◌*◌, ◌<◌, ◌≡◌, ◌≢◌, Option, refl, sym, ap, ◌∙◌, Bool, true, inl, inr, false, not,
  ◌||◌, none, some, List, [], ◌∷◌, arith, ◌==◌, ltb, Bool-cases, Option-cases, length, get_or,
}
use cmu_mixnet.ErrorCode.{ErrorCode}
use cmu_mixnet.Message.{change_link_state, Buffer, get16, finalize}
use cmu_mixnet.Message.Canary.{payload_size}
use cmu_mixnet.Headers.{Sendable, unchanged-Says, request-Says, sent-Says, accepted_request}
use cmu_mixnet.Control.Tasks.{Turn, Context, task_update_link_state}
use cmu_mixnet.Control
use cmu_mixnet.Orchestrator.{neighbor_place, fill_link_state, fragment_request_response}
use cmu_mixnet.Orchestrator

-- The place that is found is in the list and holds the node.
pub neighbor_place_lem :
    (row : List ℕ) (idx nid : ℕ)
    → neighbor_place row idx ≡ some nid
    → (nid < length row) × (get_or row nid 0 ≡ idx)
unfolding neighbor_place
neighbor_place_lem [] idx nid h = cc
neighbor_place_lem (x ∷ xs) idx nid h = elim (Bool-cases (x == idx)) [
  | inl here ↦
      let first : 0 ≡ nid = Option.some-injective _ _ (rw here at h) in
      rw (sym first) (omega arith, ground arith)
  | inr other ↦ elim (Option-cases (neighbor_place xs idx)) [
    | inl absent ↦ let never = rw (other, absent) at h in cc
    | inr (k, found) ↦
        let (lt, same) = neighbor_place_lem xs idx k found in
        let next : suc k ≡ nid = Option.some-injective _ _ (rw (other, found) at h) in
        rw (sym next) (omega (arith, lt), same)
  ]
]

-- The lambda's message, after its header.
abbrev filled : ℕ → Bool → Buffer → Buffer
filled nid en b = fill_link_state nid en b

filled_fields :
    (nid : ℕ) (en : Bool) (b : Buffer)
    → nid < 65536
    → (get16 (filled nid en b) 8 ≡ nid)
      × (not (filled nid en b 10 == 0) ≡ en)
      × ((j : ℕ) → j < 8 → filled nid en b j ≡ b j)
unfolding fill_link_state
filled_fields nid true b small = (ground arith, refl, λ j lt. ground arith)
filled_fields nid false b small = (ground arith, refl, λ j lt. ground arith)

-- The fragment's assertion holds for its own neighbors.
served :
    (t : Turn) (nid : ℕ) (en : Bool) (b : Buffer) (c : Context)
    → nid < c.num_neighbors
    → task_update_link_state t nid en b c ≢ none
unfolding task_update_link_state
served t nid en b c lt h =
    let inside : ltb nid c.num_neighbors ≡ true = ground arith in
    let never = rw (inside, task_update_link_state) at h in cc

-- A request that fragment `fid`, whose node has the neighbors `row`, accepts, with or without the
-- checks of its id and type, as one that switches the link to its neighbor `other` on or off, and
-- for which its assertion does not fail.
pub record Switches (addr_size fid : ℕ) (row : List ℕ) (other : ℕ) (en : Bool) (b : Buffer)
    : Type 0 where
  pub accepted :
      (check_id check_type : Bool)
      → Control.check_header addr_size fid check_id check_type change_link_state b ≡ some none
  pub names : get_or row (get16 b 8) 0 ≡ other
  pub state : not (b 10 == 0) ≡ en
  pub served_by :
      (t : Turn) (c : Context)
      → c.num_neighbors ≡ length row
      → task_update_link_state t (get16 b 8) (not (b 10 == 0)) b c ≢ none

link_request_lem :
    (addr_size fid idx nid : ℕ) (row : List ℕ) (en : Bool) (b : Buffer)
    → fid < 65536
    → length row < 65536
    → neighbor_place row idx ≡ some nid
    → (b' : Buffer) × (finalize addr_size
          (fill_link_state nid en (Orchestrator.prepare_header fid change_link_state b))
        ≡ some b')
      × Switches addr_size fid row idx en b'
unfolding payload_size
link_request_lem addr_size fid idx nid row en b small short found =
    let p = Orchestrator.prepare_header fid change_link_state b in
    let f = fill_link_state nid en p in
    let (lt, place) = neighbor_place_lem row idx nid found in
    let (nid_at, en_at, header) = filled_fields nid en p (omega arith) in
    let says =
      unchanged-Says true change_link_state fid none p f
        (request-Says fid change_link_state b small) (λ j lo hi. header j hi) in
    let sendable : Sendable addr_size true change_link_state f = (λ e. cc, omega arith, λ e. cc) in
    let (b', made, valid, h, same) =
      sent-Says addr_size true change_link_state fid none f says sendable in
    let at_nid : get16 b' 8 ≡ nid =
      ap₂ (λ (x y : ℕ). x + 256 * y) (same 8 (omega arith) (omega arith))
        (same 9 (omega arith) (omega arith))
      ∙ nid_at in
    let at_en : not (b' 10 == 0) ≡ en =
      ap (λ (x : ℕ). not (x == 0)) (same 10 (omega arith) (omega arith)) ∙ en_at in
    (
      b',
      made,
      record {
        accepted = λ check_id check_type.
            accepted_request addr_size fid change_link_state b' check_id check_type valid h;
        names = ap (λ (x : ℕ). get_or row x 0) at_nid ∙ place;
        state = at_en;
        served_by = λ t c fits.
            served t (get16 b' 8) (not (b' 10 == 0)) b' c (omega (arith, at_nid, lt, fits));
      },
    )

-- What the orchestrator makes of the answer to a request: the error of the exchange, or else what
-- its check of the response from this fragment says.
abbrev pub outcome :
    (addr_size fid : ℕ) → Option ErrorCode × Buffer → Option (Option ErrorCode) × Buffer
outcome addr_size fid (some e, r) = (some (some e), r)
outcome addr_size fid (none, r) =
    (Orchestrator.check_header addr_size true fid change_link_state r, r)

-- The second outcome counts where the first is NONE.
abbrev pub and_then :
    Option (Option ErrorCode) × Buffer
    → (Buffer → Option (Option ErrorCode) × Buffer)
    → Option (Option ErrorCode) × Buffer
and_then (none, r) next = (none, r)
and_then (some (some e), r) next = (some (some e), r)
and_then (some none, r) next = next r

as_outcome :
    (addr_size fid : ℕ) (x : Option ErrorCode × Buffer)
    → (elim x.0 [
      | some code ↦ (some (some code), x.1)
      | none ↦ (Orchestrator.check_header addr_size true fid change_link_state x.1, x.1)
    ])
      ≡ outcome addr_size fid x
as_outcome addr_size fid (some e, r) = refl
as_outcome addr_size fid (none, r) = refl

both :
    (x : Option (Option ErrorCode) × Buffer) (k k' : Buffer → Option (Option ErrorCode) × Buffer)
    → ((r : Buffer) → k r ≡ k' r)
    → (elim x.0 [ none ↦ x | some (some e) ↦ x | some none ↦ k x.1 ]) ≡ and_then x k'
both (none, r) k k' same = refl
both (some (some e), r) k k' same = refl
both (some none, r) k k' same = same r

switch_request :
    (addr_size fid idx nid : ℕ) (row : List ℕ) (en : Bool)
    (exchange : ℕ → Buffer → Option ErrorCode × Buffer) (b : Buffer)
    → fid < 65536
    → length row < 65536
    → neighbor_place row idx ≡ some nid
    → (b' : Buffer) × Switches addr_size fid row idx en b'
      × (fragment_request_response addr_size fid change_link_state
            (fill_link_state nid en)
            exchange
            b
          ≡ outcome addr_size fid (exchange fid b'))
unfolding fragment_request_response
switch_request addr_size fid idx nid row en exchange b small short found =
    let (b', made, right) = link_request_lem addr_size fid idx nid row en b small short found in
    (b', right, rw (made, fragment_request_response) (as_outcome addr_size fid (exchange fid b')))

-- change_link_state, of two nodes that are in each other's rows of the topology: it sends the first
-- fragment a request to switch its link to the second node, and, if the outcome is NONE, the second
-- fragment one to switch its link to the first; its answer is the outcome of the last exchange. Both
-- ask for the same state. The rows have fewer than 65536 entries, the fragments' ids 16 bits.
pub change_link_state_lem :
    (addr_size : ℕ) (topology : List (List ℕ)) (exchange : ℕ → Buffer → Option ErrorCode × Buffer)
    (idx_a idx_b b_nid a_nid : ℕ) (en : Bool) (b : Buffer)
    → length topology < 65536
    → idx_a < length topology
    → idx_b < length topology
    → ((i : ℕ) → length (get_or topology i []) < 65536)
    → neighbor_place (get_or topology idx_a []) idx_b ≡ some b_nid
    → neighbor_place (get_or topology idx_b []) idx_a ≡ some a_nid
    → (first : Buffer) × (second : Buffer → Buffer) × Switches addr_size idx_a
        (get_or topology idx_a [])
        idx_b
        en
        first
      × ((r : Buffer) → Switches addr_size idx_b (get_or topology idx_b []) idx_a en (second r))
      × (Orchestrator.change_link_state addr_size topology exchange idx_a idx_b en b
          ≡ and_then
              (outcome addr_size idx_a (exchange idx_a first))
              (λ r. outcome addr_size idx_b (exchange idx_b (second r))))
unfolding Orchestrator.change_link_state
change_link_state_lem addr_size topology exchange idx_a idx_b b_nid a_nid en b few lt_a lt_b short
      at_a at_b =
    let row_a = get_or topology idx_a [] in
    let row_b = get_or topology idx_b [] in
    let (first, right_a, asked_a) =
      switch_request addr_size idx_a idx_b b_nid row_a en exchange b (omega arith) (short idx_a)
        at_a in
    let ask_b = λ (r : Buffer).
      switch_request addr_size idx_b idx_a a_nid row_b en exchange r (omega arith) (short idx_b)
        at_b in
    let known : (not (ltb idx_a (length topology)) || not (ltb idx_b (length topology))) ≡ false =
      ground arith in
    (
      first,
      λ r. (ask_b r).0,
      right_a,
      λ r. (ask_b r).1,
      rw (known, at_a, at_b, Orchestrator.change_link_state)
          (both
              (fragment_request_response addr_size idx_a change_link_state
                (fill_link_state b_nid en) exchange b)
              _ _ (λ r. (ask_b r).2)
            ∙ ap
                (λ (x : Option (Option ErrorCode) × Buffer).
                  and_then x (λ r. outcome addr_size idx_b (exchange idx_b (ask_b r).0)))
                asked_a),
    )
