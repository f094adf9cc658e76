-- ===== src/Orchestrator/Mapping.antt =====
-- The mapping of the connections of the pcap plane to the fragments.
use cmu_mixnet.Prelude.{
  ℕ, zero, suc, ◌+◌, ◌≤◌, ◌<◌, ◌≡◌, refl, sym, ap, ◌∙◌, ◌⊎◌, inl, inr, true, false, ◌&&◌, Option,
  none, List, [], ◌∷◌, Memᴰ, arith, ◌==◌, ltb, Bool-cases, length, if◌then◌else◌, get_or, set,
  get_or-set, length-set,
}
use cmu_mixnet.ErrorCode.{ErrorCode}
use cmu_mixnet.Message.{Buffer, setup_pcap, get_fragment_id}
use cmu_mixnet.Orchestrator.Foreach.{Fd, Wait, Gathering, gathered, foreach_fragment_recv_generic}
use cmu_mixnet.Orchestrator.Gathering.{
  Processed, unprocessed, processed, foreach_fragment_recv_generic_lem,
}
use cmu_mixnet.Orchestrator.Payloads.{
  FragmentMetadata, new_fragment, fragment_at, is_unset, take_pcap,
}

-- The fragments without a connection on the pcap plane.
unset_count : List FragmentMetadata → ℕ
unset_count [] = 0
unset_count (x ∷ xs) = (if is_unset x.fd_pcap then 1 else 0) + unset_count xs

unset_none :
    (xs : List FragmentMetadata) (fid : ℕ)
    → unset_count xs ≡ 0
    → fid < length xs
    → is_unset (fragment_at xs fid).fd_pcap ≡ false
unfolding unset_count
unset_none [] fid h lt = absurd (omega arith)
unset_none (x ∷ xs) zero h lt = ground arith
unset_none (x ∷ xs) (suc fid) h lt = unset_none xs fid (ground arith) (omega arith)

unset_count_le : (xs : List FragmentMetadata) → unset_count xs ≤ length xs
unfolding unset_count
unset_count_le [] = omega arith
unset_count_le (x ∷ xs) = ground (arith, unset_count_le xs)

unset_falls :
    (xs : List FragmentMetadata) (fid : ℕ) (x : FragmentMetadata)
    → fid < length xs
    → is_unset (fragment_at xs fid).fd_pcap ≡ true
    → is_unset x.fd_pcap ≡ false
    → unset_count (set xs fid x) + 1 ≡ unset_count xs
unfolding unset_count
unset_falls [] fid x lt old new = absurd (omega arith)
unset_falls (y ∷ xs) zero x lt old new = ground arith
unset_falls (y ∷ xs) (suc fid) x lt old new =
    ground (arith, unset_falls xs fid x (omega arith) old new)

-- What taking a message without an error does.
take_pcap_lem :
    (fds : List Fd) (idx : ℕ) (b : Buffer) (xs ys : List FragmentMetadata)
    → take_pcap fds idx b xs ≡ (none, ys)
    → (get_fragment_id b < length xs)
      × (is_unset (fragment_at xs (get_fragment_id b)).fd_pcap ≡ true)
      × (ys
          ≡ set xs
              (get_fragment_id b)
              (record (fragment_at xs (get_fragment_id b)) { fd_pcap = get_or fds idx none }))
unfolding take_pcap
take_pcap_lem fds idx b xs ys h = elim (Bool-cases (ltb (get_fragment_id b) (length xs))) [
  | inr outside ↦ let never = rw (outside, take_pcap) at h in absurd (cc)
  | inl inside ↦ elim (Bool-cases (is_unset (fragment_at xs (get_fragment_id b)).fd_pcap)) [
    | inr already ↦ let never = rw (inside, already, take_pcap) at h in absurd (cc)
    | inl fresh ↦
        let made = rw (inside, fresh, take_pcap) at h in
        (ground arith, fresh, sym (ap (λ (o : Option ErrorCode × List FragmentMetadata). o.1) made))
  ]
]

-- The fragment has the connection on which a message told its id.
abbrev pub Introduced : List Fd → List (ℕ × Buffer) → List FragmentMetadata → ℕ → Type 0
Introduced fds heard xs fid =
    (idx : ℕ) × (b : Buffer) × Memᴰ (idx, b) heard
    × (get_fragment_id b ≡ fid)
    × ((fragment_at xs fid).fd_pcap ≡ get_or fds idx none)

module _ (addr_size n : ℕ) (fds : List Fd) (start : List FragmentMetadata)
    (all_connected : (i : ℕ) → i < n → is_unset (get_or fds i none) ≡ false) where
  abbrev Mapped : List (ℕ × Buffer) → List FragmentMetadata → Type 0
  Mapped heard xs =
      (length xs ≡ length start)
      × (unset_count xs + length heard ≡ unset_count start)
      × ((fid : ℕ) → (is_unset (fragment_at xs fid).fd_pcap ≡ true) ⊎ Introduced fds heard xs fid)

  Processed-Mapped :
      (heard : List (ℕ × Buffer)) (xs : List FragmentMetadata)
      → ((fid : ℕ) → is_unset (fragment_at start fid).fd_pcap ≡ true)
      → Processed
          (List FragmentMetadata)
          addr_size
          false
          setup_pcap
          (take_pcap fds)
          n
          start
          heard
          xs
      → Mapped heard xs
  Processed-Mapped heard xs blank unprocessed = (refl, omega arith, λ fid. inl (blank fid))
  Processed-Mapped heard xs blank
        (processed {heard = before} {state = old} idx b so_far lt accepted took) =
      let (sized, counted, known) = Processed-Mapped before old blank so_far in
      let (inside, fresh, made) = take_pcap_lem fds idx b old xs took in
      let new : FragmentMetadata = record (fragment_at old (get_fragment_id b)) {
        fd_pcap = get_or fds idx none;
      } in
      let falls = unset_falls old (get_fragment_id b) new inside fresh (all_connected idx lt) in
      let fewer = ap unset_count made in
      let longer = length-set old (get_fragment_id b) new in
      (
        ap length made ∙ longer ∙ sized,
        omega arith,
        λ fid.
            let at =
              ap (λ (ys : List FragmentMetadata). (fragment_at ys fid).fd_pcap) made
              ∙ ap FragmentMetadata.fd_pcap
                  (get_or-set old (get_fragment_id b) fid new new_fragment) in
            elim (Bool-cases (get_fragment_id b == fid)) [
              | inl same ↦
                  let hit : (get_fragment_id b == fid) && ltb (get_fragment_id b) (length old)
                      ≡ true =
                    ground arith in
                  inr (idx, b, Memᴰ.head refl, ground arith, rw (hit) at at)
              | inr other ↦
                  let at_old = rw (other) at at in
                  elim (known fid) [
                    | inl unset ↦ inl (ap is_unset at_old ∙ unset)
                    | inr (i, c, m, e, f) ↦ inr (i, c, Memᴰ.tail m, e, at_old ∙ f)
                  ]
            ],
      )

-- When the wait for the handshakes on the pcap plane returns NONE, and no fragment was mapped
-- before, every fragment has a connection on it, and it is the one on which a message told the
-- fragment's id: there are as many connections as fragments.
pub setup_pcap_maps :
    (addr_size : ℕ) (fds : List Fd) (timer : ℕ) (waits : List Wait) (b : Buffer)
    (start : List FragmentMetadata) (g : Gathering (List FragmentMetadata))
    → length fds ≡ length start
    → ((i : ℕ) → i < length fds → is_unset (get_or fds i none) ≡ false)
    → ((fid : ℕ) → is_unset (fragment_at start fid).fd_pcap ≡ true)
    → foreach_fragment_recv_generic
        (List FragmentMetadata)
        addr_size
        false
        setup_pcap
        (take_pcap fds)
        fds
        timer
        waits
        b
        start
      ≡ gathered none g
    → (fid : ℕ) → fid < length start
    → (is_unset (fragment_at g.state fid).fd_pcap ≡ false) × Introduced fds g.heard g.state fid
setup_pcap_maps addr_size fds timer waits b start g sized all_connected blank h fid lt =
    let (once, heard, done) =
      foreach_fragment_recv_generic_lem (List FragmentMetadata) addr_size false setup_pcap
        (take_pcap fds) fds timer waits b start g h in
    let (same, counted, known) =
      Processed-Mapped addr_size (length fds) fds start all_connected g.heard g.state blank done in
    let all : unset_count g.state ≡ 0 = omega (arith, unset_count_le start) in
    let set_now = unset_none g.state fid all (omega (arith, same)) in
    elim (known fid) [ inl unset ↦ absurd (cc) | inr introduced ↦ (set_now, introduced) ]
