-- ===== src/Orchestrator/Heard.antt =====
-- Counting the fragments that the waiting loop has heard.
use cmu_mixnet.Prelude.{
  ℕ, zero, suc, ◌+◌, ◌≤◌, ◌<◌, ◌≡◌, ◌≢◌, ◌⊎◌, refl, ap, inl, inr, Bool, Option, none, some, List,
  [], ◌∷◌, arith, ◌==◌, Bool-cases, if◌then◌else◌,
}
use cmu_mixnet.ErrorCode.{ErrorCode, recv_wait_timeout}
use cmu_mixnet.Message.{Buffer}
use cmu_mixnet.Orchestrator.Run.{first_error}
use cmu_mixnet.Orchestrator.Foreach.{Poll, timed_out, poll_failed, polled, or_timeout}

pub poll_cases :
    (p : Poll)
    → (p ≡ timed_out)
      ⊎ (p ≡ poll_failed)
      ⊎ ((rc : ℕ) × (is_pollin : ℕ → Bool) × (p ≡ polled rc is_pollin))
poll_cases timed_out = inl refl
poll_cases poll_failed = inr (inl refl)
poll_cases (polled rc is_pollin) = inr (inr (rc, is_pollin, refl))

pub pair_of : {A : Type 0} (o : Option ErrorCode × A) → o.0 ≡ none → o ≡ (none, o.1)
pair_of (e, a) h = ap (λ (x : Option ErrorCode). (x, a)) h

pub no_timeout :
    (e : Option ErrorCode) (pending : ℕ)
    → or_timeout recv_wait_timeout e pending ≡ none
    → (e ≡ none) × (pending ≡ 0)
no_timeout none pending h = elim (Bool-cases (pending == 0)) [
  | inl over ↦ (refl, ground arith)
  | inr left ↦ let never = rw (left) at h in absurd (cc)
]
no_timeout (some e) pending h = absurd (cc)

pub no_error : (a b : Option ErrorCode) → first_error a b ≡ none → (a ≡ none) × (b ≡ none)
no_error none b h = (refl, h)
no_error (some e) b h = absurd (cc)

-- How often a descriptor was heard.
abbrev pub occurrences : ℕ → List (ℕ × Buffer) → ℕ
occurrences i [] = 0
occurrences i ((idx, b) ∷ heard) = (if idx == i then 1 else 0) + occurrences i heard

-- How many of the first `n` were not heard.
pub missing : ℕ → List (ℕ × Buffer) → ℕ
missing zero heard = 0
missing (suc n) heard = (if occurrences n heard == 0 then 1 else 0) + missing n heard

pub missing_none :
    (n i : ℕ) (heard : List (ℕ × Buffer)) → missing n heard ≡ 0 → i < n → occurrences i heard ≢ 0
unfolding missing
missing_none zero i heard none_left lt = absurd (omega arith)
missing_none (suc n) i heard none_left lt = elim (Bool-cases (i == n)) [
  | inl last ↦ ground arith
  | inr before ↦ missing_none n i heard (ground arith) (ground arith)
]

pub missing_all : (n : ℕ) → missing n [] ≡ n
unfolding missing
missing_all zero = refl
missing_all (suc n) = ground (arith, missing_all n)

missing_beyond :
    (n i : ℕ) (b : Buffer) (heard : List (ℕ × Buffer))
    → n ≤ i
    → missing n ((i, b) ∷ heard) ≡ missing n heard
unfolding missing
missing_beyond zero i b heard le = refl
missing_beyond (suc n) i b heard le = ground (arith, missing_beyond n i b heard)

pub missing_falls :
    (n i : ℕ) (b : Buffer) (heard : List (ℕ × Buffer))
    → i < n
    → occurrences i heard ≡ 0
    → missing n ((i, b) ∷ heard) + 1 ≡ missing n heard
unfolding missing
missing_falls zero i b heard lt fresh = absurd (omega arith)
missing_falls (suc n) i b heard lt fresh = elim (Bool-cases (i == n)) [
  | inl last ↦ ground (arith, missing_beyond n i b heard)
  | inr before ↦ ground (arith, missing_falls n i b heard)
]
