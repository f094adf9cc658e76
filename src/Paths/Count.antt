-- ===== src/Paths/Count.antt =====
-- How many vertices are settled: each round settles one more, so the loop ends.
use cmu_mixnet.Prelude.{
  ℕ, zero, suc, ◌+◌, ◌≤◌, ◌<◌, ◌≡◌, refl, true, false, List, [], ◌∷◌, arith, if◌then◌else◌, length,
  set,
}
use cmu_mixnet.Paths.{SpVertex, sp_at}

pub count_settled : List SpVertex → ℕ
count_settled [] = 0
count_settled (x ∷ xs) = (if x.settled then 1 else 0) + count_settled xs

pub count_settled-set :
    (sp : List SpVertex) (u : ℕ) (x : SpVertex)
    → u < length sp
    → (sp_at sp u).settled ≡ false
    → x.settled ≡ true
    → count_settled (set sp u x) ≡ suc (count_settled sp)
unfolding count_settled
count_settled-set [] u x lt h s = absurd (omega arith)
count_settled-set (y ∷ sp) zero x lt h s = ground arith
count_settled-set (y ∷ sp) (suc u) x lt h s =
    omega (arith, count_settled-set sp u x (omega arith) h s)

pub count_settled_ext :
    (sp sp' : List SpVertex)
    → length sp' ≡ length sp
    → ((i : ℕ) → (sp_at sp' i).settled ≡ (sp_at sp i).settled)
    → count_settled sp' ≡ count_settled sp
unfolding count_settled
count_settled_ext [] [] n h = refl
count_settled_ext [] (y ∷ sp') n h = absurd (omega arith)
count_settled_ext (x ∷ sp) [] n h = absurd (omega arith)
count_settled_ext (x ∷ sp) (y ∷ sp') n h =
    ground (arith, h 0, count_settled_ext sp sp' (omega arith) (λ i. h (suc i)))

pub count_settled-le : (sp : List SpVertex) → count_settled sp ≤ length sp
unfolding count_settled
count_settled-le [] = omega arith
count_settled-le (x ∷ sp) = ground (arith, count_settled-le sp)

pub count_settled-lt :
    (sp : List SpVertex) (u : ℕ)
    → u < length sp
    → (sp_at sp u).settled ≡ false
    → count_settled sp < length sp
unfolding count_settled
count_settled-lt [] u lt h = absurd (omega arith)
count_settled-lt (x ∷ sp) zero lt h = ground (arith, count_settled-le sp)
count_settled-lt (x ∷ sp) (suc u) lt h = ground (arith, count_settled-lt sp u)
