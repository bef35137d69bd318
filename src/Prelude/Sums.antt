-- ===== src/Prelude/Sums.antt =====
-- Sums of the first terms of a sequence.
use Prim.Native.Nat.{ℕ, zero, suc, ◌+◌, ◌*◌, ◌≤◌, ◌<◌}
use mathlib.Core.Path.{◌≡◌, refl, ap}
use mathlib.Core.Logic.{◌≢◌}
use native.Mathlib.Decide.{dec_lt}
use native.Mathlib.Omega.{arith}

unfoldable pub sum_to : (ℕ → ℕ) → ℕ → ℕ
sum_to w zero = 0
sum_to w (suc n) = w n + sum_to w n

pub sum_to-le : (w : ℕ → ℕ) (b : ℕ) → ((j : ℕ) → w j ≤ b) → (n : ℕ) → sum_to w n ≤ b * n
unfolding sum_to
sum_to-le w b h zero = omega arith
sum_to-le w b h (suc n) = grind (arith, h n, sum_to-le w b h n)

sum_to-eq : (v w : ℕ → ℕ) (n : ℕ) → ((j : ℕ) → j < n → v j ≡ w j) → sum_to v n ≡ sum_to w n
unfolding sum_to
sum_to-eq v w zero h = refl
sum_to-eq v w (suc n) h =
    omega (arith, h n (omega arith), sum_to-eq v w n (λ j lt. h j (omega arith)))

-- A term grows smaller, and no other changes.
pub sum_to-lt :
    (v w : ℕ → ℕ) (i n : ℕ)
    → i < n
    → ((j : ℕ) → j ≢ i → v j ≡ w j)
    → v i < w i
    → sum_to v n < sum_to w n
unfolding sum_to
sum_to-lt v w i zero lt h less = absurd (omega arith)
sum_to-lt v w i (suc n) lt h less = elim (dec_lt i n) [
  | yes below ↦ omega (arith, h n (λ e. omega arith), sum_to-lt v w i n below h less)
  | no last ↦
      let here : n ≡ i = omega arith in
      omega (arith, sum_to-eq v w n (λ j below. h j (λ e. omega arith)), ap v here, ap w here)
]

-- A sum that is not zero has a term that is not.
pub sum_to-term : (w : ℕ → ℕ) (n : ℕ) → 0 < sum_to w n → (i : ℕ) × (i < n) × (0 < w i)
unfolding sum_to
sum_to-term w zero h = absurd (omega arith)
sum_to-term w (suc n) h = elim (dec_lt 0 (w n)) [
  | yes here ↦ (n, omega arith, here)
  | no other ↦ let (i, lt, pos) = sum_to-term w n (omega arith) in (i, omega arith, pos)
]
