-- ===== src/Prelude/Sums.antt =====
-- Sums of a function over the numbers below a bound, and functions changed at one number.
use Prim.Native.Nat.{ℕ, zero, suc, ◌+◌, ◌*◌, ◌≤◌, ◌<◌}
use mathlib.Core.Path.{◌≡◌, refl, ap₂}
use mathlib.Core.Logic.{◌≢◌}
use native.Mathlib.Omega.{arith}
use native.Mathlib.Decide.{dec_lt}
use the_linux_programming_in.Prelude.Tests.{◌==◌, if◌then◌else◌}

-- The function with the value at `i` given anew.
abbrev pub update {ℓ} : {A : Type ℓ} → (ℕ → A) → ℕ → A → ℕ → A
update f i v j = if i == j then v else f j

pub sum_below : (ℕ → ℕ) → ℕ → ℕ
sum_below f zero = 0
sum_below f (suc n) = sum_below f n + f n

pub sum_below_ext :
    (f g : ℕ → ℕ) (n : ℕ) → ((j : ℕ) → j < n → f j ≡ g j) → sum_below f n ≡ sum_below g n
unfolding sum_below
sum_below_ext f g zero h = refl
sum_below_ext f g (suc n) h =
    ap₂ ◌+◌ (sum_below_ext f g n (λ j lt. h j (omega arith))) (h n (omega arith))

-- Two functions that differ at `i` only
pub sum_below_change :
    (f g : ℕ → ℕ) (i n : ℕ)
    → i < n
    → ((j : ℕ) → i ≢ j → f j ≡ g j)
    → sum_below f n + g i ≡ sum_below g n + f i
unfolding sum_below
sum_below_change f g i zero lt h = absurd (omega arith)
sum_below_change f g i (suc n) lt h = elim (dec_lt i n) [
  | yes below ↦ omega (arith, sum_below_change f g i n below h, h n (omega arith))
  | no last ↦ ground (arith, sum_below_ext f g n (λ j small. h j (omega arith)))
]

pub le-sum_below : (f : ℕ → ℕ) (i n : ℕ) → i < n → f i ≤ sum_below f n
unfolding sum_below
le-sum_below f i zero lt = absurd (omega arith)
le-sum_below f i (suc n) lt = elim (dec_lt i n) [
  | yes below ↦ omega (arith, le-sum_below f i n below)
  | no last ↦ ground arith
]

pub sum_below_pos : (f : ℕ → ℕ) (n : ℕ) → 0 < sum_below f n → (i : ℕ) × (i < n) × (0 < f i)
unfolding sum_below
sum_below_pos f zero h = absurd (omega arith)
sum_below_pos f (suc n) h = elim (dec_lt 0 (f n)) [
  | yes here ↦ (n, omega arith, here)
  | no there ↦ let (i, lt, p) = sum_below_pos f n (omega arith) in (i, omega arith, p)
]

pub sum_below-eq-zero : (f : ℕ → ℕ) (n : ℕ) → ((j : ℕ) → j < n → f j ≡ 0) → sum_below f n ≡ 0
unfolding sum_below
sum_below-eq-zero f zero h = refl
sum_below-eq-zero f (suc n) h =
    omega (arith, sum_below-eq-zero f n (λ j lt. h j (omega arith)), h n (omega arith))

pub sum_below_ones : (f : ℕ → ℕ) (n : ℕ) → ((j : ℕ) → j < n → f j ≡ 1) → sum_below f n ≡ n
unfolding sum_below
sum_below_ones f zero h = refl
sum_below_ones f (suc n) h =
    omega (arith, sum_below_ones f n (λ j lt. h j (omega arith)), h n (omega arith))

pub sum_below_const : (f : ℕ → ℕ) (c n : ℕ) → ((j : ℕ) → j < n → f j ≡ c) → sum_below f n ≡ n * c
unfolding sum_below
sum_below_const f c zero h = omega arith
sum_below_const f c (suc n) h =
    grind (arith, sum_below_const f c n (λ j lt. h j (omega arith)), h n (omega arith))

pub sum_below_four : (f : ℕ → ℕ) → sum_below f 4 ≡ f 0 + f 1 + f 2 + f 3
unfolding sum_below
sum_below_four f = omega arith
