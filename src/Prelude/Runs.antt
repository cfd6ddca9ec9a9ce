-- ===== src/Prelude/Runs.antt =====
-- Runs of a step relation, with the number of their steps, for the programs that are modelled as one.

use Prim.Native.Nat.{ℕ, suc, ◌+◌, ◌≤◌, ◌<◌}
use native.Mathlib.Omega.{arith}

pub data Run {ℓ} {S : Type ℓ} (R : S → S → Type ℓ) (s : S) : ℕ → S → Type ℓ where
  start : Run R s 0 s
  step : {k : ℕ} {t u : S} → Run R s k t → R t u → Run R s (suc k) u

module _ {ℓ} {S : Type ℓ} {R : S → S → Type ℓ} where
  -- What every step keeps holds in each state of a run.
  pub Run-keeps :
      (P : S → Type ℓ)
      → ((t u : S) → P t → R t u → P u)
      → {s u : S} {k : ℕ} → P s
      → Run R s k u
      → P u
  Run-keeps P keep h start = h
  Run-keeps P keep {u = u} h (step {t = t} r x) = keep t u (Run-keeps P keep h r) x

  -- A measure that every step lowers, where the invariant holds, bounds the length of a run.
  pub Run-bounded :
      (P : S → Type ℓ) (measure : S → ℕ)
      → ((t u : S) → P t → R t u → P u)
      → ((t u : S) → P t → R t u → measure u < measure t)
      → {s u : S} {k : ℕ} → P s
      → Run R s k u
      → measure u + k ≤ measure s
  Run-bounded P measure keep falls h start = omega arith
  Run-bounded P measure keep falls {u = u} h (step {t = t} r x) =
      omega (arith, Run-bounded P measure keep falls h r, falls t u (Run-keeps P keep h r) x)

  -- A run and one after it
  pub Run-append : {s t u : S} {j k : ℕ} → Run R s j t → Run R t k u → (n : ℕ) × Run R s n u
  Run-append {j = j} a start = (j, a)
  Run-append a (step b x) = let (n, c) = Run-append a b in (suc n, step c x)
