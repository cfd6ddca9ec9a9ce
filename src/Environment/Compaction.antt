-- ===== src/Environment/Compaction.antt =====
-- chapter6/exercise_3.c: the loop of `my_unsetenv`, which moves the entries that stay to the front
-- of `environ` in place, against the filter that it computes.
use the_linux_programming_in.Prelude.{
  ℕ, zero, suc, ◌≤◌, ◌<◌, ◌≡◌, inl, inr, Option, none, some, List, [], ◌∷◌, arith, if◌then◌else◌,
  Bool-cases, length, Bytes,
}
use the_linux_programming_in.Environment.{names, Slots, write, compact}

-- From slot `i` on the array holds these strings, and then NULL.
abbrev pub Holds : Slots → ℕ → List Bytes → Type 0
Holds a i [] = a i ≡ none
Holds a i (x ∷ xs) = (a i ≡ some x) × Holds a (suc i) xs

-- The entries of other names, in order.
abbrev pub without : Bytes → List Bytes → List Bytes
without name [] = []
without name (e ∷ env) = if names name e then without name env else e ∷ without name env

-- A write below `i` is not seen from `i` on.
Holds-write :
    (a : Slots) (w i : ℕ) (v : Option Bytes) (xs : List Bytes)
    → w < i
    → Holds a i xs
    → Holds (write a w v) i xs
Holds-write a w i v [] lt h = ground arith
Holds-write a w i v (x ∷ xs) lt h = (ground arith, Holds-write a w (suc i) v xs (omega arith) h.1)

-- The loop ends, and leaves the filtered entries from `w` on and what stood below `w`.
pub compact-Holds :
    (fuel : ℕ) (name : Bytes) (a : Slots) (r w : ℕ) (xs : List Bytes)
    → length xs < fuel
    → w ≤ r
    → Holds a r xs
    → (b : Slots) × (compact fuel name a r w ≡ some b)
      × Holds b w (without name xs)
      × ((i : ℕ) → i < w → b i ≡ a i)
unfolding compact
compact-Holds zero name a r w xs lt le h = absurd (omega arith)
compact-Holds (suc fuel) name a r w [] lt le h =
    (write a w none, rw (h, compact), ground arith, λ i below. ground arith)
compact-Holds (suc fuel) name a r w (x ∷ xs) lt le h = elim (Bool-cases (names name x)) [
  | inl gone ↦
      let (b, done, held, low) =
        compact-Holds fuel name a (suc r) w xs (omega arith) (omega arith) h.1 in
      (b, rw (h.0, compact, gone) done, rw gone held, low)
  | inr stays ↦
      let (b, done, held, low) =
        compact-Holds fuel name (write a w (some x)) (suc r) (suc w) xs (omega arith) (omega arith)
          (Holds-write a w (suc r) (some x) xs (omega arith) h.1) in
      (
        b,
        rw (h.0, compact, stays) done,
        rw stays (ground (arith, low w (omega arith)), held),
        λ i below. ground (arith, low i (omega arith)),
      )
]
