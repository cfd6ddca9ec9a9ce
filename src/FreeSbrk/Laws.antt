-- ===== src/FreeSbrk/Laws.antt =====
-- chapter7/free_and_sbrk.c: which blocks are freed, and when the loop leaves the range of int.
use the_linux_programming_in.Prelude.{
  ℕ, zero, suc, ◌+◌, ◌-◌, ◌*◌, ◌≤◌, ◌<◌, ◌≡◌, refl, ◌∙◌, ◌↔◌, inl, inr, true, List, [], ◌∷◌, arith,
  ltb, leb, ltb→lt, Bool-cases,
}
use the_linux_programming_in.FreeSbrk.{
  int_max, Calls, Exit, usage_error, bad_number, too_many_allocs, bad_free_max, malloc_failed,
  freed, overflow, out_of_fuel, all_allocated, also_freed, free_loop, Range, run,
}
use the_linux_programming_in.Prelude.{Has}

-- Each index is at least the bound, below the end, and below the next.
abbrev pub IsAscending : ℕ → ℕ → List ℕ → Type 0
IsAscending from end [] = Unit
IsAscending from end (j ∷ js) = (from ≤ j) × (j < end) × IsAscending (suc j) end js

IsAscending-mono : (m n end : ℕ) (js : List ℕ) → m ≤ n → IsAscending n end js → IsAscending m end js
IsAscending-mono m n end [] le h = tt
IsAscending-mono m n end (j ∷ js) le (a, b, c) = (omega arith, b, c)

-- Exactly the indices below the end that are a number of steps after the first
abbrev pub IsExact : ℕ → ℕ → ℕ → List ℕ → Type 0
IsExact first end step js = (j : ℕ) → Has j js ↔ ((k : ℕ) × (j ≡ first + k * step) × (j < end))

abbrev pub Frees : ℕ → ℕ → ℕ → Exit → Type 0
Frees first end step (freed js) = IsAscending first end js × IsExact first end step js
Frees first end step _ = ⊥

step_back :
    (first end step j k : ℕ) (js : List ℕ)
    → IsExact (first + step) end step js
    → j ≡ first + k * step
    → j < end
    → Has j (first ∷ js)
step_back first end step j zero js h e l = inl (omega arith)
step_back first end step j (suc k) js h e l = inr ((h j).1 (k, e ∙ grind arith, l))

step_on :
    (first end step j : ℕ) (js : List ℕ)
    → first < end
    → IsExact (first + step) end step js
    → Has j (first ∷ js)
    → (k : ℕ) × (j ≡ first + k * step) × (j < end)
step_on first end step j js lt h (inl e) = (0, omega arith, omega arith)
step_on first end step j js lt h (inr has) =
    let (k, e, l) = (h j).0 has in (suc k, e ∙ grind arith, l)

IsExact-cons :
    (first end step : ℕ) (js : List ℕ)
    → first < end
    → IsExact (first + step) end step js
    → IsExact first end step (first ∷ js)
IsExact-cons first end step js lt h j =
    (step_on first end step j js lt h, (λ (k, e, l). step_back first end step j k js h e l))

Frees-also :
    (j end step : ℕ) (e : Exit)
    → j < end
    → 1 ≤ step
    → Frees (j + step) end step e
    → Frees j end step (also_freed j e)
Frees-also j end step (freed js) lt le (asc, exact) = (
  (omega arith, lt, IsAscending-mono (suc j) (j + step) end js (omega arith) asc),
  IsExact-cons j end step js lt exact,
)
Frees-also j end step usage_error lt le h = absurd h
Frees-also j end step bad_number lt le h = absurd h
Frees-also j end step too_many_allocs lt le h = absurd h
Frees-also j end step bad_free_max lt le h = absurd h
Frees-also j end step malloc_failed lt le h = absurd h
Frees-also j end step overflow lt le h = absurd h
Frees-also j end step out_of_fuel lt le h = absurd h

-- No index is left.
IsExact-none : (j end step : ℕ) → end ≤ j → IsExact j end step []
IsExact-none j end step le i = ((λ has. absurd has), (λ (k, e, l). absurd (grind arith)))

-- The loop ends with fuel above the number of indices left, and frees the indices in steps, each
-- once, if no step can leave the range of int.
free_loop-Frees :
    (fuel j end step : ℕ)
    → 1 ≤ step
    → end - j < fuel
    → end + step ≤ int_max + 1
    → Frees j end step (free_loop fuel j end step)
unfolding free_loop
free_loop-Frees zero j end step p f b = absurd (omega arith)
free_loop-Frees (suc fuel) j end step p f b = elim (Bool-cases (ltb j end)) [
  | inl l ↦
      let lt = ltb→lt j end l in
      let fits : leb (j + step) int_max ≡ true = ground arith in
      rw (l, fits)
        (Frees-also j end step (free_loop fuel (j + step) end step) lt p
          (free_loop-Frees fuel (j + step) end step p (omega arith) b))
  | inr l ↦ rw l (tt, IsExact-none j end step (ground arith))
]

freed_of :
    (first end step : ℕ) (e : Exit)
    → Frees first end step e
    → (js : List ℕ) × (e ≡ freed js) × IsAscending first end js × IsExact first end step js
freed_of first end step (freed js) (a, x) = (js, refl, a, x)
freed_of first end step usage_error h = absurd h
freed_of first end step bad_number h = absurd h
freed_of first end step too_many_allocs h = absurd h
freed_of first end step bad_free_max h = absurd h
freed_of first end step malloc_failed h = absurd h
freed_of first end step overflow h = absurd h
freed_of first end step out_of_fuel h = absurd h

-- If every malloc succeeds, the range ends among the blocks, the step is above 0, the end and the
-- step together do not leave the range of int, and the fuel is above the end, the program frees
-- exactly the blocks in steps from the first of the range to its end, each once and in order.
pub run-Frees :
    (k : Calls) (fuel num : ℕ) (r : Range)
    → 1 ≤ r.step
    → r.last ≤ num
    → r.last < fuel
    → all_allocated k.malloc 0 num ≡ true
    → r.last + r.step ≤ int_max + 1
    → (js : List ℕ) × (run k fuel num r ≡ freed js)
      × IsAscending (r.first - 1) r.last js
      × IsExact (r.first - 1) r.last r.step js
unfolding run
run-Frees k fuel num r p le f all b =
    let (js, e, asc, exact) =
      freed_of (r.first - 1) r.last r.step (free_loop fuel (r.first - 1) r.last r.step)
        (free_loop-Frees fuel (r.first - 1) r.last r.step p (omega arith) b) in
    (js, ground (arith, e), asc, exact)

-- If the first index lies in the range and a step takes it out of the range of int, the program
-- computes a sum that int cannot hold.
pub run_overflows :
    (k : Calls) (fuel num : ℕ) (r : Range)
    → r.last ≤ num
    → r.first - 1 < r.last
    → all_allocated k.malloc 0 num ≡ true
    → int_max < r.first - 1 + r.step
    → run k (suc fuel) num r ≡ overflow
unfolding run free_loop
run_overflows k fuel num r le lt all out = ground arith
