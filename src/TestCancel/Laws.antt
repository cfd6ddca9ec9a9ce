-- ===== src/TestCancel/Laws.antt =====
-- chapter32/pthread_testcancel.c: how soon a cancellation acts, and what becomes of the resource.
use the_linux_programming_in.Prelude.{ℕ, ◌+◌, ◌≤◌, ◌<◌, ◌≡◌, refl, Bool, true, false, arith}
use the_linux_programming_in.TestCancel.{
  popping, free, Pc, starting, allocated, looping, computing, checking, sleeping, checking_again,
  popped, completed, canceled, State, init, Step, request, strdup, push, print, compute, check,
  wake, check_again, pop, complete, cancel,
}

abbrev pub requests : Bool → ℕ
requests true = 1
requests false = 0

abbrev pub Held : State → Type 0
Held s = (s.allocs ≡ 1) × (s.frees ≡ 0) × (s.pushed ≡ true) × (s.handling ≡ false)

-- No line is late as long as nothing is asked for.
abbrev pub Due : State → Type 0
Due s = s.late ≤ requests s.pending

-- What holds where the thread is
abbrev pub Fits : State → Pc → Type 0
Fits s starting =
    (s.allocs ≡ 0)
    × (s.frees ≡ 0)
    × (s.pushed ≡ false)
    × (s.handling ≡ false)
    × (s.printed ≡ 0)
    × (s.late ≡ 0)
Fits s allocated =
    (s.allocs ≡ 1)
    × (s.frees ≡ 0)
    × (s.pushed ≡ false)
    × (s.handling ≡ false)
    × (s.printed ≡ 0)
    × (s.late ≡ 0)
Fits s (looping i) = Held s × (s.printed ≡ i) × (i ≤ 20) × (s.late ≡ 0)
Fits s (computing i) = Held s × (s.printed ≡ i + 1) × (i < 20) × Due s
Fits s (checking i) = Held s × (s.printed ≡ i + 1) × (i < 20) × Due s
Fits s (sleeping i) = Held s × (s.printed ≡ i + 1) × (i < 20) × Due s
Fits s (checking_again i) = Held s × (s.printed ≡ i + 1) × (i < 20) × (s.late ≡ 0)
Fits s popped =
    (s.allocs ≡ 1)
    × (s.frees ≡ 1)
    × (s.pushed ≡ false)
    × (s.handling ≡ false)
    × (s.printed ≡ 20)
    × (s.late ≡ 0)
Fits s popping =
    (s.allocs ≡ 1)
    × (s.frees ≡ 0)
    × (s.pushed ≡ false)
    × (s.handling ≡ true)
    × (s.printed ≡ 20)
    × (s.late ≡ 0)
Fits s completed =
    (s.allocs ≡ 1) × (s.frees ≡ 1) × (s.handling ≡ false) × (s.printed ≡ 20) × (s.late ≡ 0)
Fits s canceled =
    (s.allocs ≤ 1)
    × (s.frees ≤ s.allocs)
    × (s.handling ≡ false → s.frees ≡ s.allocs)
    × (s.handling ≡ true → (s.allocs ≡ 1) × (s.frees ≡ 0) × (s.printed ≡ 20))
    × (s.printed ≤ 20)
    × (s.late ≤ 1)
    × (s.pending ≡ true)

pub init-Fits : Fits init init.pc
init-Fits = (refl, refl, refl, refl, refl, refl)

module _ (checks : Bool) where
  pub Step-Fits : (s u : State) → Fits s s.pc → Step checks s u → Fits u u.pc
  Step-Fits s u v (request e) = ground arith
  Step-Fits s u v (strdup e) = ground arith
  Step-Fits s u v (push e) = ground arith
  Step-Fits s u v (print i e l) = ground arith
  Step-Fits s u v (compute i e) = ground arith
  Step-Fits s u v (check i e p) = ground arith
  Step-Fits s u v (wake i e p) = ground arith
  Step-Fits s u v (check_again i e p) = ground arith
  Step-Fits s u v (pop i e l) = ground arith
  Step-Fits s u v (free e) = ground arith
  Step-Fits s u v (complete e) = ground arith
  Step-Fits s u v (cancel p c) = ground arith

abbrev pub Ended : Pc → Type 0
Ended completed = Unit
Ended canceled = Unit
Ended p = ⊥
