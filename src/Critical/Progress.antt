-- ===== src/Critical/Progress.antt =====
-- chapter32/pthread_testcancel.c: the end of criticalSectionThread.
use the_linux_programming_in.Prelude.{
  ℕ, ◌+◌, ◌-◌, ◌*◌, ◌≤◌, ◌<◌, ◌≡◌, refl, inl, inr, Bool, true, false, arith, ltb, ltb→lt,
  Bool-cases,
}
use the_linux_programming_in.Critical.{
  popping, freed, free, finish, Pc, starting, allocated, before, entering, inside, leaving, after,
  sleeping, completed, canceled, State, init, Step, request, strdup, push, test_before, disable,
  work, restore, test_after, wake, pop, cancel,
}
use the_linux_programming_in.Critical.Laws.{Fits, init-Fits, Step-Fits, Ended}
use the_linux_programming_in.Prelude.{Run, Run-keeps, Run-bounded}

abbrev place : Pc → ℕ
place starting = 65
place allocated = 64
place (before i) = 6 * (10 - i) + 3
place (entering i) = 6 * (10 - i) + 2
place (inside i) = 6 * (10 - i) + 1
place (leaving i) = 6 * (10 - i)
place (after i) = 6 * (10 - i) - 1
place (sleeping i) = 6 * (10 - i) - 2
place popping = 2
place freed = 1
place completed = 0
place canceled = 0

abbrev requests : Bool → ℕ
requests true = 0
requests false = 1

abbrev measure : State → ℕ
measure s = place s.pc + requests s.pending

Step-measure : (s u : State) → Fits s s.pc → Step s u → measure u < measure s
Step-measure s u v (request e) = ground arith
Step-measure s u v (strdup e) = ground arith
Step-measure s u v (push e) = ground arith
Step-measure s u v (test_before i e l p) = ground arith
Step-measure s u v (disable i e) = ground arith
Step-measure s u v (work i e) = ground arith
Step-measure s u v (restore i e) = ground arith
Step-measure s u v (test_after i e p) = ground arith
Step-measure s u v (wake i e) = ground arith
Step-measure s u v (pop i e l) = ground arith
Step-measure s u v (free e) = ground arith
Step-measure s u v (finish e) = ground arith
Step-measure s u v (cancel e p c) = ground arith

exists_step : (s : State) (p : Pc) → s.pc ≡ p → Fits s s.pc → ¬ Ended p → (u : State) × Step s u
exists_step s starting e v h = (_, strdup e)
exists_step s allocated e v h = (_, push e)
exists_step s (before i) e v h = elim (Bool-cases (ltb i 10)) [
  | inl l ↦ elim (Bool-cases s.pending) [
    | inl p ↦ (_, cancel (ground arith) p (ground arith))
    | inr p ↦ (_, test_before i e (ltb→lt i 10 l) (inl p))
  ]
  | inr l ↦ (_, pop i e (ground arith))
]
exists_step s (entering i) e v h = (_, disable i e)
exists_step s (inside i) e v h = (_, work i e)
exists_step s (leaving i) e v h = (_, restore i e)
exists_step s (after i) e v h = elim (Bool-cases s.pending) [
  | inl p ↦ (_, cancel (ground arith) p (ground arith))
  | inr p ↦ (_, test_after i e (inl p))
]
exists_step s (sleeping i) e v h = (_, wake i e)
exists_step s popping e v h = (_, free e)
exists_step s freed e v h = (_, finish e)
exists_step s completed e v h = absurd (h tt)
exists_step s canceled e v h = absurd (h tt)

-- Every run comes to the end of the thread, whether it is cancelled or not and whenever: until it has
-- ended some step is possible, and no run has more than 66 steps.
pub section_thread_ends :
    (garbage : Bool) (k : ℕ) (s : State)
    → Run Step (init garbage) k s
    → (k ≤ 66) × (¬ Ended s.pc → (u : State) × Step s u)
section_thread_ends garbage k s r = (
  omega
      (arith, Run-bounded (λ t. Fits t t.pc) measure Step-Fits Step-measure (init-Fits garbage) r),
  exists_step s s.pc refl (Run-keeps (λ t. Fits t t.pc) Step-Fits (init-Fits garbage) r),
)
