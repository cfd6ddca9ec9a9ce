-- ===== src/TestCancel/Progress.antt =====
-- chapter32/pthread_testcancel.c: that the threads with and without pthread_testcancel come to their end.
use the_linux_programming_in.Prelude.{
  false, ◌⊎◌, ℕ, ◌+◌, ◌-◌, ◌*◌, ◌≤◌, ◌<◌, ◌≡◌, refl, inl, inr, Bool, true, arith, ltb, ltb→lt,
  Bool-cases,
}
use the_linux_programming_in.Prelude.{Run, Run-keeps, Run-bounded}
use the_linux_programming_in.TestCancel.{
  popping, free, Pc, starting, allocated, looping, computing, checking, sleeping, checking_again,
  popped, completed, canceled, State, init, first_check, second_check, Step, request, strdup, push,
  print, compute, check, wake, check_again, pop, complete, cancel,
}
use the_linux_programming_in.TestCancel.Laws.{requests, Fits, init-Fits, Step-Fits, Ended}

abbrev place : Pc → ℕ
place starting = 105
place allocated = 104
place (looping i) = 5 * (20 - i) + 3
place (computing i) = 5 * (20 - i) + 2
place (checking i) = 5 * (20 - i) + 1
place (sleeping i) = 5 * (20 - i)
place (checking_again i) = 5 * (20 - i) - 1
place popping = 2
place popped = 1
place completed = 0
place canceled = 0

abbrev measure : State → ℕ
measure s = place s.pc + (1 - requests s.pending)

module _ (checks : Bool) where
  Step-measure : (s u : State) → Fits s s.pc → Step checks s u → measure u < measure s
  Step-measure s u v (request e) = ground arith
  Step-measure s u v (strdup e) = ground arith
  Step-measure s u v (push e) = ground arith
  Step-measure s u v (print i e l) = ground arith
  Step-measure s u v (compute i e) = ground arith
  Step-measure s u v (check i e p) = ground arith
  Step-measure s u v (wake i e p) = ground arith
  Step-measure s u v (check_again i e p) = ground arith
  Step-measure s u v (pop i e l) = ground arith
  Step-measure s u v (free e) = ground arith
  Step-measure s u v (complete e) = ground arith
  Step-measure s u v (cancel p c) = ground arith

  -- A step past a point of cancellation, or the cancellation
  exists_step :
      (s : State) (p : Pc) → s.pc ≡ p → Fits s s.pc → ¬ Ended p → (u : State) × Step checks s u
  exists_step s starting e v h = (_, strdup e)
  exists_step s allocated e v h = (_, push e)
  exists_step s (looping i) e v h = elim (Bool-cases (ltb i 20)) [
    | inl l ↦ (_, print i e (ltb→lt i 20 l))
    | inr l ↦ (_, pop i e (ground arith))
  ]
  exists_step s (computing i) e v h = (_, compute i e)
  exists_step s (checking i) e v h = elim (Bool-cases (first_check checks i)) [
    | inl c ↦ elim (Bool-cases s.pending) [
      | inl p ↦ (_, cancel p (ground arith))
      | inr p ↦ (_, check i e (inr p))
    ]
    | inr c ↦ (_, check i e (inl c))
  ]
  exists_step s (sleeping i) e v h = elim (Bool-cases s.pending) [
    | inl p ↦ (_, cancel p (ground arith))
    | inr p ↦ (_, wake i e p)
  ]
  exists_step s (checking_again i) e v h = elim (Bool-cases (second_check checks i)) [
    | inl c ↦ elim (Bool-cases s.pending) [
      | inl p ↦ (_, cancel p (ground arith))
      | inr p ↦ (_, check_again i e (inr p))
    ]
    | inr c ↦ (_, check_again i e (inl c))
  ]
  exists_step s popping e v h = (_, free e)
  exists_step s popped e v h = (_, complete e)
  exists_step s completed e v h = absurd (h tt)
  exists_step s canceled e v h = absurd (h tt)

-- Every run of testCancelThread and of noTestCancelThread comes to the end of the thread: until it has
-- ended some step is possible, and no run has more than 106 steps. Whenever the thread is cancelled, it
-- begins at most one round after that, and none if it completes, which it does only after all 20 rounds;
-- it stops before its end only if it is cancelled. Its resource is allocated at most once, and when the
-- thread has ended, it is freed as often as it was allocated, but for one case: the thread is cancelled
-- after all 20 rounds, in the handler that pthread_cleanup_pop runs, before its free.
pub cancelled_promptly :
    (checks : Bool) (k : ℕ) (s : State)
    → Run (Step checks) init k s
    → ((k ≤ 106) × (¬ Ended s.pc → (u : State) × Step checks s u))
      × (s.late ≤ 1)
      × (s.pc ≡ completed → (s.printed ≡ 20) × (s.late ≡ 0))
      × (s.pc ≡ canceled → s.pending ≡ true)
      × (Ended s.pc → s.handling ≡ false → s.frees ≡ s.allocs)
      × (s.handling ≡ true
          → (s.pc ≡ popping ⊎ s.pc ≡ canceled) × (s.allocs ≡ 1) × (s.frees ≡ 0) × (s.printed ≡ 20))
      × (s.allocs ≤ 1)
cancelled_promptly checks k s r =
    let v = Run-keeps (λ t. Fits t t.pc) (Step-Fits checks) init-Fits r in
    let falls =
      Run-bounded (λ t. Fits t t.pc) measure (Step-Fits checks) (Step-measure checks) init-Fits r in
    (
      (omega (arith, falls), exists_step checks s s.pc refl v),
      ground arith,
      λ e. ground arith,
      λ e. ground arith,
      λ e f. ground arith,
      λ e. ground arith,
      ground arith,
    )
