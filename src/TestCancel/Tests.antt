-- ===== src/TestCancel/Tests.antt =====
-- chapter32/pthread_testcancel.c: a cancellation that is asked for between two rounds of the thread
-- without checks, and acts in the `usleep` of the next round.
use the_linux_programming_in.Prelude.{◌⊎◌, ◌+◌, ◌≤◌, ◌≡◌, refl, inl, true, false, arith}
use the_linux_programming_in.Prelude.{Run, start, step}
use the_linux_programming_in.TestCancel.{
  popping, completed, canceled, State, init, Step, request, strdup, push, print, compute, check,
  wake, check_again, cancel,
}
use the_linux_programming_in.TestCancel.Laws.{Ended}
use the_linux_programming_in.TestCancel.Progress.{cancelled_promptly}

abbrev stopped : State
stopped = record {
  pc = canceled;
  pending = true;
  pushed = false;
  allocs = 0 + 1;
  frees = 0 + 1;
  handling = false;
  printed = 0 + 1 + 1;
  late = 0 + 1;
}

to_stopped : Run (Step false) init 12 stopped
to_stopped =
    step
      (step
        (step
          (step
            (step
              (step
                (step
                  (step
                    (step
                      (step (step (step start (strdup refl)) (push refl))
                        (print 0 refl (omega arith)))
                      (compute 0 refl))
                    (check 0 refl (inl refl)))
                  (wake 0 refl refl))
                (check_again 0 refl (inl refl)))
              (request refl))
            (print 1 refl (omega arith)))
          (compute 1 refl))
        (check 1 refl (inl refl)))
      (cancel refl tt)

cancelled_promptly_example :
    ((12 ≤ 106) × (¬ Ended stopped.pc → (u : State) × Step false stopped u))
    × (stopped.late ≤ 1)
    × (stopped.pc ≡ completed → (stopped.printed ≡ 20) × (stopped.late ≡ 0))
    × (stopped.pc ≡ canceled → stopped.pending ≡ true)
    × (Ended stopped.pc → stopped.handling ≡ false → stopped.frees ≡ stopped.allocs)
    × (stopped.handling ≡ true
        → (stopped.pc ≡ popping ⊎ stopped.pc ≡ canceled)
          × (stopped.allocs ≡ 1)
          × (stopped.frees ≡ 0)
          × (stopped.printed ≡ 20))
    × (stopped.allocs ≤ 1)
cancelled_promptly_example = cancelled_promptly false 12 stopped to_stopped
