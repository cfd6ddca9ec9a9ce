-- ===== src/Critical/Tests.antt =====
-- chapter32/pthread_testcancel.c: a cancellation that is asked for inside a critical section, and acts
-- after it.
use the_linux_programming_in.Prelude.{◌⊎◌, ◌+◌, ◌≤◌, ◌≡◌, refl, inl, true, false, arith}
use the_linux_programming_in.Critical.{
  popping, inside, completed, canceled, State, init, Step, request, strdup, push, test_before,
  disable, work, restore, cancel,
}
use the_linux_programming_in.Critical.Laws.{Ended, sections_whole}
use the_linux_programming_in.Prelude.{Run, start, step}

abbrev requested : State
requested = record {
  pc = inside 0;
  enabled = false;
  old_state = true;
  pending = true;
  pushed = true;
  allocs = 0 + 1;
  frees = 0;
  begun = 0 + 1;
  done = 0;
  handling = false;
}

to_requested : Run Step (init false) 5 requested
to_requested =
    step
      (step
        (step (step (step start (strdup refl)) (push refl))
          (test_before 0 refl (omega arith) (inl refl)))
        (disable 0 refl))
      (request refl)

abbrev stopped : State
stopped = record requested {
  pc = canceled;
  enabled = true;
  pushed = false;
  frees = 0 + 1;
  done = 0 + 1;
}

to_stopped : Run Step (init false) 8 stopped
to_stopped = step (step (step to_requested (work 0 refl)) (restore 0 refl)) (cancel refl refl tt)

sections_whole_example :
    (stopped.done ≤ stopped.begun)
    × (stopped.begun ≤ stopped.done + 1)
    × (Ended stopped.pc → (stopped.begun ≡ stopped.done) × (stopped.enabled ≡ true))
    × (Ended stopped.pc → stopped.handling ≡ false → stopped.frees ≡ stopped.allocs)
    × (stopped.handling ≡ true
        → (stopped.pc ≡ popping ⊎ stopped.pc ≡ canceled)
          × (stopped.allocs ≡ 1)
          × (stopped.frees ≡ 0)
          × (stopped.done ≡ 10))
    × (stopped.frees ≤ 1)
    × (stopped.pc ≡ completed → stopped.done ≡ 10)
sections_whole_example = sections_whole false 8 stopped to_stopped
