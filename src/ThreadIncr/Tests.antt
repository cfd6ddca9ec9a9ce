-- ===== src/ThreadIncr/Tests.antt =====
-- chapter30: a run of one round for each thread with the mutex, and the lost updates at three rounds.
use the_linux_programming_in.Prelude.{ℕ, ◌+◌, ◌*◌, ◌≤◌, ◌≡◌, refl, none, arith}
use the_linux_programming_in.ThreadIncr.{
  Thread, pc, loaded, looping, ended, one, two, State, init, Step, lock, load, store, unlock, leave,
  Finished,
}
use the_linux_programming_in.ThreadIncr.Progress.{int_max, glob_exact}
use the_linux_programming_in.Prelude.{Run, start, step}

abbrev half : State
half = record { glob = 1; mtx = none; t1 = ended; t2 = looping 0 }

to_half : Run (Step 1) init 5 half
to_half =
    step
      (step
        (step (step (step start (lock one 0 refl (omega arith) refl)) (load one 0 refl))
          (store one 0 1 refl))
        (unlock one 0 refl))
      (leave one 1 refl (omega arith))

abbrev done : State
done = record { glob = 2; mtx = none; t1 = ended; t2 = ended }

to_done : Run (Step 1) init 10 done
to_done =
    step
      (step
        (step (step (step to_half (lock two 0 refl (omega arith) refl)) (load two 0 refl))
          (store two 0 2 refl))
        (unlock two 0 refl))
      (leave two 1 refl (omega arith))

glob_exact_example :
    ((10 ≤ 8 * 1 + 2) × (¬ Finished done → (u : State) × Step 1 done u))
    × (done.glob ≤ int_max)
    × ((t : Thread) (j loc : ℕ) → pc t done ≡ loaded j loc → loc ≤ int_max)
    × (Finished done → done.glob ≡ 2 * 1)
glob_exact_example = glob_exact 1 10 done (omega arith) to_done
