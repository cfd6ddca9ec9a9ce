-- ===== src/PipeSync/Tests.antt =====
-- chapter44/pipe_sync.c: a run with one child.
use the_linux_programming_in.Prelude.{
  ◌⊎◌, ℕ, ◌+◌, ◌-◌, ◌*◌, ◌≤◌, ◌<◌, ◌≡◌, refl, ◌≢◌, arith, update,
}
use the_linux_programming_in.PipeSync.{
  reaping, absent, working, closed, zombie, reaped, reading, done, State, init, Step, fork,
  close_own, child_closes, child_exits, end_of_file, reap, finish,
}
use the_linux_programming_in.PipeSync.Laws.{parent_synchronised}
use the_linux_programming_in.Prelude.{◌⊎◌, Run, start, step}

abbrev waiting : State
waiting = record {
  pc = reading;
  i = 0 + 1;
  child = update init.child 0 working;
  write_ends = 1 + 1 - 1;
}

to_waiting : Run (Step 1) init 2 waiting
to_waiting = step (step start (fork refl (omega arith))) (close_own refl (omega arith))

abbrev finished : State
finished = record {
  pc = done;
  i = 0 + 1;
  child = update (update (update (update init.child 0 working) 0 closed) 0 zombie) 0 reaped;
  write_ends = 1 + 1 - 1 - 1;
}

to_finished : Run (Step 1) init 7 finished
to_finished =
    step
      (step
        (step (step (step to_waiting (child_closes 0 refl)) (child_exits 0 refl))
          (end_of_file refl refl))
        (reap refl (omega arith) refl))
      (finish refl (omega arith))

parent_synchronised_example :
    ((7 ≤ 1 * 4 + 3) × (finished.pc ≢ done → (u : State) × Step 1 finished u))
    × (finished.pc ≡ reaping ⊎ finished.pc ≡ done
        → (finished.write_ends ≡ 0)
          × ((j : ℕ) → j < 1 → (finished.child j ≢ absent) × (finished.child j ≢ working))
          × (finished.pc ≡ done → (j : ℕ) → j < 1 → finished.child j ≡ reaped))
parent_synchronised_example = parent_synchronised 1 7 finished to_finished
