-- ===== src/PipeExchange/Tests.antt =====
-- chapter35/pipe_cpu_affinity.c: the start of an exchange of buffers of 3 bytes, and too small a pipe.
use the_linux_programming_in.Prelude.{ℕ, ◌+◌, ◌*◌, ◌≤◌, ◌≡◌, refl, arith}
use the_linux_programming_in.PipeExchange.{
  parent, looping, writing, State, init, Step, begin, write, Finished,
}
use the_linux_programming_in.PipeExchange.Progress.{exchange_ends}
use the_linux_programming_in.PipeExchange.Stuck.{exchange_stuck}
use the_linux_programming_in.Prelude.{Run, start, step}

abbrev begun : State
begun = record {
  parent_pc = writing 1 (0 + 2);
  child_pc = looping 2;
  from_parent = 0 + 2;
  from_child = 0;
}

to_begun : Run (Step 3 4) (init 2) 2 begun
to_begun =
    step (step start (begin parent 1 refl))
      (write parent 1 0 2 refl (omega arith) (omega arith) (omega arith))

exchange_ends_example :
    (2 ≤ 2 * (2 * (2 * 3 + 3) + 1))
    × (¬ Finished begun → (u : State) × Step 3 4 begun u)
    × (Finished begun → (begun.from_parent ≡ 0) × (begun.from_child ≡ 0))
exchange_ends_example = exchange_ends 3 4 2 2 begun (omega arith) (omega arith) to_begun

exchange_stuck_example :
    (k : ℕ) × (s : State) × Run (Step 3 2) (init 5) k s
    × ¬ Finished s
    × ((u : State) → ¬ Step 3 2 s u)
exchange_stuck_example = exchange_stuck 3 2 4 (omega arith) (omega arith)
