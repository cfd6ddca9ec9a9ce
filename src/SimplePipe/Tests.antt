-- ===== src/SimplePipe/Tests.antt =====
-- chapter44/simple_pipe.c: one byte through a pipe of one byte.
use the_linux_programming_in.Prelude.{
  ℕ, ◌+◌, ◌*◌, ◌≤◌, ◌≡◌, refl, ◌≢◌, true, false, List, [], ◌∷◌, ◌++◌, arith,
}
use the_linux_programming_in.SimplePipe.{
  waiting, ended, ChildPc, zombie, State, init, Step, parent_begins, transfer, write_returns,
  wait_returns, child_begins, read, echo, end_of_file, newline,
}
use the_linux_programming_in.SimplePipe.Laws.{output_complete}
use the_linux_programming_in.Prelude.{Run, start, step}

abbrev sent : State
sent = record {
  parent = waiting;
  child = ChildPc.at_start;
  pipe = 65 ∷ [];
  parent_end = false;
  child_end = true;
  output = [];
}

to_sent : Run (Step 1 (65 ∷ [])) init 3 sent
to_sent =
    step
      (step (step start (parent_begins refl))
        (transfer (65 ∷ []) [] refl (omega arith) (omega arith)))
      (write_returns refl)

abbrev done : State
done = record {
  parent = ended;
  child = zombie;
  pipe = [];
  parent_end = false;
  child_end = false;
  output = 65 ∷ 10 ∷ [];
}

to_done : Run (Step 1 (65 ∷ [])) init 9 done
to_done =
    step
      (step
        (step (step (step (step to_sent (child_begins refl)) (read 65 [] refl refl)) (echo 65 refl))
          (end_of_file refl refl refl refl))
        (newline refl))
      (wait_returns refl refl)

output_complete_example :
    ((9 ≤ 3 * 1 + 7) × (done.parent ≢ ended → (u : State) × Step 1 (65 ∷ []) done u))
    × (done.parent ≡ ended → done.output ≡ 65 ∷ 10 ∷ [])
    × ((rest : List ℕ) × (done.output ++ rest ≡ 65 ∷ 10 ∷ []))
output_complete_example = output_complete 1 9 (65 ∷ []) done (omega arith) to_done
