-- ===== src/Cleanup/Tests.antt =====
-- chapter32/pthread_cleanup.c: the thread that is to be cancelled, after one round of its loop.
use the_linux_programming_in.Prelude.{true, none, [], ◌∷◌}
use the_linux_programming_in.Cleanup.{first, second, canceled, State}

abbrev stopped : State
stopped = record {
  pc = canceled;
  pending = true;
  made = second ∷ first ∷ [];
  handlers = [];
  running = none;
  freed = second ∷ first ∷ [];
}
