-- ===== src/SigSync/Tests.antt =====
-- chapter24/fork_sig_sync.c: a run in which the child sends the signal before the parent waits.
use the_linux_programming_in.Prelude.{◌+◌, ◌≤◌, ◌≡◌, refl, ◌≢◌, ◌⊎◌, true, false}
use the_linux_programming_in.SigSync.{
  forked, got_signal, exited, killed, signalled, State, init, Step, block, install, fork, suspend,
  kill, interrupt, restore,
}
use the_linux_programming_in.SigSync.Laws.{signal_synchronises}
use the_linux_programming_in.Prelude.{Run, start, step}

abbrev early : State
early = record {
  parent = forked;
  child = signalled;
  blocked = true;
  handler = true;
  pending = true;
  caught = 0;
}

to_early : Run (Step false) (init false) 4 early
to_early = step (step (step (step start (block refl)) (install refl)) (fork refl)) (kill refl)

abbrev done : State
done = record {
  parent = exited;
  child = signalled;
  blocked = false;
  handler = true;
  pending = false;
  caught = 0 + 1;
}

to_done : Run (Step false) (init false) 7 done
to_done = step (step (step to_early (suspend refl)) (interrupt refl refl refl refl)) (restore refl)

signal_synchronises_example :
    ((7 ≤ 7) × (done.parent ≢ exited → (u : State) × Step false done u))
    × (done.parent ≢ killed)
    × (done.parent ≡ got_signal ⊎ done.parent ≡ exited
        → (done.child ≡ signalled) × (done.caught ≡ 1))
    × (done.parent ≡ exited → done.blocked ≡ false)
signal_synchronises_example = signal_synchronises false 7 done to_done
