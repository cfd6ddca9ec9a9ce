-- ===== src/Sigchld/Tests.antt =====
-- chapter26/multi_SIGCHLD.c: a run with two children that end while one signal is pending.
use the_linux_programming_in.Prelude.{◌+◌, ◌*◌, ◌≤◌, ◌<◌, ◌≡◌, refl, ◌≢◌, arith}
use the_linux_programming_in.Sigchld.{
  suspended, exited, State, init, Step, fork, all_created, child_exits, suspend, finish, deliver,
  reap, none_left, handler_returns,
}
use the_linux_programming_in.Sigchld.Laws.{all_reaped}
use the_linux_programming_in.Prelude.{Run, start, step}

abbrev waiting : State
waiting = record (init 2) { pc = suspended; running = 2 }

to_waiting : Run Step (init 2) 4 waiting
to_waiting =
    step (step (step (step start (fork 1 refl)) (fork 0 refl)) (all_created refl))
      (suspend refl (omega arith))

abbrev done : State
done = record (init 2) { pc = exited; num_live_children = 0; sig_cnt = 1 }

to_done : Run Step (init 2) 12 done
to_done =
    let ended = step (step to_waiting (child_exits 1 refl)) (child_exits 0 refl) in
    let reaped =
      step (step (step ended (deliver refl refl)) (reap 1 refl refl)) (reap 0 refl refl) in
    step (step (step reaped (none_left refl refl)) (handler_returns refl)) (finish refl refl)

all_reaped_example :
    ((12 ≤ 10 * 2 + 4) × (done.pc ≢ exited → (t : State) × Step done t))
    × (done.pc ≡ exited
        → (done.running ≡ 0)
          × (done.zombies ≡ 0)
          × (done.num_live_children ≡ 0)
          × (done.sig_cnt ≤ 2)
          × (0 < 2 → 0 < done.sig_cnt))
all_reaped_example = all_reaped 2 12 done to_done
