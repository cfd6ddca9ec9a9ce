-- ===== src/SigWait/Tests.antt =====
-- chapter32/pthread_signal.c: a run up to the SIGTERM for the waiter, and its end.
use the_linux_programming_in.Prelude.{◌+◌, ◌≤◌, ◌≡◌, refl, ◌≢◌, ◌⊎◌, inl, true, false, arith}
use the_linux_programming_in.SigWait.{
  usr1, usr2, int, term, to_sender, to_waiter, to_process, joining_waiter, finished, WaiterPc,
  waiting, SenderPc, State, init, mark, Step, block, handle_int, make_waiter, make_sender,
  send_usr1, send_usr2, send_int, sender_ends, kill_waiter, call_handler, default_action,
}
use the_linux_programming_in.SigWait.Laws.{waiter_gets_nothing}
use the_linux_programming_in.SigWait.Progress.{process_killed}
use the_linux_programming_in.Prelude.{Run, start, step}

abbrev asked : State
asked = record {
  main = joining_waiter;
  waiter = waiting;
  sender = SenderPc.ended;
  blocked = true;
  waiter_blocked = true;
  sender_blocked = true;
  int_handled = true;
  pending = mark to_waiter term true (
      mark to_sender usr1 false (
        mark to_sender usr2 false (
          mark to_process int false (
            mark to_process int true
              (mark to_sender usr2 true (mark to_sender usr1 true init.pending))))));
  handler_calls = 0 + 1;
  killed = false;
}

to_asked : Run Step init 10 asked
to_asked =
    step
      (step
        (step
          (step
            (step
              (step
                (step
                  (step (step (step start (block refl refl)) (handle_int refl refl))
                    (make_waiter refl refl))
                  (make_sender refl refl))
                (send_usr1 refl refl))
              (send_usr2 refl refl))
            (send_int refl refl))
          (call_handler refl refl refl))
        (sender_ends refl refl))
      (kill_waiter refl refl refl)

abbrev dead : State
dead = record asked { killed = true }

to_dead : Run Step init 11 dead
to_dead = step to_asked (default_action to_waiter term refl refl refl (inl (ground arith)))

waiter_gets_nothing_example :
    (dead.waiter ≡ WaiterPc.absent ⊎ dead.waiter ≡ waiting)
    × (dead.main ≢ finished)
    × (dead.killed ≡ true → (dead.main ≡ joining_waiter) × (dead.sender ≡ SenderPc.ended))
waiter_gets_nothing_example = waiter_gets_nothing 11 dead to_dead

process_killed_example : (10 ≤ 11) × (asked.killed ≡ false → (u : State) × Step asked u)
process_killed_example = process_killed 10 asked to_asked
