-- ===== src/Tls/Tests.antt =====
-- chapter31/tls.c: a run in which the main thread has made the thread A, which waits for the mutex.
use the_linux_programming_in.Prelude.{ℕ, ◌+◌, ◌≤◌, ◌<◌, ◌≡◌, refl, ◌≢◌, some, [], ◌∷◌, arith}
use the_linux_programming_in.Prelude.{Run, start, step}
use the_linux_programming_in.Prelude.{update}
use the_linux_programming_in.Tls.{
  creating, finished, Pc, started, introduced, looping, added, locking, ended, value, text, State,
  init, Step, main_sets, main_shows, create, assign, show_first, show_text, add, show_value,
}
use the_linux_programming_in.Tls.Order.{globals, count_up}
use the_linux_programming_in.Tls.Locals.{values, OwnTexts}
use the_linux_programming_in.Tls.Laws.{all_values, printed_in_order}

abbrev waiting : State
waiting = record init {
  main = creating (1 + 1);
  thread =
      update
        (update
          (update (update (update (update init.thread 1 started) 1 Pc.assigned) 1 introduced) 1
            (looping 0))
          1 (added 0))
        1 (locking 0);
  tls_var = update (update (update init.tls_var 0 999) 1 100) 1 (100 + 10);
  tls_buffer = update (update init.tls_buffer 0 (some 0)) 1 (some 1);
  output = value 1 110 ∷ text 1 (some 1) ∷ value 1 100 ∷ text 0 (some 0) ∷ value 0 999 ∷ [];
}

to_waiting : Run Step init 8 waiting
to_waiting =
    step
      (step
        (step
          (step
            (step
              (step (step (step start (main_sets refl)) (main_shows refl))
                (create 1 refl (omega arith)))
              (assign 1 refl))
            (show_first 1 refl))
          (show_text 1 refl))
        (add 1 0 refl (omega arith)))
      (show_value 1 0 refl)

printed_in_order_example :
    ((8 ≤ 131) × (waiting.main ≢ finished → (u : State) × Step waiting u))
    × ((n : ℕ) × (globals waiting.output ≡ count_up n))
    × OwnTexts waiting.output
    × ((t : ℕ) → waiting.thread t ≡ ended → values t waiting.output ≡ all_values)
    × (waiting.main ≡ finished
        → ((t : ℕ) → 0 < t → t < 4 → waiting.thread t ≡ ended)
          × (globals waiting.output ≡ count_up 15)
          × (waiting.global_var ≡ 15)
          × (values 0 waiting.output ≡ 999 ∷ 1049 ∷ 1049 ∷ []))
printed_in_order_example = printed_in_order 8 waiting to_waiting
