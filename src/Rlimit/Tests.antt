-- ===== src/Rlimit/Tests.antt =====
-- chapter36/rlimit.c: a process with three descriptors in use, whose limit is lowered to 5.
use the_linux_programming_in.Prelude.{
  ℕ, ◌+◌, ◌-◌, ◌/◌, ◌^◌, ◌≡◌, refl, true, none, some, List, [], ◌∷◌, ◌++◌, ltb, if◌then◌else◌,
  length, replicate,
}
use the_linux_programming_in.Prelude.{filterb}
use the_linux_programming_in.Rlimit.{
  Rlimit, Kernel, halved, finished, test_files, open_loop, close_loop, nofile, Line, MainCalls,
  display_rlimit, all_lines, reported, main,
}
use the_linux_programming_in.Rlimit.Laws.{opened_fds, stray}
use the_linux_programming_in.Rlimit.Reports.{shows_nofile, main-reported}

abbrev kernel : Kernel
kernel = record {
  get_ok = true;
  set_ok = true;
  show_ok = true;
  calloc_ok = true;
  opens = λ j. if ltb j 2 then some (j + 3) else none;
  restore_ok = true;
}

abbrev limits_before : Rlimit
limits_before = record { rlim_cur = 10; rlim_max = 10 }

test_runs : test_files kernel limits_before ≡ finished limits_before 2 (3 ∷ 4 ∷ replicate 12 0)
unfolding test_files open_loop close_loop
test_runs = refl

abbrev calls : MainCalls
calls = record {
  infinity = 2 ^ 64 - 1;
  limit = λ r. limits_before;
  get_ok = λ r. true;
  files = kernel;
  show_restored_ok = true;
  fork_ok = true;
  child_set_ok = true;
  child_show_ok = true;
  cpu_signal = 24;
  wait_ok = true;
}

main_runs :
    main calls ≡ reported limits_before 2 (3 ∷ 4 ∷ replicate 12 0) (all_lines calls limits_before 2)
unfolding main test_files open_loop close_loop
main_runs = refl

main-reported_example :
    (count : ℕ) × (closed : List ℕ) × (lines : List Line) × (main calls
      ≡ reported limits_before count closed lines)
    × (filterb shows_nofile lines
        ≡ display_rlimit calls nofile limits_before
          ∷ display_rlimit calls nofile (halved limits_before)
          ∷ display_rlimit calls nofile limits_before
          ∷ [])
    × (count ≡ length (opened_fds kernel.opens 0 (limits_before.rlim_max / 2 + 10)))
    × (closed
        ≡ opened_fds kernel.opens 0 (limits_before.rlim_max / 2 + 10)
          ++ stray count (limits_before.rlim_max / 2 + 10))
main-reported_example = main-reported calls refl
