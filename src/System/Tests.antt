-- ===== src/System/Tests.antt =====
-- chapter27/system.c: runs, and the theorems at a caller with a handler of its own for SIGINT.
use the_linux_programming_in.Prelude.{◌≡◌, refl, none, some, [], ◌∷◌, ◌==◌, Bytes}
use the_linux_programming_in.Prelude.Int.{pos, negsuc}
use the_linux_programming_in.System.{
  custom, Process, interrupted, ended, Kernel, eintr, empty_set, sa_ignore, guarded, wait_loop,
  restore, run_command, system,
}
use the_linux_programming_in.System.Signals.{
  command_status, SameSignals, reported, returned, system-SameSignals, system-command_status,
}

abbrev caller : Process
caller = record {
  int_action = record { handler = custom 7; flags = 1; mask = empty_set };
  quit_action = sa_ignore;
  blocked = λ s. s == 10;
  errno = 0;
}

-- `waitpid` is interrupted once and then reports an exit with code 1.
abbrev kernel : Kernel
kernel = record { fork_error = none; waits = interrupted ∷ ended (pos 256) ∷ []; stray_errno = 5 }

abbrev ls : Bytes
ls = b'l' ∷ b's' ∷ []

abbrev after : Process
after = record caller { errno = eintr }

system_runs : system kernel caller (some ls) ≡ some (pos 256, after)
unfolding system run_command restore guarded wait_loop
system_runs = refl

no_child :
    returned (system (record kernel { fork_error = some 11 }) caller (some ls)) ≡ some (negsuc 0)
unfolding system run_command restore guarded wait_loop
no_child = refl

no_shell : returned (system kernel caller none) ≡ some (pos 0)
unfolding system run_command restore guarded wait_loop
no_shell = refl

system-SameSignals_example : SameSignals after caller
system-SameSignals_example = system-SameSignals kernel caller (some ls) (pos 256) after system_runs

system-command_status_example :
    returned (system kernel caller none)
    ≡ elim (command_status kernel) [ none ↦ none | some s ↦ some (reported none s) ]
system-command_status_example = system-command_status kernel caller none
