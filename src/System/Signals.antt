-- ===== src/System/Signals.antt =====
-- chapter27/system.c: the signals of the caller and of the command, and the status.
use the_linux_programming_in.Prelude.{
  ℕ, ◌≡◌, refl, inl, inr, Option, none, some, List, [], ◌∷◌, arith, if◌then◌else◌, Option-cases,
  Bytes,
}
use the_linux_programming_in.Prelude.Int.{ℤ, pos, negsuc}
use the_linux_programming_in.System.{
  Process, Wait, interrupted, failed, ended, Kernel, eintr, sa_ignore, sa_default, guarded,
  is_ignored, Exec, child, wait_loop, restore, run_command, spawned, is_zero, system,
}

-- The first return of `waitpid` that is no interruption
abbrev pub settled : List Wait → Option Wait
settled [] = none
settled (interrupted ∷ ws) = settled ws
settled (failed e ∷ ws) = some (failed e)
settled (ended s ∷ ws) = some (ended s)

abbrev pub status_of : Wait → ℤ
status_of interrupted = negsuc 0
status_of (failed e) = negsuc 0
status_of (ended s) = s

-- The status of a command: -1 without a child or when waiting fails, else what the child ended with
abbrev pub command_status : Kernel → Option ℤ
command_status k = elim k.fork_error [
  | some e ↦ some (negsuc 0)
  | none ↦ elim (settled k.waits) [ none ↦ none | some w ↦ some (status_of w) ]
]

abbrev pub status_part : Option (ℤ × ℕ) → Option ℤ
status_part none = none
status_part (some (s, e)) = some s

wait_loop-settled :
    (ws : List Wait) (errno : ℕ)
    → status_part (wait_loop ws errno)
      ≡ elim (settled ws) [ none ↦ none | some w ↦ some (status_of w) ]
unfolding wait_loop
wait_loop-settled [] errno = refl
wait_loop-settled (interrupted ∷ ws) errno = wait_loop-settled ws eintr
wait_loop-settled (failed e ∷ ws) errno = refl
wait_loop-settled (ended s ∷ ws) errno = refl

-- Same signal state: the two actions and the mask
pub record SameSignals (p q : Process) : Type 0 where
  pub same_int : p.int_action ≡ q.int_action
  pub same_quit : p.quit_action ≡ q.quit_action
  pub same_blocked : p.blocked ≡ q.blocked

-- What `system` reports for a status
abbrev pub reported : Option Bytes → ℤ → ℤ
reported (some command) status = status
reported none status = if is_zero status then pos 1 else pos 0

-- Whenever `system` returns, on every path, the actions of SIGINT and SIGQUIT and the mask are those
-- from before the call.
pub system-SameSignals :
    (k : Kernel) (p : Process) (command : Option Bytes) (status : ℤ) (q : Process)
    → system k p command ≡ some (status, q)
    → SameSignals q p
unfolding system run_command restore guarded
system-SameSignals k p none status q e = record {
  same_int = ground arith;
  same_quit = ground arith;
  same_blocked = ground arith;
}
system-SameSignals k p (some c) status q e = record {
  same_int = ground arith;
  same_quit = ground arith;
  same_blocked = ground arith;
}

abbrev pub returned : Option (ℤ × Process) → Option ℤ
returned none = none
returned (some (s, p)) = some s

-- `system` of a command returns its status, and `system` of NULL returns 1 or 0 by whether the status
-- of ":" is 0; interruptions of `waitpid` change nothing. It goes on waiting exactly as long as the
-- child has been made and every return of `waitpid` was an interruption.
pub system-command_status :
    (k : Kernel) (p : Process) (command : Option Bytes)
    → returned (system k p command)
      ≡ elim (command_status k) [ none ↦ none | some s ↦ some (reported command s) ]
unfolding system run_command restore
system-command_status k p (some c) = elim (Option-cases (wait_loop k.waits (guarded p).errno)) [
  | inl e ↦ ground (arith, wait_loop-settled k.waits (guarded p).errno)
  | inr (r, e) ↦ ground (arith, wait_loop-settled k.waits (guarded p).errno)
]
system-command_status k p none = elim (Option-cases (wait_loop k.waits (guarded p).errno)) [
  | inl e ↦ ground (arith, wait_loop-settled k.waits (guarded p).errno)
  | inr (r, e) ↦ ground (arith, wait_loop-settled k.waits (guarded p).errno)
]

-- The command runs with the mask of the caller, and with SIGINT and SIGQUIT ignored where the caller
-- ignores them and at their default where it does not, whatever the caller's handlers are.
pub spawned-signals :
    (k : Kernel) (p : Process) (command : Bytes) (x : Exec)
    → spawned k p command ≡ some x
    → (x.command ≡ command)
      × (x.process.blocked ≡ p.blocked)
      × (x.process.int_action ≡ (if is_ignored p.int_action then sa_ignore else sa_default))
      × (x.process.quit_action ≡ (if is_ignored p.quit_action then sa_ignore else sa_default))
unfolding spawned child guarded
spawned-signals k p command x e = ground arith
