-- ===== src/System.antt =====
-- chapter27/system.c: `system`, with the signals that it ignores and blocks while the command runs.
-- Here stand the data and the code; the children hold the proofs.
pub mod Signals
mod Tests
use the_linux_programming_in.Prelude.{
  ℕ, zero, suc, ◌+◌, ◌-◌, ◌*◌, ◌/◌, ◌%◌, ◌^◌, ◌≤◌, ◌<◌, ◌≡◌, refl, sym, ap, ◌∙◌, ◌≢◌, ◌↔◌, ◌⊎◌, inl,
  inr, Bool, true, false, ◌&&◌, ◌||◌, not, Option, none, some, List, [], ◌∷◌, ◌++◌, map,
  append_assoc, append-nil, arith, ltb, leb, ◌==◌, if◌then◌else◌, ltb→lt, lt→ltb, leb→le, ==_iff,
  Bool-cases, Option-cases, length, get_elem?, set, length-append, length-set, get_elem?-set_self,
  get_elem?-set_ne, get_or, take, drop, replicate, length-map, Bytes, bytes_eq, bytes_eq_refl,
  bytes_eq_sound, bytes_eq_ne,
}
use the_linux_programming_in.Prelude.Int.{ℤ, pos, negsuc}

pub data Handler : Type 0 where
  ignore default : Handler
  custom : ℕ → Handler

-- A set of signals
abbrev pub SigSet : Type 0
SigSet = ℕ → Bool

-- `struct sigaction`
pub record Action : Type 0 where
  pub handler : Handler
  pub flags : ℕ
  pub mask : SigSet

-- What the code changes in a process: the actions of SIGINT and SIGQUIT, the mask of blocked signals
-- and `errno`
pub record Process : Type 0 where
  pub int_action : Action
  pub quit_action : Action
  pub blocked : SigSet
  pub errno : ℕ

-- One return of `waitpid`: -1 with EINTR, -1 with another error, or the child's status
pub data Wait : Type 0 where
  interrupted : Wait
  failed : ℕ → Wait
  ended : ℤ → Wait

-- What the calls return: whether `fork` succeeds, with its error if not, the returns of `waitpid` in
-- the parent, and what the calls that succeed at the end leave in `errno`.
pub record Kernel : Type 0 where
  pub fork_error : Option ℕ
  pub waits : List Wait
  pub stray_errno : ℕ

abbrev pub sigchld : ℕ
sigchld = 17

abbrev pub eintr : ℕ
eintr = 4

abbrev pub empty_set : SigSet
empty_set s = false

abbrev pub sa_ignore : Action
sa_ignore = record { handler = ignore; flags = 0; mask = empty_set }

abbrev pub sa_default : Action
sa_default = record { handler = default; flags = 0; mask = empty_set }

-- Lines 17 to 25: SIGCHLD is blocked, SIGINT and SIGQUIT are ignored.
unfoldable pub guarded : Process → Process
guarded p = record p {
  int_action = sa_ignore;
  quit_action = sa_ignore;
  blocked = λ s. p.blocked s || s == sigchld;
}

abbrev pub is_ignored : Action → Bool
is_ignored a = elim a.handler [ ignore ↦ true | _ ↦ false ]

-- What the child is at its `execl`, and the command that it runs
pub record Exec : Type 0 where
  pub process : Process
  pub command : Bytes

-- The child, from the state that it has from its parent, with what `system` has saved
unfoldable pub child : Action → Action → SigSet → Process → Bytes → Exec
child orig_int orig_quit orig_mask p command = record {
  process = record p {
    int_action = if not (is_ignored orig_int) then sa_default else p.int_action;
    quit_action = if not (is_ignored orig_quit) then sa_default else p.quit_action;
    blocked = orig_mask;
  };
  command = command;
}

-- The loop over `waitpid`: the status and `errno` after it; none while the parent still waits.
unfoldable pub wait_loop : List Wait → ℕ → Option (ℤ × ℕ)
wait_loop [] errno = none
wait_loop (interrupted ∷ ws) errno = wait_loop ws eintr
wait_loop (failed e ∷ ws) errno = some (negsuc 0, e)
wait_loop (ended status ∷ ws) errno = some (status, errno)

-- Lines 59 to 66: what was saved is put back.
unfoldable pub restore : Kernel → Action → Action → SigSet → ℤ × ℕ → Process → ℤ × Process
restore k orig_int orig_quit orig_mask (status, errno) p =
    let saved_errno = errno in
    let stray : Process = record p {
      int_action = orig_int;
      quit_action = orig_quit;
      blocked = orig_mask;
      errno = k.stray_errno;
    } in
    (status, record stray { errno = saved_errno })

-- `system` of a command, in the parent: the status and the process when it returns
unfoldable pub run_command : Kernel → Process → Bytes → Option (ℤ × Process)
run_command k p command =
    let q = guarded p in
    let finish = λ (r : ℤ × ℕ). some (restore k p.int_action p.quit_action p.blocked r q) in
    elim k.fork_error [
      | some e ↦ finish (negsuc 0, e)
      | none ↦ elim (wait_loop k.waits q.errno) [ none ↦ none | some r ↦ finish r ]
    ]

-- The child of `run_command`, if `fork` makes one
unfoldable pub spawned : Kernel → Process → Bytes → Option Exec
spawned k p command = elim k.fork_error [
  | some e ↦ none
  | none ↦ some (child p.int_action p.quit_action p.blocked (guarded p) command)
]

-- ":"
abbrev pub colon : Bytes
colon = b':' ∷ []

abbrev pub is_zero : ℤ → Bool
is_zero (pos n) = n == 0
is_zero (negsuc n) = false

-- `system`; the command is none for NULL.
unfoldable pub system : Kernel → Process → Option Bytes → Option (ℤ × Process)
system k p (some command) = run_command k p command
system k p none = elim (run_command k p colon) [
  | none ↦ none
  | some (status, q) ↦ some (if is_zero status then pos 1 else pos 0, q)
]
