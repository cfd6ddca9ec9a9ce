-- ===== src/Sigchld/Laws.antt =====
-- chapter26/multi_SIGCHLD.c: the end of the main program, and how far it can be.
use the_linux_programming_in.Prelude.{
  ℕ, zero, suc, ◌+◌, ◌-◌, ◌*◌, ◌≤◌, ◌<◌, ◌≡◌, refl, ◌≢◌, inl, inr, false, arith, ◌==◌, Bool-cases,
}
use the_linux_programming_in.Sigchld.{
  Pc, creating, testing, suspended, reaping, returning, exited, State, init, Step, fork,
  all_created, child_exits, suspend, finish, deliver, reap, none_left, handler_returns,
}
use the_linux_programming_in.Sigchld.Invariant.{left, one_if, IsValid, Run-IsValid}
use the_linux_programming_in.Prelude.{Run, start, step}

-- In every run with n children, when the main program has left its loop, all n children have been
-- made and reaped, and SIGCHLD has been caught at least once, if n is not 0, and at most n times.
pub exited_reaped :
    (n k : ℕ) (s : State)
    → Run Step (init n) k s
    → s.pc ≡ exited
    → (s.running ≡ 0)
      × (s.zombies ≡ 0)
      × (s.num_live_children ≡ 0)
      × (s.sig_cnt ≤ n)
      × (0 < n → 0 < s.sig_cnt)
exited_reaped n k s r e =
    let v = Run-IsValid n k s r in
    (
      ground (arith, v.live, v.waits.0),
      ground (arith, v.live, v.waits.0),
      v.waits.0 e,
      ground (arith, v.caught_once),
      ground (arith, v.once, v.waits.0),
    )

abbrev weight : Pc → ℕ
weight (creating n) = 4
weight testing = 3
weight suspended = 2
weight reaping = 5
weight returning = 4
weight exited = 0

-- The steps that can still come are at most so many.
abbrev pub measure : State → ℕ
measure s = 10 * left s.pc + 9 * s.running + s.zombies + 5 * one_if s.pending + weight s.pc

Step-measure : (s t : State) → Step s t → measure t < measure s
Step-measure s t (fork m e) = ground arith
Step-measure s t (all_created e) = ground arith
Step-measure s t (child_exits r e) = ground arith
Step-measure s t (suspend e l) = ground arith
Step-measure s t (finish e l) = ground arith
Step-measure s t (deliver e p) = ground arith
Step-measure s t (reap z e l) = ground arith
Step-measure s t (none_left e l) = ground arith
Step-measure s t (handler_returns e) = ground arith

Run-measure : (n k : ℕ) (s : State) → Run Step (init n) k s → measure s + k ≤ 10 * n + 4
Run-measure n k s start = omega arith
Run-measure n k s (step {t = t} r x) = omega (arith, Run-measure n _ t r, Step-measure t s x)

-- In `sigsuspend` with no signal pending, some child is yet to end.
still_running :
    (n : ℕ) (s : State) → IsValid n s → s.pc ≡ suspended → s.pending ≡ false → 0 < s.running
still_running n s v e p = ground (arith, v.live, v.noticed, v.waits.1)

progress_from :
    (n : ℕ) (s : State) (pc : Pc) → s.pc ≡ pc → IsValid n s → pc ≢ exited → (t : State) × Step s t
progress_from n s (creating zero) e v h = (_, all_created e)
progress_from n s (creating (suc m)) e v h = (_, fork m e)
progress_from n s testing e v h = elim (Bool-cases (s.num_live_children == 0)) [
  | inl z ↦ (_, finish e (ground arith))
  | inr z ↦ (_, suspend e (ground arith))
]
progress_from n s suspended e v h = elim (Bool-cases s.pending) [
  | inl p ↦ (_, deliver e p)
  | inr p ↦ (_, child_exits (s.running - 1) (omega (arith, still_running n s v e p)))
]
progress_from n s reaping e v h = elim (Bool-cases (s.zombies == 0)) [
  | inl z ↦ (_, none_left e (ground arith))
  | inr z ↦ (_, reap (s.zombies - 1) e (ground arith))
]
progress_from n s returning e v h = (_, handler_returns e)
progress_from n s exited e v h = absurd (h refl)

-- In every run with n children the main program comes to the end of its loop: until it has left it,
-- some step is possible, and no run has more than 10 * n + 4 steps.
pub main_ends :
    (n k : ℕ) (s : State)
    → Run Step (init n) k s
    → (k ≤ 10 * n + 4) × (s.pc ≢ exited → (t : State) × Step s t)
main_ends n k s r =
    (omega (arith, Run-measure n k s r), progress_from n s s.pc refl (Run-IsValid n k s r))

-- In every run with n children the main program comes to the end of its loop: until it has left it,
-- some step is possible, and no run has more than 10 * n + 4 steps. When it has left it, all n children
-- have been made and reaped, and SIGCHLD has been caught at least once, if n is not 0, and at most n
-- times.
pub all_reaped :
    (n k : ℕ) (s : State)
    → Run Step (init n) k s
    → ((k ≤ 10 * n + 4) × (s.pc ≢ exited → (t : State) × Step s t))
      × (s.pc ≡ exited
          → (s.running ≡ 0)
            × (s.zombies ≡ 0)
            × (s.num_live_children ≡ 0)
            × (s.sig_cnt ≤ n)
            × (0 < n → 0 < s.sig_cnt))
all_reaped n k s r = (main_ends n k s r, exited_reaped n k s r)
