-- ===== src/Sigchld/Invariant.antt =====
-- chapter26/multi_SIGCHLD.c: what holds in every state of the program.
use the_linux_programming_in.Prelude.{
  ℕ, ◌+◌, ◌≤◌, ◌<◌, ◌≡◌, refl, ◌⊎◌, inl, Bool, true, false, arith,
}
use the_linux_programming_in.Sigchld.{
  Pc, creating, suspended, reaping, returning, exited, State, init, Step, fork, all_created,
  child_exits, suspend, finish, deliver, reap, none_left, handler_returns,
}
use the_linux_programming_in.Prelude.{Run, start, step}

abbrev pub left : Pc → ℕ
left (creating n) = n
left _ = 0

abbrev pub one_if : Bool → ℕ
one_if true = 1
one_if false = 0

-- Whether the handler runs, and a signal is caught and not yet counted
abbrev pub caught : Pc → ℕ
caught reaping = 1
caught returning = 1
caught _ = 0

-- No zombie is overlooked: its signal is pending, unless the handler is about to look for it.
abbrev pub Noticed : State → Type 0
Noticed s = (s.zombies ≡ 0) ⊎ ((s.pending ≡ true) ⊎ (s.pc ≡ reaping))

-- The main program has left its loop only with no live child, and waits only for one.
abbrev pub Waits : State → Type 0
Waits s = (s.pc ≡ exited → s.num_live_children ≡ 0) × (s.pc ≡ suspended → 0 < s.num_live_children)

pub record IsValid (n : ℕ) (s : State) : Type 0 where
  pub live : s.num_live_children ≡ left s.pc + s.running + s.zombies
  pub caught_once : s.sig_cnt + caught s.pc + one_if s.pending + left s.pc + s.running ≤ n
  pub noticed : Noticed s
  pub waits : Waits s
  pub once : s.num_live_children < n → 0 < s.sig_cnt + caught s.pc

init-IsValid : (n : ℕ) → IsValid n (init n)
init-IsValid n = record {
  live = omega arith;
  caught_once = omega arith;
  noticed = inl refl;
  waits = (ground arith, ground arith);
  once = ground arith;
}

Step-IsValid : (n : ℕ) (s t : State) → IsValid n s → Step s t → IsValid n t
Step-IsValid n s t v (fork m e) = record {
  live = ground (arith, v.live);
  caught_once = ground (arith, v.caught_once);
  noticed = ground (arith, v.noticed);
  waits = (ground (arith, v.waits.0, v.live), ground (arith, v.waits.1, v.live));
  once = ground (arith, v.once);
}
Step-IsValid n s t v (all_created e) = record {
  live = ground (arith, v.live);
  caught_once = ground (arith, v.caught_once);
  noticed = ground (arith, v.noticed);
  waits = (ground (arith, v.waits.0, v.live), ground (arith, v.waits.1, v.live));
  once = ground (arith, v.once);
}
Step-IsValid n s t v (child_exits r e) = record {
  live = ground (arith, v.live);
  caught_once = ground (arith, v.caught_once);
  noticed = ground (arith, v.noticed);
  waits = (ground (arith, v.waits.0, v.live), ground (arith, v.waits.1, v.live));
  once = ground (arith, v.once);
}
Step-IsValid n s t v (suspend e l) = record {
  live = ground (arith, v.live);
  caught_once = ground (arith, v.caught_once);
  noticed = ground (arith, v.noticed);
  waits = (ground (arith, v.waits.0, v.live), ground (arith, v.waits.1, v.live));
  once = ground (arith, v.once);
}
Step-IsValid n s t v (finish e l) = record {
  live = ground (arith, v.live);
  caught_once = ground (arith, v.caught_once);
  noticed = ground (arith, v.noticed);
  waits = ((λ x. l), ground arith);
  once = ground (arith, v.once);
}
Step-IsValid n s t v (deliver e p) = record {
  live = ground (arith, v.live);
  caught_once = ground (arith, v.caught_once);
  noticed = ground (arith, v.noticed);
  waits = (ground (arith, v.waits.0, v.live), ground (arith, v.waits.1, v.live));
  once = ground (arith, v.once);
}
Step-IsValid n s t v (reap z e l) = record {
  live = ground (arith, v.live);
  caught_once = ground (arith, v.caught_once);
  noticed = ground (arith, v.noticed);
  waits = (ground (arith, v.waits.0, v.live), ground (arith, v.waits.1, v.live));
  once = ground (arith, v.once);
}
Step-IsValid n s t v (none_left e l) = record {
  live = ground (arith, v.live);
  caught_once = ground (arith, v.caught_once);
  noticed = ground (arith, v.noticed);
  waits = (ground (arith, v.waits.0, v.live), ground (arith, v.waits.1, v.live));
  once = ground (arith, v.once);
}
Step-IsValid n s t v (handler_returns e) = record {
  live = ground (arith, v.live);
  caught_once = ground (arith, v.caught_once);
  noticed = ground (arith, v.noticed);
  waits = (ground (arith, v.waits.0, v.live), ground (arith, v.waits.1, v.live));
  once = ground (arith, v.once);
}

pub Run-IsValid : (n k : ℕ) (s : State) → Run Step (init n) k s → IsValid n s
Run-IsValid n k s start = init-IsValid n
Run-IsValid n k s (step {t = t} r x) = Step-IsValid n t s (Run-IsValid n _ t r) x
