-- ===== src/Sigchld.antt =====
-- chapter26/multi_SIGCHLD.c: the main program makes children and waits in `sigsuspend` until its
-- handler of SIGCHLD has reaped them all. Here stand the state and its steps; the children hold the
-- proofs. SIGCHLD is blocked but for `sigsuspend`, and while the handler runs.
pub mod Invariant
pub mod Laws
mod Tests
use the_linux_programming_in.Prelude.{
  ℕ, zero, suc, ◌+◌, ◌-◌, ◌*◌, ◌/◌, ◌%◌, ◌^◌, ◌≤◌, ◌<◌, ◌≡◌, refl, sym, ap, ◌∙◌, ◌≢◌, ◌↔◌, ◌⊎◌, inl,
  inr, Bool, true, false, ◌&&◌, ◌||◌, not, Option, none, some, List, [], ◌∷◌, ◌++◌, map,
  append_assoc, append-nil, arith, ltb, leb, ◌==◌, if◌then◌else◌, ltb→lt, lt→ltb, leb→le, ==_iff,
  Bool-cases, Option-cases, length, get_elem?, set, length-append, length-set, get_elem?-set_self,
  get_elem?-set_ne, get_or, take, drop, replicate, length-map, Bytes, bytes_eq, bytes_eq_refl,
  bytes_eq_sound, bytes_eq_ne,
}

-- Where the main program is
pub data Pc : Type 0 where
  creating : ℕ → Pc  -- in the loop of `fork`, with so many children left to make
  testing : Pc  -- at the head of the loop that waits
  suspended : Pc  -- in `sigsuspend`
  reaping : Pc  -- in the handler, at `waitpid`
  returning : Pc  -- in the handler, after its loop
  exited : Pc

pub record State : Type 0 where
  pub pc : Pc
  pub running : ℕ  -- children that run
  pub zombies : ℕ  -- children that have ended and are not reaped
  pub pending : Bool  -- whether SIGCHLD is pending
  pub num_live_children : ℕ
  pub sig_cnt : ℕ

-- After the signal has been blocked, with n arguments
abbrev pub init : ℕ → State
init n = record {
  pc = creating n;
  running = 0;
  zombies = 0;
  pending = false;
  num_live_children = n;
  sig_cnt = 0;
}

-- A step of the main program or the end of a child; a call that fails ends the program, and has no
-- step.
pub data Step (s : State) : State → Type 0 where
  fork :
      (n : ℕ)
      → s.pc ≡ creating (suc n)
      → Step s (record s { pc = creating n; running = suc s.running })
  all_created : s.pc ≡ creating 0 → Step s (record s { pc = testing })
  child_exits :
      (r : ℕ)
      → s.running ≡ suc r
      → Step s (record s { running = r; zombies = suc s.zombies; pending = true })
  suspend : s.pc ≡ testing → 0 < s.num_live_children → Step s (record s { pc = suspended })
  finish : s.pc ≡ testing → s.num_live_children ≡ 0 → Step s (record s { pc = exited })
  deliver :
      s.pc ≡ suspended → s.pending ≡ true → Step s (record s { pc = reaping; pending = false })
  reap :
      (z : ℕ)
      → s.pc ≡ reaping
      → s.zombies ≡ suc z
      → Step s (record s { zombies = z; num_live_children = s.num_live_children - 1 })
  none_left : s.pc ≡ reaping → s.zombies ≡ 0 → Step s (record s { pc = returning })
  handler_returns : s.pc ≡ returning → Step s (record s { pc = testing; sig_cnt = suc s.sig_cnt })
