-- ===== src/PipeSync.antt =====
-- chapter44/pipe_sync.c: a parent waits at the end of file of a pipe until its children have done their
-- work. Here stand the states and the steps; the children hold the proofs. A failing call ends the
-- program, and has no step; nothing is ever written to the pipe.
pub mod Invariant
pub mod Laws
mod Tests
use the_linux_programming_in.Prelude.{
  ℕ, zero, suc, ◌+◌, ◌-◌, ◌*◌, ◌/◌, ◌%◌, ◌^◌, ◌≤◌, ◌<◌, ◌≡◌, refl, sym, ap, ◌∙◌, ◌≢◌, ◌↔◌, ◌⊎◌, inl,
  inr, Bool, true, false, ◌&&◌, ◌||◌, not, Option, none, some, List, [], ◌∷◌, ◌++◌, map,
  append_assoc, append-nil, arith, ltb, leb, ◌==◌, if◌then◌else◌, ltb→lt, lt→ltb, leb→le, ==_iff,
  Bool-cases, Option-cases, length, get_elem?, set, length-append, length-set, get_elem?-set_self,
  get_elem?-set_ne, get_or, take, drop, replicate, length-map, Bytes, bytes_eq, bytes_eq_refl,
  bytes_eq_sound, bytes_eq_ne,
}
use the_linux_programming_in.Prelude.{
  update, sum_below, sum_below_change, sum_below-eq-zero, le-sum_below, sum_below_ones,
  sum_below_pos, sum_below_ext,
}

-- `NUM_CHILDREN`; the model takes any number.
abbrev pub num_children : ℕ
num_children = 3

pub data Child : Type 0 where
  absent : Child  -- not made yet
  working : Child  -- its copy of the write end is open
  closed : Child  -- it has closed its ends
  zombie : Child
  reaped : Child

pub data Pc : Type 0 where
  forking : Pc  -- in the loop of `fork`
  reading : Pc  -- its write end is closed, at `read`
  reaping : Pc  -- in the loop of `waitpid`
  done : Pc

pub record State : Type 0 where
  pub pc : Pc
  pub i : ℕ
  pub child : ℕ → Child
  pub write_ends : ℕ  -- the descriptors of the write end that are open, in all processes

abbrev pub init : State
init = record { pc = forking; i = 0; child = λ j. absent; write_ends = 1 }

-- A step of the parent or of a child, with n children. `read` waits while the pipe has an open write
-- end, and `fork` gives the child a copy of the parent's.
pub data Step (n : ℕ) (s : State) : State → Type 0 where
  fork :
      s.pc ≡ forking
      → s.i < n
      → Step n s (record s {
        i = s.i + 1;
        child = update s.child s.i working;
        write_ends = s.write_ends + 1;
      })
  close_own :
      s.pc ≡ forking → n ≤ s.i → Step n s (record s { pc = reading; write_ends = s.write_ends - 1 })
  child_closes :
      (j : ℕ)
      → s.child j ≡ working
      → Step n s (record s { child = update s.child j closed; write_ends = s.write_ends - 1 })
  child_exits :
      (j : ℕ) → s.child j ≡ closed → Step n s (record s { child = update s.child j zombie })
  end_of_file : s.pc ≡ reading → s.write_ends ≡ 0 → Step n s (record s { pc = reaping; i = 0 })
  reap :
      s.pc ≡ reaping
      → s.i < n
      → s.child s.i ≡ zombie
      → Step n s (record s { i = s.i + 1; child = update s.child s.i reaped })
  finish : s.pc ≡ reaping → n ≤ s.i → Step n s (record s { pc = done })
