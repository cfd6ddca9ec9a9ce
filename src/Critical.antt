-- ===== src/Critical.antt =====
-- chapter32/pthread_testcancel.c: criticalSectionThread, which is cancelled outside its critical
-- sections only. Here stand the states and the steps; the children hold the proofs. A failing call ends
-- the program, and has no step. `printf` in cleanup_handler is a point of cancellation too, when
-- pthread_cleanup_pop runs it; not when a cancellation runs it.
pub mod Laws
pub mod Progress
mod Tests
use the_linux_programming_in.Prelude.{
  ℕ, zero, suc, ◌+◌, ◌-◌, ◌*◌, ◌/◌, ◌%◌, ◌^◌, ◌≤◌, ◌<◌, ◌≡◌, refl, sym, ap, ◌∙◌, ◌≢◌, ◌↔◌, ◌⊎◌, inl,
  inr, Bool, true, false, ◌&&◌, ◌||◌, not, Option, none, some, List, [], ◌∷◌, ◌++◌, map,
  append_assoc, append-nil, arith, ltb, leb, ◌==◌, if◌then◌else◌, ltb→lt, lt→ltb, leb→le, ==_iff,
  Bool-cases, Option-cases, length, get_elem?, set, length-append, length-set, get_elem?-set_self,
  get_elem?-set_ne, get_or, take, drop, replicate, length-map, Bytes, bytes_eq, bytes_eq_refl,
  bytes_eq_sound, bytes_eq_ne,
}
use the_linux_programming_in.Prelude.{update}

-- Where the thread is; the numbers are the rounds that are done.
pub data Pc : Type 0 where
  starting : Pc
  allocated : Pc  -- `strdup` has returned, `pthread_cleanup_push` is not done
  before : ℕ → Pc  -- up to the first `pthread_testcancel` of a round
  entering : ℕ → Pc  -- after it
  inside : ℕ → Pc  -- cancellation is disabled
  leaving : ℕ → Pc  -- the work is done
  after : ℕ → Pc  -- the old state is set back, up to the second `pthread_testcancel`
  sleeping : ℕ → Pc
  popping : Pc  -- in the handler that `pthread_cleanup_pop` has taken off and runs, before its `free`
  freed : Pc  -- the handler has returned
  completed : Pc
  canceled : Pc

pub record State : Type 0 where
  pub pc : Pc
  pub enabled : Bool
  pub old_state : Bool  -- the state that the first `pthread_setcancelstate` has stored
  pub pending : Bool  -- whether `pthread_cancel` has been called
  pub pushed : Bool  -- whether cleanup_handler is on the stack
  pub allocs : ℕ  -- the calls of `strdup`, and of `free` in cleanup_handler
  pub frees : ℕ
  pub begun : ℕ  -- the critical sections that are begun, and those that are done
  pub done : ℕ
  pub handling : Bool  -- whether `pthread_cleanup_pop` runs the handler, and it has not come to `free`

-- `old_state` is not initialized.
abbrev pub init : Bool → State
init garbage = record {
  pc = starting;
  enabled = true;
  old_state = garbage;
  pending = false;
  pushed = false;
  allocs = 0;
  frees = 0;
  begun = 0;
  done = 0;
  handling = false;
}

-- Where a deferred cancellation can act, if cancellation is enabled: printf, sleep and
-- pthread_testcancel
abbrev pub CanCancel : Pc → Type 0
CanCancel allocated = ⊥
CanCancel completed = ⊥
CanCancel canceled = ⊥
CanCancel p = Unit

-- A step of the thread, or of the main thread that cancels it
pub data Step (s : State) : State → Type 0 where
  request : s.pending ≡ false → Step s (record s { pending = true })
  strdup : s.pc ≡ starting → Step s (record s { pc = allocated; allocs = s.allocs + 1 })
  push : s.pc ≡ allocated → Step s (record s { pc = before 0; pushed = true })
  test_before :
      (i : ℕ)
      → s.pc ≡ before i
      → i < 10
      → s.pending ≡ false ⊎ s.enabled ≡ false
      → Step s (record s { pc = entering i })
  disable :
      (i : ℕ)
      → s.pc ≡ entering i
      → Step s
          (record s { pc = inside i; old_state = s.enabled; enabled = false; begun = s.begun + 1 })
  work : (i : ℕ) → s.pc ≡ inside i → Step s (record s { pc = leaving i; done = s.done + 1 })
  restore : (i : ℕ) → s.pc ≡ leaving i → Step s (record s { pc = after i; enabled = s.old_state })
  test_after :
      (i : ℕ)
      → s.pc ≡ after i
      → s.pending ≡ false ⊎ s.enabled ≡ false
      → Step s (record s { pc = sleeping i })
  wake : (i : ℕ) → s.pc ≡ sleeping i → Step s (record s { pc = before (i + 1) })
  pop :
      (i : ℕ)
      → s.pc ≡ before i
      → 10 ≤ i
      → Step s (record s { pc = popping; pushed = false; handling = true })
  free : s.pc ≡ popping → Step s (record s { pc = freed; frees = s.frees + 1; handling = false })
  finish : s.pc ≡ freed → Step s (record s { pc = completed })
  cancel :
      s.enabled ≡ true
      → s.pending ≡ true
      → CanCancel s.pc
      → Step s (record s {
        pc = canceled;
        pushed = false;
        frees = if s.pushed then s.frees + 1 else s.frees;
      })
