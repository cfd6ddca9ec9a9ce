-- ===== src/TestCancel.antt =====
-- chapter32/pthread_testcancel.c: testCancelThread, which asks for cancellations between its points of
-- cancellation, and noTestCancelThread, which does not. Here stand the states and the steps; the
-- children hold the proofs. A failing call ends the program, and has no step. `printf` in
-- cleanup_handler is a point of cancellation too, when pthread_cleanup_pop runs it; not when a
-- cancellation runs it.
pub mod Laws
pub mod Progress
mod Tests
use the_linux_programming_in.Prelude.{
  ℕ, zero, suc, ◌+◌, ◌-◌, ◌*◌, ◌/◌, ◌%◌, ◌^◌, ◌≤◌, ◌<◌, ◌≡◌, refl, sym, ap, ◌∙◌, ◌≢◌, ◌↔◌, ◌⊎◌, inl,
  inr, Bool, true, false, ◌&&◌, ◌||◌, not, Option, none, some, List, [], ◌∷◌, ◌++◌, map,
  append_assoc, append-nil, arith, ltb, leb, ◌==◌, if◌then◌else◌, ltb→lt, lt→ltb, leb→le, ==_iff,
  Bool-cases, Option-cases, length, get_elem?, set, length-append, length-set, get_elem?-set_self,
  get_elem?-set_ne, get_or, take, drop, replicate, length-map, Bytes, bytes_eq, bytes_eq_refl,
  bytes_eq_sound, bytes_eq_ne,
}

-- Where the thread is; the numbers are the rounds that are done.
pub data Pc : Type 0 where
  starting : Pc
  allocated : Pc  -- `strdup` has returned, `pthread_cleanup_push` is not done
  looping : ℕ → Pc  -- at the test of the loop
  computing : ℕ → Pc  -- its line is printed
  checking : ℕ → Pc  -- the work is done
  sleeping : ℕ → Pc  -- in `usleep`
  checking_again : ℕ → Pc
  popping : Pc  -- in the handler that `pthread_cleanup_pop` has taken off and runs, before its `free`
  popped : Pc  -- `pthread_cleanup_pop` has returned
  completed : Pc
  canceled : Pc

pub record State : Type 0 where
  pub pc : Pc
  pub pending : Bool  -- whether `pthread_cancel` has been called
  pub pushed : Bool  -- whether cleanup_handler is on the stack
  pub allocs : ℕ  -- the calls of `strdup`, and of `free` in cleanup_handler
  pub frees : ℕ
  pub handling : Bool  -- whether `pthread_cleanup_pop` runs the handler, and it has not come to `free`
  pub printed : ℕ  -- the lines of the rounds
  pub late : ℕ  -- those that are printed after the call of `pthread_cancel`

abbrev pub init : State
init = record {
  pc = starting;
  pending = false;
  pushed = false;
  allocs = 0;
  frees = 0;
  handling = false;
  printed = 0;
  late = 0;
}

-- Whether a round has the first and the second `pthread_testcancel`
abbrev pub first_check : Bool → ℕ → Bool
first_check checks i = checks && i % 3 == 0

abbrev pub second_check : Bool → ℕ → Bool
second_check checks i = checks && i % 5 == 0

-- Where a deferred cancellation can act: printf, usleep and pthread_testcancel
abbrev pub CanCancel : Bool → Pc → Type 0
CanCancel checks starting = Unit
CanCancel checks (looping i) = Unit
CanCancel checks (checking i) = first_check checks i ≡ true
CanCancel checks (sleeping i) = Unit
CanCancel checks (checking_again i) = second_check checks i ≡ true
CanCancel checks popping = Unit
CanCancel checks popped = Unit
CanCancel checks p = ⊥

-- A step of the thread, or of the main thread that cancels it; `checks` is true for testCancelThread.
-- A cancellation that is asked for acts in usleep and pthread_testcancel, and can act in printf.
pub data Step (checks : Bool) (s : State) : State → Type 0 where
  request : s.pending ≡ false → Step checks s (record s { pending = true })
  strdup : s.pc ≡ starting → Step checks s (record s { pc = allocated; allocs = s.allocs + 1 })
  push : s.pc ≡ allocated → Step checks s (record s { pc = looping 0; pushed = true })
  print :
      (i : ℕ)
      → s.pc ≡ looping i
      → i < 20
      → Step checks s (record s {
        pc = computing i;
        printed = s.printed + 1;
        late = if s.pending then s.late + 1 else s.late;
      })
  compute : (i : ℕ) → s.pc ≡ computing i → Step checks s (record s { pc = checking i })
  check :
      (i : ℕ)
      → s.pc ≡ checking i
      → first_check checks i ≡ false ⊎ s.pending ≡ false
      → Step checks s (record s { pc = sleeping i })
  wake :
      (i : ℕ)
      → s.pc ≡ sleeping i
      → s.pending ≡ false
      → Step checks s (record s { pc = checking_again i })
  check_again :
      (i : ℕ)
      → s.pc ≡ checking_again i
      → second_check checks i ≡ false ⊎ s.pending ≡ false
      → Step checks s (record s { pc = looping (i + 1) })
  pop :
      (i : ℕ)
      → s.pc ≡ looping i
      → 20 ≤ i
      → Step checks s (record s { pc = popping; pushed = false; handling = true })
  free :
      s.pc ≡ popping
      → Step checks s (record s { pc = popped; frees = s.frees + 1; handling = false })
  complete : s.pc ≡ popped → Step checks s (record s { pc = completed })
  cancel :
      s.pending ≡ true
      → CanCancel checks s.pc
      → Step checks s (record s {
        pc = canceled;
        pushed = false;
        frees = if s.pushed then s.frees + 1 else s.frees;
      })
