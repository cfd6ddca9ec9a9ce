-- ===== src/Cancel.antt =====
-- chapter32/thread_cancel.c: three threads that are cancelled, each with its own state of cancellation.
-- Here stand the states and the steps of one thread; the children hold the proofs. A failing call ends
-- the program, and has no step. `printf` in the handler is a point of cancellation too, when
-- pthread_cleanup_pop runs it; not when a cancellation runs it.
pub mod Laws
pub mod Progress
mod Tests
use the_linux_programming_in.Prelude.{
  ℕ, zero, suc, ◌+◌, ◌-◌, ◌*◌, ◌/◌, ◌%◌, ◌^◌, ◌≤◌, ◌<◌, ◌≡◌, refl, sym, ap, ◌∙◌, ◌≢◌, ◌↔◌, ◌⊎◌, inl,
  inr, Bool, true, false, ◌&&◌, ◌||◌, not, Option, none, some, List, [], ◌∷◌, ◌++◌, map,
  append_assoc, append-nil, arith, ltb, leb, ◌==◌, if◌then◌else◌, ltb→lt, lt→ltb, leb→le, ==_iff,
  Bool-cases, Option-cases, length, get_elem?, set, length-append, length-set, get_elem?-set_self,
  get_elem?-set_ne, get_or, take, drop, replicate, length-map, Bytes, bytes_eq, bytes_eq_refl,
  bytes_eq_sound, bytes_eq_ne,
}
use the_linux_programming_in.Prelude.{update}

-- asyncCancelThread, deferredCancelThread and disabledCancelThread
pub data Kind : Type 0 where
  asynchronous deferred disabled : Kind

-- Where the thread is; the numbers are the rounds of the loop that are done.
pub data Pc : Type 0 where
  starting : Pc
  ready : Pc  -- the state of cancellation is set
  allocated : Pc  -- `strdup` has returned, `pthread_cleanup_push` is not done
  shielded : ℕ → Pc  -- the loop of disabledCancelThread with cancellation disabled
  working : ℕ → Pc  -- the loop after it, or that of the other threads, up to `pthread_testcancel`
  sleeping : ℕ → Pc  -- the rest of a round
  popping : Pc  -- in the handler that `pthread_cleanup_pop` has taken off and runs, before its `free`
  freed : Pc  -- the handler has returned
  completed : Pc
  canceled : Pc

pub record State : Type 0 where
  pub pc : Pc
  pub enabled : Bool
  pub is_async : Bool
  pub pending : Bool  -- whether `pthread_cancel` has been called
  pub pushed : Bool  -- whether cleanup_handler is on the stack
  pub allocs : ℕ  -- the calls of `strdup`, and of `free` in cleanup_handler
  pub frees : ℕ
  pub shielded_rounds : ℕ
  pub handling : Bool  -- whether `pthread_cleanup_pop` runs the handler, and it has not come to `free`

-- A new thread can be cancelled, at the points of cancellation.
abbrev pub init : State
init = record {
  pc = starting;
  enabled = true;
  is_async = false;
  pending = false;
  pushed = false;
  allocs = 0;
  frees = 0;
  shielded_rounds = 0;
  handling = false;
}

abbrev pub begin : Kind → State → State
begin asynchronous s = record s { pc = ready; enabled = true; is_async = true }
begin deferred s = record s { pc = ready; enabled = true; is_async = false }
begin disabled s = record s { pc = ready; enabled = false }

abbrev pub loop_of : Kind → Pc
loop_of disabled = shielded 0
loop_of k = working 0

-- The rounds of the second loop, none for the endless one
abbrev pub rounds : Kind → Option ℕ
rounds asynchronous = none
rounds deferred = some 20
rounds disabled = some 10

-- Where a thread can be cancelled: printf and sleep can be points of cancellation, and an asynchronous
-- cancellation comes anywhere.
abbrev pub CanCancel : State → Pc → Type 0
CanCancel s completed = ⊥
CanCancel s canceled = ⊥
CanCancel s ready = s.is_async ≡ true
CanCancel s allocated = s.is_async ≡ true
CanCancel s p = Unit

-- A step of the thread, or of the main thread that cancels it
pub data Step (k : Kind) (s : State) : State → Type 0 where
  request : s.pending ≡ false → Step k s (record s { pending = true })
  set_state : s.pc ≡ starting → Step k s (begin k s)
  strdup : s.pc ≡ ready → Step k s (record s { pc = allocated; allocs = s.allocs + 1 })
  push : s.pc ≡ allocated → Step k s (record s { pc = loop_of k; pushed = true })
  shielded_round :
      (i : ℕ)
      → s.pc ≡ shielded i
      → i < 5
      → Step k s (record s { pc = shielded (i + 1); shielded_rounds = s.shielded_rounds + 1 })
  enable :
      (i : ℕ) → s.pc ≡ shielded i → 5 ≤ i → Step k s (record s { pc = working 0; enabled = true })
  test_cancel :
      (i n : ℕ)
      → s.pc ≡ working i
      → rounds k ≡ some n
      → i < n
      → s.pending ≡ false
      → Step k s (record s { pc = sleeping i })
  work : (i : ℕ) → s.pc ≡ working i → rounds k ≡ none → Step k s (record s { pc = sleeping i })
  wake : (i : ℕ) → s.pc ≡ sleeping i → Step k s (record s { pc = working (i + 1) })
  pop :
      (i n : ℕ)
      → s.pc ≡ working i
      → rounds k ≡ some n
      → n ≤ i
      → Step k s (record s { pc = popping; pushed = false; handling = true })
  free : s.pc ≡ popping → Step k s (record s { pc = freed; frees = s.frees + 1; handling = false })
  finish : s.pc ≡ freed → Step k s (record s { pc = completed })
  cancel :
      s.enabled ≡ true
      → s.pending ≡ true
      → CanCancel s s.pc
      → Step k s (record s {
        pc = canceled;
        pushed = false;
        frees = if s.pushed then s.frees + 1 else s.frees;
      })
