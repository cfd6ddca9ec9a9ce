-- ===== src/Cleanup.antt =====
-- chapter32/pthread_cleanup.c: three threads with two cleanup handlers each, which are run, or not, when
-- they return or are cancelled. Here stand the states and the steps; Laws holds the proofs. A failing
-- call ends the program, and has no step. `printf` in a handler is a point of cancellation too, when
-- pthread_cleanup_pop runs it; not when a cancellation runs it.
pub mod Laws
mod Tests
use the_linux_programming_in.Prelude.{
  ℕ, zero, suc, ◌+◌, ◌-◌, ◌*◌, ◌/◌, ◌%◌, ◌^◌, ◌≤◌, ◌<◌, ◌≡◌, refl, sym, ap, ◌∙◌, ◌≢◌, ◌↔◌, ◌⊎◌, inl,
  inr, Bool, true, false, ◌&&◌, ◌||◌, not, Option, none, some, List, [], ◌∷◌, ◌++◌, map,
  append_assoc, append-nil, arith, ltb, leb, ◌==◌, if◌then◌else◌, ltb→lt, lt→ltb, leb→le, ==_iff,
  Bool-cases, Option-cases, length, get_elem?, set, length-append, length-set, get_elem?-set_self,
  get_elem?-set_ne, get_or, take, drop, replicate, length-map, Bytes, bytes_eq, bytes_eq_refl,
  bytes_eq_sound, bytes_eq_ne,
}

pub data Kind : Type 0 where
  normal_exit canceled_thread no_cleanup : Kind

pub data Resource : Type 0 where
  first second : Resource

pub data Pc : Type 0 where
  starting : Pc
  first_made : Pc  -- `strdup` has returned, `pthread_cleanup_push` is not done
  first_pushed : Pc
  second_made : Pc
  working : Pc  -- both handlers are pushed
  finishing : Pc
  popping_second : Pc  -- in the handler that the first `pthread_cleanup_pop` runs, before its `free`
  one_popped : Pc
  popping_first : Pc
  returned : Pc
  canceled : Pc

pub record State : Type 0 where
  pub pc : Pc
  pub pending : Bool  -- whether `pthread_cancel` has been called
  pub made : List Resource  -- the strings, the last first
  pub handlers : List Resource  -- the arguments of the handlers that are pushed, the last first
  pub running : Option Resource  -- the argument of the handler that `pthread_cleanup_pop` runs
  pub freed : List Resource  -- by a handler, the first first

abbrev pub init : State
init = record {
  pc = starting;
  pending = false;
  made = [];
  handlers = [];
  running = none;
  freed = [];
}

-- Where a deferred cancellation can act: printf, sleep and pthread_testcancel
abbrev pub CanCancel : Pc → Type 0
CanCancel starting = Unit
CanCancel working = Unit
CanCancel finishing = Unit
CanCancel popping_second = Unit
CanCancel popping_first = Unit
CanCancel p = ⊥

-- The argument of `pthread_cleanup_pop` is 1.
abbrev pub runs_handlers : Kind → Bool
runs_handlers no_cleanup = false
runs_handlers kind = true

-- A step of a thread, or of the main thread that cancels it
pub data Step (kind : Kind) (s : State) : State → Type 0 where
  request : s.pending ≡ false → Step kind s (record s { pending = true })
  make_first : s.pc ≡ starting → Step kind s (record s { pc = first_made; made = first ∷ s.made })
  push_first :
      s.pc ≡ first_made
      → Step kind s (record s { pc = first_pushed; handlers = first ∷ s.handlers })
  make_second :
      s.pc ≡ first_pushed → Step kind s (record s { pc = second_made; made = second ∷ s.made })
  push_second :
      s.pc ≡ second_made → Step kind s (record s { pc = working; handlers = second ∷ s.handlers })
  wake :
      s.pc ≡ working
      → kind ≢ canceled_thread
      → s.pending ≡ false
      → Step kind s (record s { pc = finishing })
  loop : s.pc ≡ working → kind ≡ canceled_thread → s.pending ≡ false → Step kind s s
  drop_second :
      s.pc ≡ finishing
      → runs_handlers kind ≡ false
      → Step kind s (record s { pc = one_popped; handlers = drop 1 s.handlers })
  pop_second :
      (x : Resource) (rest : List Resource)
      → s.pc ≡ finishing
      → runs_handlers kind ≡ true
      → s.handlers ≡ x ∷ rest
      → Step kind s (record s { pc = popping_second; handlers = rest; running = some x })
  free_second :
      (x : Resource)
      → s.pc ≡ popping_second
      → s.running ≡ some x
      → Step kind s (record s { pc = one_popped; running = none; freed = s.freed ++ (x ∷ []) })
  drop_first :
      s.pc ≡ one_popped
      → runs_handlers kind ≡ false
      → Step kind s (record s { pc = returned; handlers = drop 1 s.handlers })
  pop_first :
      (x : Resource) (rest : List Resource)
      → s.pc ≡ one_popped
      → runs_handlers kind ≡ true
      → s.handlers ≡ x ∷ rest
      → Step kind s (record s { pc = popping_first; handlers = rest; running = some x })
  free_first :
      (x : Resource)
      → s.pc ≡ popping_first
      → s.running ≡ some x
      → Step kind s (record s { pc = returned; running = none; freed = s.freed ++ (x ∷ []) })
  cancel :
      s.pending ≡ true
      → CanCancel s.pc
      → Step kind s (record s { pc = canceled; handlers = []; freed = s.freed ++ s.handlers })
