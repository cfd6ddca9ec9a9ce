-- ===== src/ThreadIncr.antt =====
-- chapter30/thread_incr.c and thread_incr_mutex.c: two threads that step one global variable, without
-- and with a mutex. `glob` has no bound: a sum that leaves the range of int is not modelled. Here stand the states and the steps; the children hold the proofs.
pub mod Counter
pub mod Progress
pub mod Lost
mod Tests
use the_linux_programming_in.Prelude.{
  ℕ, zero, suc, ◌+◌, ◌-◌, ◌*◌, ◌/◌, ◌%◌, ◌^◌, ◌≤◌, ◌<◌, ◌≡◌, refl, sym, ap, ◌∙◌, ◌≢◌, ◌↔◌, ◌⊎◌, inl,
  inr, Bool, true, false, ◌&&◌, ◌||◌, not, Option, none, some, List, [], ◌∷◌, ◌++◌, map,
  append_assoc, append-nil, arith, ltb, leb, ◌==◌, if◌then◌else◌, ltb→lt, lt→ltb, leb→le, ==_iff,
  Bool-cases, Option-cases, length, get_elem?, set, length-append, length-set, get_elem?-set_self,
  get_elem?-set_ne, get_or, take, drop, replicate, length-map, Bytes, bytes_eq, bytes_eq_refl,
  bytes_eq_sound, bytes_eq_ne,
}

-- Where a thread is in `threadFunc`, in the round `j`; `loc` holds what it has read.
pub data Pc : Type 0 where
  looping : ℕ → Pc  -- at the test `j < loops`
  locked : ℕ → Pc  -- the mutex is taken; only with the mutex
  loaded : ℕ → ℕ → Pc  -- the round, and `loc` after `loc++`
  stored : ℕ → Pc  -- `glob` is written, and the mutex still taken; only with the mutex
  ended : Pc

pub data Thread : Type 0 where
  one two : Thread

pub record State : Type 0 where
  pub glob : ℕ
  pub mtx : Option Thread  -- the thread that has the mutex
  pub t1 : Pc
  pub t2 : Pc

abbrev pub init : State
init = record { glob = 0; mtx = none; t1 = looping 0; t2 = looping 0 }

abbrev pub pc : Thread → State → Pc
pc one s = s.t1
pc two s = s.t2

abbrev pub goes : Thread → Pc → State → State
goes one p s = record s { t1 = p }
goes two p s = record s { t2 = p }

-- A step of a thread in thread_incr.c: `loc = glob; loc++;` reads, `glob = loc;` writes.
pub data Racy (loops : ℕ) (s : State) : State → Type 0 where
  fetch :
      (t : Thread) (j : ℕ)
      → pc t s ≡ looping j
      → j < loops
      → Racy loops s (goes t (loaded j (s.glob + 1)) s)
  put :
      (t : Thread) (j loc : ℕ)
      → pc t s ≡ loaded j loc
      → Racy loops s (goes t (looping (j + 1)) (record s { glob = loc }))
  quit : (t : Thread) (j : ℕ) → pc t s ≡ looping j → loops ≤ j → Racy loops s (goes t ended s)

-- A step of a thread in thread_incr_mutex.c
pub data Step (loops : ℕ) (s : State) : State → Type 0 where
  lock :
      (t : Thread) (j : ℕ)
      → pc t s ≡ looping j
      → j < loops
      → s.mtx ≡ none
      → Step loops s (goes t (locked j) (record s { mtx = some t }))
  load : (t : Thread) (j : ℕ) → pc t s ≡ locked j → Step loops s (goes t (loaded j (s.glob + 1)) s)
  store :
      (t : Thread) (j loc : ℕ)
      → pc t s ≡ loaded j loc
      → Step loops s (goes t (stored j) (record s { glob = loc }))
  unlock :
      (t : Thread) (j : ℕ)
      → pc t s ≡ stored j
      → Step loops s (goes t (looping (j + 1)) (record s { mtx = none }))
  leave : (t : Thread) (j : ℕ) → pc t s ≡ looping j → loops ≤ j → Step loops s (goes t ended s)

-- `main` prints `glob` once both threads have ended.
abbrev pub Finished : State → Type 0
Finished s = (s.t1 ≡ ended) × (s.t2 ≡ ended)
