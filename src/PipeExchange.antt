-- ===== src/PipeExchange.antt =====
-- chapter35/pipe_cpu_affinity.c: two processes that exchange buffers through two non-blocking pipes,
-- each by `transfer_data`. Here stand the states and the steps; the children hold the proofs. A call
-- that returns EAGAIN changes nothing and has no step; an end by `errExit` has none either.
pub mod Conservation
pub mod Progress
pub mod Stuck
mod Tests
use the_linux_programming_in.Prelude.{
  ℕ, zero, suc, ◌+◌, ◌-◌, ◌*◌, ◌/◌, ◌%◌, ◌^◌, ◌≤◌, ◌<◌, ◌≡◌, refl, sym, ap, ◌∙◌, ◌≢◌, ◌↔◌, ◌⊎◌, inl,
  inr, Bool, true, false, ◌&&◌, ◌||◌, not, Option, none, some, List, [], ◌∷◌, ◌++◌, map,
  append_assoc, append-nil, arith, ltb, leb, ◌==◌, if◌then◌else◌, ltb→lt, lt→ltb, leb→le, ==_iff,
  Bool-cases, Option-cases, length, get_elem?, set, length-append, length-set, get_elem?-set_self,
  get_elem?-set_ne, get_or, take, drop, replicate, length-map, Bytes, bytes_eq, bytes_eq_refl,
  bytes_eq_sound, bytes_eq_ne,
}

pub data Side : Type 0 where
  parent child : Side

-- Where a process is in `transfer_data`; the first number is that of the rounds after this one, the
-- second `total_written` or `total_read`.
pub data Pc : Type 0 where
  looping : ℕ → Pc  -- at the test of the loop, with so many rounds left
  writing : ℕ → ℕ → Pc
  reading : ℕ → ℕ → Pc
  finished : Pc

-- The processes, and the bytes that the pipe from each of them holds
pub record State : Type 0 where
  pub parent_pc : Pc
  pub child_pc : Pc
  pub from_parent : ℕ
  pub from_child : ℕ

abbrev pub init : ℕ → State
init count = record {
  parent_pc = looping count;
  child_pc = looping count;
  from_parent = 0;
  from_child = 0;
}

abbrev pub pc : Side → State → Pc
pc parent s = s.parent_pc
pc child s = s.child_pc

abbrev pub goes : Side → Pc → State → State
goes parent p s = record s { parent_pc = p }
goes child p s = record s { child_pc = p }

-- The pipe that a process writes to, and the one that it reads from
abbrev pub output : Side → State → ℕ
output parent s = s.from_parent
output child s = s.from_child

abbrev pub input : Side → State → ℕ
input parent s = s.from_child
input child s = s.from_parent

abbrev pub set_output : Side → ℕ → State → State
set_output parent n s = record s { from_parent = n }
set_output child n s = record s { from_child = n }

abbrev pub set_input : Side → ℕ → State → State
set_input parent n s = record s { from_child = n }
set_input child n s = record s { from_parent = n }

-- A step of a process, for buffers of `size` bytes and pipes that hold `capacity`: `write` takes some
-- of the bytes that are left, as many as have room, and `read` gives some that are there.
pub data Step (size capacity : ℕ) (s : State) : State → Type 0 where
  begin :
      (x : Side) (n : ℕ) → pc x s ≡ looping (suc n) → Step size capacity s (goes x (writing n 0) s)
  leave : (x : Side) → pc x s ≡ looping 0 → Step size capacity s (goes x finished s)
  write :
      (x : Side) (n total k : ℕ)
      → pc x s ≡ writing n total
      → 0 < k
      → total + k ≤ size
      → output x s + k ≤ capacity
      → Step size capacity s (goes x (writing n (total + k)) (set_output x (output x s + k) s))
  all_written :
      (x : Side) (n total : ℕ)
      → pc x s ≡ writing n total
      → size ≤ total
      → Step size capacity s (goes x (reading n 0) s)
  read :
      (x : Side) (n total k : ℕ)
      → pc x s ≡ reading n total
      → 0 < k
      → total + k ≤ size
      → k ≤ input x s
      → Step size capacity s (goes x (reading n (total + k)) (set_input x (input x s - k) s))
  all_read :
      (x : Side) (n total : ℕ)
      → pc x s ≡ reading n total
      → size ≤ total
      → Step size capacity s (goes x (looping n) s)

abbrev pub Finished : State → Type 0
Finished s = (s.parent_pc ≡ finished) × (s.child_pc ≡ finished)
