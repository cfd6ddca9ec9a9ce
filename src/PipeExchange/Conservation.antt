-- ===== src/PipeExchange/Conservation.antt =====
-- chapter35/pipe_cpu_affinity.c: the bytes that are written, on their way and read.
use the_linux_programming_in.Prelude.{ℕ, suc, ◌+◌, ◌-◌, ◌*◌, ◌≤◌, ◌≡◌, arith}
use the_linux_programming_in.PipeExchange.{
  parent, child, Pc, looping, writing, reading, finished, State, init, Step, begin, leave, write,
  all_written, read, all_read,
}

-- The bytes that a process has still to write, and still to read
abbrev pub to_write : ℕ → Pc → ℕ
to_write size (looping n) = n * size
to_write size (writing n total) = n * size + (size - total)
to_write size (reading n total) = n * size
to_write size finished = 0

abbrev pub to_read : ℕ → Pc → ℕ
to_read size (looping n) = n * size
to_read size (writing n total) = n * size + size
to_read size (reading n total) = n * size + (size - total)
to_read size finished = 0

-- No process writes or reads more than a buffer in a round.
abbrev pub Fits : ℕ → Pc → Type 0
Fits size (looping n) = Unit
Fits size (writing n total) = total ≤ size
Fits size (reading n total) = total ≤ size
Fits size finished = Unit

pub record IsValid (size : ℕ) (s : State) : Type 0 where
  pub forth : to_read size s.child_pc ≡ to_write size s.parent_pc + s.from_parent
  pub back : to_read size s.parent_pc ≡ to_write size s.child_pc + s.from_child
  pub parent_fits : Fits size s.parent_pc
  pub child_fits : Fits size s.child_pc

pub init-IsValid : (size count : ℕ) → IsValid size (init count)
init-IsValid size count = record {
  forth = omega arith;
  back = omega arith;
  parent_fits = tt;
  child_fits = tt;
}

-- A round more is a buffer more.
pub suc-mul : (n size : ℕ) → suc n * size ≡ n * size + size
suc-mul n size = grind arith

module _ {size capacity : ℕ} {s : State} (v : IsValid size s) where
  Step-forth :
      {u : State}
      → Step size capacity s u
      → to_read size u.child_pc ≡ to_write size u.parent_pc + u.from_parent
  Step-forth (begin parent n e) =
      ground (arith, v.forth, v.parent_fits, v.child_fits, suc-mul n size)
  Step-forth (leave parent e) = ground (arith, v.forth, v.parent_fits, v.child_fits)
  Step-forth (write parent n total k e pos le room) =
      ground (arith, v.forth, v.parent_fits, v.child_fits)
  Step-forth (all_written parent n total e le) =
      ground (arith, v.forth, v.parent_fits, v.child_fits)
  Step-forth (read parent n total k e pos le there) =
      ground (arith, v.forth, v.parent_fits, v.child_fits)
  Step-forth (all_read parent n total e le) = ground (arith, v.forth, v.parent_fits, v.child_fits)
  Step-forth (begin child n e) =
      ground (arith, v.forth, v.parent_fits, v.child_fits, suc-mul n size)
  Step-forth (leave child e) = ground (arith, v.forth, v.parent_fits, v.child_fits)
  Step-forth (write child n total k e pos le room) =
      ground (arith, v.forth, v.parent_fits, v.child_fits)
  Step-forth (all_written child n total e le) = ground (arith, v.forth, v.parent_fits, v.child_fits)
  Step-forth (read child n total k e pos le there) =
      ground (arith, v.forth, v.parent_fits, v.child_fits)
  Step-forth (all_read child n total e le) = ground (arith, v.forth, v.parent_fits, v.child_fits)

  Step-back :
      {u : State}
      → Step size capacity s u
      → to_read size u.parent_pc ≡ to_write size u.child_pc + u.from_child
  Step-back (begin parent n e) = ground (arith, v.back, v.parent_fits, v.child_fits, suc-mul n size)
  Step-back (leave parent e) = ground (arith, v.back, v.parent_fits, v.child_fits)
  Step-back (write parent n total k e pos le room) =
      ground (arith, v.back, v.parent_fits, v.child_fits)
  Step-back (all_written parent n total e le) = ground (arith, v.back, v.parent_fits, v.child_fits)
  Step-back (read parent n total k e pos le there) =
      ground (arith, v.back, v.parent_fits, v.child_fits)
  Step-back (all_read parent n total e le) = ground (arith, v.back, v.parent_fits, v.child_fits)
  Step-back (begin child n e) = ground (arith, v.back, v.parent_fits, v.child_fits, suc-mul n size)
  Step-back (leave child e) = ground (arith, v.back, v.parent_fits, v.child_fits)
  Step-back (write child n total k e pos le room) =
      ground (arith, v.back, v.parent_fits, v.child_fits)
  Step-back (all_written child n total e le) = ground (arith, v.back, v.parent_fits, v.child_fits)
  Step-back (read child n total k e pos le there) =
      ground (arith, v.back, v.parent_fits, v.child_fits)
  Step-back (all_read child n total e le) = ground (arith, v.back, v.parent_fits, v.child_fits)

  Step-parent-Fits : {u : State} → Step size capacity s u → Fits size u.parent_pc
  Step-parent-Fits (begin parent n e) = ground (arith, v.parent_fits)
  Step-parent-Fits (leave parent e) = ground (arith, v.parent_fits)
  Step-parent-Fits (write parent n total k e pos le room) = ground (arith, v.parent_fits)
  Step-parent-Fits (all_written parent n total e le) = ground (arith, v.parent_fits)
  Step-parent-Fits (read parent n total k e pos le there) = ground (arith, v.parent_fits)
  Step-parent-Fits (all_read parent n total e le) = ground (arith, v.parent_fits)
  Step-parent-Fits (begin child n e) = ground (arith, v.parent_fits)
  Step-parent-Fits (leave child e) = ground (arith, v.parent_fits)
  Step-parent-Fits (write child n total k e pos le room) = ground (arith, v.parent_fits)
  Step-parent-Fits (all_written child n total e le) = ground (arith, v.parent_fits)
  Step-parent-Fits (read child n total k e pos le there) = ground (arith, v.parent_fits)
  Step-parent-Fits (all_read child n total e le) = ground (arith, v.parent_fits)

  Step-child-Fits : {u : State} → Step size capacity s u → Fits size u.child_pc
  Step-child-Fits (begin parent n e) = ground (arith, v.child_fits)
  Step-child-Fits (leave parent e) = ground (arith, v.child_fits)
  Step-child-Fits (write parent n total k e pos le room) = ground (arith, v.child_fits)
  Step-child-Fits (all_written parent n total e le) = ground (arith, v.child_fits)
  Step-child-Fits (read parent n total k e pos le there) = ground (arith, v.child_fits)
  Step-child-Fits (all_read parent n total e le) = ground (arith, v.child_fits)
  Step-child-Fits (begin child n e) = ground (arith, v.child_fits)
  Step-child-Fits (leave child e) = ground (arith, v.child_fits)
  Step-child-Fits (write child n total k e pos le room) = ground (arith, v.child_fits)
  Step-child-Fits (all_written child n total e le) = ground (arith, v.child_fits)
  Step-child-Fits (read child n total k e pos le there) = ground (arith, v.child_fits)
  Step-child-Fits (all_read child n total e le) = ground (arith, v.child_fits)

pub Step-IsValid :
    (size capacity : ℕ) (s u : State) → IsValid size s → Step size capacity s u → IsValid size u
Step-IsValid size capacity s u v x = record {
  forth = Step-forth v x;
  back = Step-back v x;
  parent_fits = Step-parent-Fits v x;
  child_fits = Step-child-Fits v x;
}
