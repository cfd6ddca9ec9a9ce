-- ===== src/PipeExchange/Stuck.antt =====
-- chapter35/pipe_cpu_affinity.c: pipes with no room for a buffer.
use the_linux_programming_in.Prelude.{ℕ, suc, ◌+◌, ◌<◌, refl, arith}
use the_linux_programming_in.PipeExchange.{
  parent, child, writing, State, init, Step, begin, leave, write, all_written, read, all_read,
  Finished,
}
use the_linux_programming_in.Prelude.{Run, start, step}

-- Both processes have filled their pipes in the first round.
abbrev pub full : ℕ → ℕ → State
full n capacity = record {
  parent_pc = writing n (0 + capacity);
  child_pc = writing n (0 + capacity);
  from_parent = 0 + capacity;
  from_child = 0 + capacity;
}

to_full :
    (size capacity n : ℕ)
    → 0 < capacity
    → capacity < size
    → Run (Step size capacity) (init (suc n)) 4 (full n capacity)
to_full size capacity n pos lt =
    step
      (step (step (step start (begin parent n refl)) (begin child n refl))
        (write parent n 0 capacity refl pos (omega arith) (omega arith)))
      (write child n 0 capacity refl pos (omega arith) (omega arith))

full_blocked :
    (size capacity n : ℕ) (u : State) → capacity < size → ¬ Step size capacity (full n capacity) u
full_blocked size capacity n u lt (begin parent m e) = ground arith
full_blocked size capacity n u lt (leave parent e) = ground arith
full_blocked size capacity n u lt (write parent m total k e pos le room) = ground arith
full_blocked size capacity n u lt (all_written parent m total e le) = ground arith
full_blocked size capacity n u lt (read parent m total k e pos le there) = ground arith
full_blocked size capacity n u lt (all_read parent m total e le) = ground arith
full_blocked size capacity n u lt (begin child m e) = ground arith
full_blocked size capacity n u lt (leave child e) = ground arith
full_blocked size capacity n u lt (write child m total k e pos le room) = ground arith
full_blocked size capacity n u lt (all_written child m total e le) = ground arith
full_blocked size capacity n u lt (read child m total k e pos le there) = ground arith
full_blocked size capacity n u lt (all_read child m total e le) = ground arith

-- With pipes that hold less than a buffer, and more than no byte, the two processes can come to a
-- state, before the end of their first round, from which neither can go on.
pub exchange_stuck :
    (size capacity n : ℕ)
    → 0 < capacity
    → capacity < size
    → (k : ℕ) × (s : State) × Run (Step size capacity) (init (suc n)) k s
      × ¬ Finished s
      × ((u : State) → ¬ Step size capacity s u)
exchange_stuck size capacity n pos lt = (
  4,
  full n capacity,
  to_full size capacity n pos lt,
  (λ (e, f). ground arith),
  λ u. full_blocked size capacity n u lt,
)
