-- ===== src/PipeExchange/Progress.antt =====
-- chapter35/pipe_cpu_affinity.c: the end of the exchange, where the pipes have room for a buffer.
use the_linux_programming_in.Prelude.{
  ℕ, zero, suc, ◌+◌, ◌-◌, ◌*◌, ◌≤◌, ◌<◌, ◌≡◌, refl, ◌⊎◌, inl, inr, arith, ltb, Bool-cases,
}
use the_linux_programming_in.PipeExchange.{
  Side, parent, child, Pc, looping, writing, reading, finished, State, init, pc, output, input,
  Step, begin, leave, write, all_written, read, all_read, Finished,
}
use the_linux_programming_in.PipeExchange.Conservation.{
  to_write, to_read, IsValid, init-IsValid, Step-IsValid, suc-mul,
}
use the_linux_programming_in.Prelude.{Run, Run-keeps, Run-bounded}

-- The steps that a process has still to take are at most so many.
abbrev ahead : ℕ → Pc → ℕ
ahead size (looping n) = n * (2 * size + 3) + 1
ahead size (writing n total) = n * (2 * size + 3) + (2 * size + 3 - total)
ahead size (reading n total) = n * (2 * size + 3) + (size + 2 - total)
ahead size finished = 0

abbrev measure : ℕ → State → ℕ
measure size s = ahead size s.parent_pc + ahead size s.child_pc

Step-measure :
    (size capacity : ℕ) (s u : State)
    → IsValid size s
    → Step size capacity s u
    → measure size u < measure size s
Step-measure size capacity s u v (begin parent n e) =
    ground (arith, v.parent_fits, suc-mul n (2 * size + 3))
Step-measure size capacity s u v (leave parent e) = ground (arith, v.parent_fits)
Step-measure size capacity s u v (write parent n total k e pos le room) =
    ground (arith, v.parent_fits)
Step-measure size capacity s u v (all_written parent n total e le) = ground (arith, v.parent_fits)
Step-measure size capacity s u v (read parent n total k e pos le there) =
    ground (arith, v.parent_fits)
Step-measure size capacity s u v (all_read parent n total e le) = ground (arith, v.parent_fits)
Step-measure size capacity s u v (begin child n e) =
    ground (arith, v.child_fits, suc-mul n (2 * size + 3))
Step-measure size capacity s u v (leave child e) = ground (arith, v.child_fits)
Step-measure size capacity s u v (write child n total k e pos le room) =
    ground (arith, v.child_fits)
Step-measure size capacity s u v (all_written child n total e le) = ground (arith, v.child_fits)
Step-measure size capacity s u v (read child n total k e pos le there) =
    ground (arith, v.child_fits)
Step-measure size capacity s u v (all_read child n total e le) = ground (arith, v.child_fits)

-- A process that cannot go on
abbrev Blocked : ℕ → ℕ → State → Side → Pc → Type 0
Blocked size capacity s x (looping n) = ⊥
Blocked size capacity s x (writing n total) = (total < size) × (capacity ≤ output x s)
Blocked size capacity s x (reading n total) = (total < size) × (input x s ≡ 0)
Blocked size capacity s x finished = Unit

goes_on :
    (size capacity : ℕ) (s : State) (x : Side) (p : Pc)
    → pc x s ≡ p
    → Blocked size capacity s x p ⊎ ((u : State) × Step size capacity s u)
goes_on size capacity s x (looping zero) e = inr (_, leave x e)
goes_on size capacity s x (looping (suc n)) e = inr (_, begin x n e)
goes_on size capacity s x (writing n total) e = elim (Bool-cases (ltb total size)) [
  | inr l ↦ inr (_, all_written x n total e (ground arith))
  | inl l ↦ elim (Bool-cases (ltb (output x s) capacity)) [
    | inl room ↦ inr (_, write x n total 1 e (omega arith) (ground arith) (ground arith))
    | inr full ↦ inl (ground arith, ground arith)
  ]
]
goes_on size capacity s x (reading n total) e = elim (Bool-cases (ltb total size)) [
  | inr l ↦ inr (_, all_read x n total e (ground arith))
  | inl l ↦ elim (Bool-cases (ltb 0 (input x s))) [
    | inl there ↦ inr (_, read x n total 1 e (omega arith) (ground arith) (ground arith))
    | inr gone ↦ inl (ground arith, ground arith)
  ]
]
goes_on size capacity s x finished e = inl tt

Blocked-Finished :
    (size capacity : ℕ) (s : State) (p q : Pc)
    → s.parent_pc ≡ p
    → s.child_pc ≡ q
    → 0 < size
    → size ≤ capacity
    → to_read size q ≡ to_write size p + s.from_parent
    → to_read size p ≡ to_write size q + s.from_child
    → Blocked size capacity s parent p
    → Blocked size capacity s child q
    → Finished s
Blocked-Finished size capacity s finished finished e f pos cap forth back a b = (e, f)
Blocked-Finished size capacity s (looping n) (looping m) e f pos cap forth back a b = absurd a
Blocked-Finished size capacity s (looping n) (writing m got) e f pos cap forth back a b = absurd a
Blocked-Finished size capacity s (looping n) (reading m got) e f pos cap forth back a b = absurd a
Blocked-Finished size capacity s (looping n) finished e f pos cap forth back a b = absurd a
Blocked-Finished size capacity s (writing n total) (looping m) e f pos cap forth back a b = absurd b
Blocked-Finished size capacity s (writing n total) (writing m got) e f pos cap forth back a b =
    absurd (omega arith)
Blocked-Finished size capacity s (writing n total) (reading m got) e f pos cap forth back a b =
    absurd (omega arith)
Blocked-Finished size capacity s (writing n total) finished e f pos cap forth back a b =
    absurd (omega arith)
Blocked-Finished size capacity s (reading n total) (looping m) e f pos cap forth back a b = absurd b
Blocked-Finished size capacity s (reading n total) (writing m got) e f pos cap forth back a b =
    absurd (omega arith)
Blocked-Finished size capacity s (reading n total) (reading m got) e f pos cap forth back a b =
    absurd (omega arith)
Blocked-Finished size capacity s (reading n total) finished e f pos cap forth back a b =
    absurd (omega arith)
Blocked-Finished size capacity s finished (looping m) e f pos cap forth back a b = absurd b
Blocked-Finished size capacity s finished (writing m got) e f pos cap forth back a b =
    absurd (omega arith)
Blocked-Finished size capacity s finished (reading m got) e f pos cap forth back a b =
    absurd (omega arith)

exists_step :
    (size capacity : ℕ) (s : State)
    → 0 < size
    → size ≤ capacity
    → IsValid size s
    → ¬ Finished s
    → (u : State) × Step size capacity s u
exists_step size capacity s pos cap v h = elim (goes_on size capacity s parent s.parent_pc refl) [
  | inr u ↦ u
  | inl a ↦ elim (goes_on size capacity s child s.child_pc refl) [
    | inr u ↦ u
    | inl b ↦ absurd (
        h (
          Blocked-Finished size capacity s s.parent_pc s.child_pc refl refl pos cap v.forth v.back a
            b))
  ]
]

-- With pipes that have room for a buffer, the exchange of buffers comes to its end: until both
-- processes have finished one of them can write or read or go on, no run has more than
-- 2 * (count * (2 * size + 3) + 1) steps, and in the end both pipes are empty.
pub exchange_ends :
    (size capacity count k : ℕ) (s : State)
    → 0 < size
    → size ≤ capacity
    → Run (Step size capacity) (init count) k s
    → (k ≤ 2 * (count * (2 * size + 3) + 1))
      × (¬ Finished s → (u : State) × Step size capacity s u)
      × (Finished s → (s.from_parent ≡ 0) × (s.from_child ≡ 0))
exchange_ends size capacity count k s pos cap r =
    let v = Run-keeps (IsValid size) (Step-IsValid size capacity) (init-IsValid size count) r in
    (
      omega (
        arith,
        Run-bounded (IsValid size) (measure size) (Step-IsValid size capacity)
            (Step-measure size capacity) (init-IsValid size count) r,
      ),
      exists_step size capacity s pos cap v,
      λ (e, f). (ground (arith, v.forth), ground (arith, v.back)),
    )
