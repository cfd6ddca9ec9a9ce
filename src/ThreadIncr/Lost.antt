-- ===== src/ThreadIncr/Lost.antt =====
-- chapter30/thread_incr.c: a run in which the steps of one thread are lost.
use the_linux_programming_in.Prelude.{ℕ, zero, suc, ◌+◌, ◌-◌, ◌≤◌, ◌<◌, ◌≡◌, refl, none, arith}
use the_linux_programming_in.ThreadIncr.{
  Pc, looping, loaded, ended, Thread, one, two, State, init, Racy, fetch, put, quit, Finished,
}
use the_linux_programming_in.Prelude.{Run, start, step}

abbrev state : ℕ → Pc → Pc → State
state g p q = record { glob = g; mtx = none; t1 = p; t2 = q }

-- A thread that runs alone for n rounds adds n.
alone : (t : Thread) (p : Pc) (g j : ℕ) → State
alone one p g j = state g (looping j) p
alone two p g j = state g p (looping j)

abbrev pub Reaches : ℕ → State → Type 0
Reaches loops s = (k : ℕ) × Run (Racy loops) init k s

after : (loops : ℕ) {s u : State} → Reaches loops s → Racy loops s u → Reaches loops u
after loops (k, r) x = (suc k, step r x)

alone_round :
    (loops : ℕ) (t : Thread) (p : Pc) (g j : ℕ)
    → j < loops
    → Reaches loops (alone t p g j)
    → Reaches loops (alone t p (g + 1) (j + 1))
unfolding alone after
alone_round loops one p g j lt r =
    after loops (after loops r (fetch one j refl lt)) (put one j (g + 1) refl)
alone_round loops two p g j lt r =
    after loops (after loops r (fetch two j refl lt)) (put two j (g + 1) refl)

alone_rounds :
    (loops : ℕ) (t : Thread) (p : Pc) (n g j : ℕ)
    → j + n ≤ loops
    → Reaches loops (alone t p g j)
    → Reaches loops (alone t p (g + n) (j + n))
alone_rounds loops t p zero g j le r =
    let e : g + 0 ≡ g = omega arith in let f : j + 0 ≡ j = omega arith in rw (e, f) r
alone_rounds loops t p (suc n) g j le r =
    let e : g + 1 + n ≡ g + suc n = omega arith in
    let f : j + 1 + n ≡ j + suc n = omega arith in
    rw (← e, ← f)
      (alone_rounds loops t p n (g + 1) (j + 1) (omega arith)
        (alone_round loops t p g j (omega arith) r))

-- Without the mutex, for every number of rounds from 2 on there is a run at whose end the variable
-- is 2.
pub updates_lost :
    (loops : ℕ)
    → 2 ≤ loops
    → (k : ℕ) × (s : State) × Run (Racy loops) init k s × Finished s × (s.glob ≡ 2)
unfolding alone after
updates_lost loops le =
    let m : ℕ = 0 + (loops - 1) in
    let a : Reaches loops (alone two (loaded 0 1) 0 0) =
      after loops (0, start) (fetch one 0 refl (omega arith)) in
    let b : Reaches loops (alone two (loaded 0 1) m m) =
      alone_rounds loops two (loaded 0 1) (loops - 1) 0 0 (omega arith) a in
    let c : Reaches loops (state 1 (looping 1) (looping m)) = after loops b (put one 0 1 refl) in
    let d : Reaches loops (alone one (loaded m 2) 1 1) =
      after loops c (fetch two m refl (omega arith)) in
    let e : Reaches loops (alone one (loaded m 2) (1 + m) (1 + m)) =
      alone_rounds loops one (loaded m 2) m 1 1 (omega arith) d in
    let f = after loops e (put two m 2 refl) in
    let g = after loops f (quit one (1 + m) refl (omega arith)) in
    let (k, r) = after loops g (quit two (m + 1) refl (omega arith)) in
    (k, state 2 ended ended, r, (refl, refl), refl)
