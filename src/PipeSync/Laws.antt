-- ===== src/PipeSync/Laws.antt =====
-- chapter44/pipe_sync.c: what the parent knows after its read, and the end of the program.
use the_linux_programming_in.Prelude.{
  ℕ, ◌+◌, ◌*◌, ◌≤◌, ◌<◌, ◌≡◌, refl, ◌≢◌, ◌⊎◌, inl, inr, arith, ltb, ltb→lt, Bool-cases,
}
use the_linux_programming_in.PipeSync.{
  Child, absent, working, closed, zombie, reaped, Pc, forking, reading, reaping, done, State, init,
  Step, fork, close_own, child_closes, child_exits, end_of_file, reap, finish,
}
use the_linux_programming_in.PipeSync.Invariant.{
  open_in, Fits, IsValid, init-IsValid, there, Step-IsValid,
}
use the_linux_programming_in.Prelude.{
  update, sum_below, sum_below_change, sum_below-eq-zero, sum_below_pos, sum_below_const,
}
use the_linux_programming_in.Prelude.{Run, Run-keeps, Run-bounded}

-- When the parent has come past its read, every child has been made, has done its work and has closed
-- its write end; when it has come to its end, it has reaped every child, and in both cases no write
-- end of the pipe is open.
pub end_of_file_after_work :
    (n k : ℕ) (s : State)
    → Run (Step n) init k s
    → (s.pc ≡ reaping ⊎ s.pc ≡ done)
    → (s.write_ends ≡ 0)
      × ((j : ℕ) → j < n → (s.child j ≢ absent) × (s.child j ≢ working))
      × (s.pc ≡ done → (j : ℕ) → j < n → s.child j ≡ reaped)
end_of_file_after_work n k s r h =
    let v = Run-keeps (IsValid n) (Step-IsValid n) (init-IsValid n) r in
    (
      ground
          (arith, h, v.ends, sum_below-eq-zero (open_in s) n (λ j lt. ground (arith, h, v.fits j))),
      λ j lt. (ground (arith, h, v.fits j), ground (arith, h, v.fits j)),
      λ e j lt. ground (arith, v.fits j),
    )

abbrev weight : Child → ℕ
weight absent = 4
weight working = 3
weight closed = 2
weight zombie = 1
weight reaped = 0

abbrev place : Pc → ℕ
place forking = 3
place reading = 2
place reaping = 1
place done = 0

abbrev measure : ℕ → State → ℕ
measure n s = sum_below (λ j. weight (s.child j)) n + place s.pc

weight_change :
    (s : State) (c : Child) (i n : ℕ)
    → i < n
    → sum_below (λ j. weight (s.child j)) n + weight c
      ≡ sum_below (λ j. weight (update s.child i c j)) n + weight (s.child i)
weight_change s c i n lt = ground (
  arith,
  sum_below_change (λ j. weight (s.child j)) (λ j. weight (update s.child i c j)) i n lt
      (λ j ne. ground arith),
)

Step-measure : (n : ℕ) (s u : State) → IsValid n s → Step n s u → measure n u < measure n s
Step-measure n s u v (fork e l) = ground (arith, v.fits s.i, weight_change s working s.i n l)
Step-measure n s u v (close_own e l) = ground arith
Step-measure n s u v (child_closes j e) =
    ground (arith, weight_change s closed j n (there v j (ground arith)))
Step-measure n s u v (child_exits j e) =
    ground (arith, weight_change s zombie j n (there v j (ground arith)))
Step-measure n s u v (end_of_file e l) = ground arith
Step-measure n s u v (reap e l z) = ground (arith, weight_change s reaped s.i n l)
Step-measure n s u v (finish e l) = ground arith

reap_step :
    (n : ℕ) (s : State) (c : Child)
    → s.child s.i ≡ c
    → s.pc ≡ reaping
    → s.i < n
    → Fits n s s.i reaping c
    → (u : State) × Step n s u
reap_step n s absent e p l f = absurd (omega arith)
reap_step n s working e p l f = absurd f
reap_step n s closed e p l f = (_, child_exits s.i e)
reap_step n s zombie e p l f = (_, reap p l e)
reap_step n s reaped e p l f = absurd (omega arith)

exists_step :
    (n : ℕ) (s : State) (p : Pc) → s.pc ≡ p → p ≢ done → IsValid n s → (u : State) × Step n s u
exists_step n s forking e h v = elim (Bool-cases (ltb s.i n)) [
  | inl l ↦ (_, fork e (ltb→lt s.i n l))
  | inr l ↦ (_, close_own e (ground arith))
]
exists_step n s reading e h v = elim (Bool-cases (ltb 0 s.write_ends)) [
  | inl l ↦
      let (j, lt, here) = sum_below_pos (open_in s) n (ground (arith, v.ends)) in
      (_, child_closes j (ground arith))
  | inr l ↦ (_, end_of_file e (ground arith))
]
exists_step n s reaping e h v = elim (Bool-cases (ltb s.i n)) [
  | inl l ↦ reap_step n s (s.child s.i) refl e (ltb→lt s.i n l) (ground (arith, v.fits s.i))
  | inr l ↦ (_, finish e (ground arith))
]
exists_step n s done e h v = absurd (h refl)

-- Every run with n children comes to the end of the parent: until then some step is possible, and no
-- run has more than n * 4 + 3 steps.
pub parent_ends :
    (n k : ℕ) (s : State)
    → Run (Step n) init k s
    → (k ≤ n * 4 + 3) × (s.pc ≢ done → (u : State) × Step n s u)
parent_ends n k s r = (
  omega (
    arith,
    sum_below_const (λ j. weight (init.child j)) 4 n (λ j lt. refl),
    Run-bounded (IsValid n) (measure n) (Step-IsValid n) (Step-measure n) (init-IsValid n) r,
  ),
  λ h. exists_step n s s.pc refl h (Run-keeps (IsValid n) (Step-IsValid n) (init-IsValid n) r),
)

-- Every run with n children comes to the end of the parent: until then some step is possible, and no
-- run has more than n * 4 + 3 steps. When the parent has come past its read, no write end of the pipe
-- is open, and every child has been made, has done its work and has closed its write end; when it has
-- come to its end, it has reaped every child.
pub parent_synchronised :
    (n k : ℕ) (s : State)
    → Run (Step n) init k s
    → ((k ≤ n * 4 + 3) × (s.pc ≢ done → (u : State) × Step n s u))
      × (s.pc ≡ reaping ⊎ s.pc ≡ done
          → (s.write_ends ≡ 0)
            × ((j : ℕ) → j < n → (s.child j ≢ absent) × (s.child j ≢ working))
            × (s.pc ≡ done → (j : ℕ) → j < n → s.child j ≡ reaped))
parent_synchronised n k s r = (parent_ends n k s r, end_of_file_after_work n k s r)
