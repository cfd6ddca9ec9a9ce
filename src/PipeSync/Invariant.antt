-- ===== src/PipeSync/Invariant.antt =====
-- chapter44/pipe_sync.c: what holds in every state of the program.
use the_linux_programming_in.Prelude.{ℕ, ◌+◌, ◌≤◌, ◌<◌, ◌≡◌, refl, sym, ap, ◌≢◌, arith}
use the_linux_programming_in.PipeSync.{
  Child, absent, working, closed, zombie, reaped, Pc, forking, reading, reaping, done, State, init,
  Step, fork, close_own, child_closes, child_exits, end_of_file, reap, finish,
}
use the_linux_programming_in.Prelude.{
  update, sum_below, sum_below_change, sum_below-eq-zero, le-sum_below,
}

abbrev pub holds_end : Child → ℕ
holds_end working = 1
holds_end _ = 0

abbrev pub parent_holds : Pc → ℕ
parent_holds forking = 1
parent_holds _ = 0

abbrev pub open_in : State → ℕ → ℕ
open_in s j = holds_end (s.child j)

-- The children that can be there, by where the parent is
abbrev pub Fits : ℕ → State → ℕ → Pc → Child → Type 0
Fits n s j forking absent = s.i ≤ j
Fits n s j forking reaped = ⊥
Fits n s j forking c = j < s.i
Fits n s j reading absent = n ≤ j
Fits n s j reading reaped = ⊥
Fits n s j reading c = j < n
Fits n s j reaping absent = n ≤ j
Fits n s j reaping working = ⊥
Fits n s j reaping reaped = j < s.i
Fits n s j reaping c = (s.i ≤ j) × (j < n)
Fits n s j done absent = n ≤ j
Fits n s j done reaped = j < n
Fits n s j done c = ⊥

abbrev pub InBounds : ℕ → State → Pc → Type 0
InBounds n s done = Unit
InBounds n s reading = Unit
InBounds n s p = s.i ≤ n

pub record IsValid (n : ℕ) (s : State) : Type 0 where
  pub ends : s.write_ends ≡ sum_below (open_in s) n + parent_holds s.pc
  pub fits : (j : ℕ) → Fits n s j s.pc (s.child j)
  pub bounds : InBounds n s s.pc

pub init-IsValid : (n : ℕ) → IsValid n init
init-IsValid n = record {
  ends = omega (arith, sum_below-eq-zero (open_in init) n (λ j lt. refl));
  fits = λ j. omega arith;
  bounds = omega arith;
}

module _ {n : ℕ} {s : State} (v : IsValid n s) where
  Step-bounds : {u : State} → Step n s u → InBounds n u u.pc
  Step-bounds (fork e l) = ground (arith, v.bounds)
  Step-bounds (close_own e l) = ground (arith, v.bounds)
  Step-bounds (child_closes j e) = ground (arith, v.bounds)
  Step-bounds (child_exits j e) = ground (arith, v.bounds)
  Step-bounds (end_of_file e l) = ground (arith, v.bounds)
  Step-bounds (reap e l z) = ground (arith, v.bounds)
  Step-bounds (finish e l) = ground (arith, v.bounds)

  -- At the end of file no child is at work.
  not_working : (j : ℕ) → s.pc ≡ reading → s.write_ends ≡ 0 → s.child j ≢ working
  not_working j e l w =
      let here : j < n = ground (arith, v.fits j) in
      ground (arith, v.ends, le-sum_below (open_in s) j n here)

  Step-Fits : {u : State} → Step n s u → (j : ℕ) → Fits n u j u.pc (u.child j)
  Step-Fits (fork e l) j = ground (arith, v.fits j, v.bounds)
  Step-Fits (close_own e l) j = ground (arith, v.fits j, v.bounds)
  Step-Fits (child_closes k e) j = ground (arith, v.fits j, v.fits k)
  Step-Fits (child_exits k e) j = ground (arith, v.fits j, v.fits k)
  Step-Fits (end_of_file e l) j = ground (arith, v.fits j, not_working j e l)
  Step-Fits (reap e l z) j = ground (arith, v.fits j)
  Step-Fits (finish e l) j = ground (arith, v.fits j, v.bounds)

  -- The open ends, when a step changes child i alone
  ends_change :
      (c : ℕ → Child) (i : ℕ)
      → i < n
      → ((j : ℕ) → i ≢ j → c j ≡ s.child j)
      → sum_below (open_in s) n + holds_end (c i)
        ≡ sum_below (open_in (record s { child = c })) n + holds_end (s.child i)
  ends_change c i lt same =
      sum_below_change (open_in s) (open_in (record s { child = c })) i n lt
        (λ j ne. sym (ap holds_end (same j ne)))

  pub there : (j : ℕ) → s.child j ≢ absent → j < n
  there j h = ground (arith, v.fits j, v.bounds)

  Step-ends : {u : State} → Step n s u → u.write_ends ≡ sum_below (open_in u) n + parent_holds u.pc
  Step-ends (fork e l) = ground (
    arith,
    v.ends,
    v.fits s.i,
    ends_change (update s.child s.i working) s.i l (λ j ne. ground arith),
  )
  Step-ends (close_own e l) = ground (arith, v.ends)
  Step-ends (child_closes j e) = ground (
    arith,
    v.ends,
    ends_change (update s.child j closed) j (there j (ground arith)) (λ k ne. ground arith),
  )
  Step-ends (child_exits j e) = ground (
    arith,
    v.ends,
    ends_change (update s.child j zombie) j (there j (ground arith)) (λ k ne. ground arith),
  )
  Step-ends (end_of_file e l) = ground (arith, v.ends)
  Step-ends (reap e l z) =
      ground (arith, v.ends, ends_change (update s.child s.i reaped) s.i l (λ k ne. ground arith))
  Step-ends (finish e l) = ground (arith, v.ends)

pub Step-IsValid : (n : ℕ) (s u : State) → IsValid n s → Step n s u → IsValid n u
Step-IsValid n s u v x = record {
  ends = Step-ends v x;
  fits = Step-Fits v x;
  bounds = Step-bounds v x;
}
