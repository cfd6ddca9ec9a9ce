-- ===== src/ThreadIncr/Progress.antt =====
-- chapter30/thread_incr_mutex.c: which thread can go on, and how long a run can be.
use the_linux_programming_in.Prelude.{
  ℕ, ◌-◌, ◌^◌, ◌+◌, ◌*◌, ◌≤◌, ◌≡◌, refl, ◌≢◌, ◌⊎◌, inl, inr, none, some, arith, ltb, ltb→lt,
  Bool-cases, Option-cases,
}
use the_linux_programming_in.ThreadIncr.{
  Pc, looping, locked, loaded, stored, ended, Thread, one, two, State, init, pc, Step, lock, load,
  store, unlock, leave, Finished,
}
use the_linux_programming_in.ThreadIncr.Counter.{
  rounds, Finished-glob, IsValid, Fits, init-IsValid, Step-IsValid, Step-measure, measure,
}
use the_linux_programming_in.Prelude.{Run, Run-keeps, Run-bounded}

-- The thread that has the mutex can go on.
holder_steps :
    (loops : ℕ) (s : State) (t : Thread) (p : Pc)
    → pc t s ≡ p
    → s.mtx ≡ some t
    → Fits loops t p s
    → (u : State) × Step loops s u
holder_steps loops s t (looping j) e m f = absurd (f.1 m)
holder_steps loops s t (locked j) e m f = (_, load t j e)
holder_steps loops s t (loaded j loc) e m f = (_, store t j loc e)
holder_steps loops s t (stored j) e m f = (_, unlock t j e)
holder_steps loops s t ended e m f = absurd (f m)

-- While the mutex is free, a thread that has not ended can go on.
free_steps :
    (loops : ℕ) (s : State) (t : Thread) (p : Pc)
    → pc t s ≡ p
    → s.mtx ≡ none
    → p ≢ ended
    → (u : State) × Step loops s u
free_steps loops s t (looping j) e m h = elim (Bool-cases (ltb j loops)) [
  | inl l ↦ (_, lock t j e (ltb→lt j loops l) m)
  | inr l ↦ (_, leave t j e (ground arith))
]
free_steps loops s t (locked j) e m h = (_, load t j e)
free_steps loops s t (loaded j loc) e m h = (_, store t j loc e)
free_steps loops s t (stored j) e m h = (_, unlock t j e)
free_steps loops s t ended e m h = absurd (h refl)

ended-cases : (p : Pc) → (p ≡ ended) ⊎ (p ≢ ended)
ended-cases ended = inl refl
ended-cases (looping j) = inr (cc)
ended-cases (locked j) = inr (cc)
ended-cases (loaded j loc) = inr (cc)
ended-cases (stored j) = inr (cc)

exists_step :
    (loops : ℕ) (s : State) → IsValid loops s → ¬ Finished s → (u : State) × Step loops s u
exists_step loops s v h = elim (Option-cases s.mtx) [
  | inl m ↦ elim (ended-cases s.t1) [
    | inr n ↦ free_steps loops s one s.t1 refl m n
    | inl e ↦ elim (ended-cases s.t2) [
      | inr n ↦ free_steps loops s two s.t2 refl m n
      | inl f ↦ absurd (h (e, f))
    ]
  ]
  | inr (one, m) ↦ holder_steps loops s one s.t1 refl m v.fits1
  | inr (two, m) ↦ holder_steps loops s two s.t2 refl m v.fits2
]

-- With the mutex, every run comes to its end: until both threads have ended one of them can go on,
-- and no run has more than 8 * loops + 2 steps.
pub Finished-reached :
    (loops k : ℕ) (s : State)
    → Run (Step loops) init k s
    → (k ≤ 8 * loops + 2) × (¬ Finished s → (u : State) × Step loops s u)
Finished-reached loops k s r = (
  omega (
    arith,
    Run-bounded (IsValid loops) (measure loops) (Step-IsValid loops) (Step-measure loops)
        (init-IsValid loops) r,
  ),
  exists_step loops s (Run-keeps (IsValid loops) (Step-IsValid loops) (init-IsValid loops) r),
)

rounds_bounded :
    (loops : ℕ) (t : Thread) (p : Pc) (s : State) → Fits loops t p s → rounds loops p ≤ loops
rounds_bounded loops t (looping j) s f = f.0
rounds_bounded loops t (locked j) s f = omega (arith, f.0)
rounds_bounded loops t (loaded j loc) s f = omega (arith, f.0)
rounds_bounded loops t (stored j) s f = omega (arith, f.0)
rounds_bounded loops t ended s f = omega arith

-- What has been read stays below what is read at the end.
locals_bounded :
    (loops : ℕ) (s : State) (t : Thread) (p : Pc) (j loc : ℕ)
    → pc t s ≡ p
    → p ≡ loaded j loc
    → IsValid loops s
    → loc ≤ 2 * loops
locals_bounded loops s one p j loc e f v =
    ground (arith, v.counted, v.fits1, v.fits2, rounds_bounded loops two s.t2 s v.fits2)
locals_bounded loops s two p j loc e f v =
    ground (arith, v.counted, v.fits1, v.fits2, rounds_bounded loops one s.t1 s v.fits1)

abbrev pub int_max : ℕ
int_max = 2 ^ 31 - 1

-- With the mutex, and with a number of rounds whose double is an int, every run comes to its end: until
-- both threads have ended one of them can go on, and no run has more than 8 * loops + 2 steps. In each
-- state of a run `glob` and each `loc` are at most the greatest int, so that no step overflows, and when
-- both threads have ended, the variable is twice the number of rounds.
pub glob_exact :
    (loops k : ℕ) (s : State)
    → 2 * loops ≤ int_max
    → Run (Step loops) init k s
    → ((k ≤ 8 * loops + 2) × (¬ Finished s → (u : State) × Step loops s u))
      × (s.glob ≤ int_max)
      × ((t : Thread) (j loc : ℕ) → pc t s ≡ loaded j loc → loc ≤ int_max)
      × (Finished s → s.glob ≡ 2 * loops)
glob_exact loops k s small r =
    let v = Run-keeps (IsValid loops) (Step-IsValid loops) (init-IsValid loops) r in
    let a = rounds_bounded loops one s.t1 s v.fits1 in
    let b = rounds_bounded loops two s.t2 s v.fits2 in
    (
      Finished-reached loops k s r,
      omega (arith, v.counted),
      λ t j loc e. omega (arith, locals_bounded loops s t (pc t s) j loc refl e v),
      Finished-glob loops k s r,
    )
