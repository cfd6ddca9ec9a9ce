-- ===== src/Critical/Laws.antt =====
-- chapter32/pthread_testcancel.c: a critical section that is begun is done.
use the_linux_programming_in.Prelude.{ℕ, ◌⊎◌, ◌+◌, ◌≤◌, ◌<◌, ◌≡◌, refl, Bool, true, false, arith}
use the_linux_programming_in.Critical.{
  popping, freed, free, finish, Pc, starting, allocated, before, entering, inside, leaving, after,
  sleeping, completed, canceled, State, init, Step, request, strdup, push, test_before, disable,
  work, restore, test_after, wake, pop, cancel,
}
use the_linux_programming_in.Prelude.{Run, Run-keeps}

abbrev pub Held : State → Type 0
Held s = (s.allocs ≡ 1) × (s.frees ≡ 0) × (s.pushed ≡ true) × (s.handling ≡ false)

-- What holds where the thread is
abbrev pub Fits : State → Pc → Type 0
Fits s starting =
    (s.allocs ≡ 0)
    × (s.frees ≡ 0)
    × (s.pushed ≡ false)
    × (s.handling ≡ false)
    × (s.enabled ≡ true)
    × (s.begun ≡ 0)
    × (s.done ≡ 0)
Fits s allocated =
    (s.allocs ≡ 1)
    × (s.frees ≡ 0)
    × (s.pushed ≡ false)
    × (s.handling ≡ false)
    × (s.enabled ≡ true)
    × (s.begun ≡ 0)
    × (s.done ≡ 0)
Fits s (before i) = Held s × (s.enabled ≡ true) × (s.begun ≡ i) × (s.done ≡ i) × (i ≤ 10)
Fits s (entering i) = Held s × (s.enabled ≡ true) × (s.begun ≡ i) × (s.done ≡ i) × (i < 10)
Fits s (inside i) =
    Held s
    × (s.enabled ≡ false)
    × (s.old_state ≡ true)
    × (s.begun ≡ i + 1)
    × (s.done ≡ i)
    × (i < 10)
Fits s (leaving i) =
    Held s
    × (s.enabled ≡ false)
    × (s.old_state ≡ true)
    × (s.begun ≡ i + 1)
    × (s.done ≡ i + 1)
    × (i < 10)
Fits s (after i) = Held s × (s.enabled ≡ true) × (s.begun ≡ i + 1) × (s.done ≡ i + 1) × (i < 10)
Fits s (sleeping i) = Held s × (s.enabled ≡ true) × (s.begun ≡ i + 1) × (s.done ≡ i + 1) × (i < 10)
Fits s popping =
    (s.allocs ≡ 1)
    × (s.frees ≡ 0)
    × (s.pushed ≡ false)
    × (s.handling ≡ true)
    × (s.enabled ≡ true)
    × (s.begun ≡ 10)
    × (s.done ≡ 10)
Fits s freed =
    (s.allocs ≡ 1)
    × (s.frees ≡ 1)
    × (s.pushed ≡ false)
    × (s.handling ≡ false)
    × (s.enabled ≡ true)
    × (s.begun ≡ 10)
    × (s.done ≡ 10)
Fits s completed =
    (s.allocs ≡ 1)
    × (s.frees ≡ 1)
    × (s.handling ≡ false)
    × (s.enabled ≡ true)
    × (s.begun ≡ 10)
    × (s.done ≡ 10)
Fits s canceled =
    (s.allocs ≤ 1)
    × (s.frees ≤ s.allocs)
    × (s.handling ≡ false → s.frees ≡ s.allocs)
    × (s.handling ≡ true → (s.allocs ≡ 1) × (s.frees ≡ 0) × (s.done ≡ 10))
    × (s.enabled ≡ true)
    × (s.begun ≡ s.done)
    × (s.done ≤ 10)

pub init-Fits : (garbage : Bool) → Fits (init garbage) (init garbage).pc
init-Fits garbage = (refl, refl, refl, refl, refl, refl, refl)

pub Step-Fits : (s u : State) → Fits s s.pc → Step s u → Fits u u.pc
Step-Fits s u v (request e) = ground arith
Step-Fits s u v (strdup e) = ground arith
Step-Fits s u v (push e) = ground arith
Step-Fits s u v (test_before i e l p) = ground arith
Step-Fits s u v (disable i e) = ground arith
Step-Fits s u v (work i e) = ground arith
Step-Fits s u v (restore i e) = ground arith
Step-Fits s u v (test_after i e p) = ground arith
Step-Fits s u v (wake i e) = ground arith
Step-Fits s u v (pop i e l) = ground arith
Step-Fits s u v (free e) = ground arith
Step-Fits s u v (finish e) = ground arith
Step-Fits s u v (cancel e p c) = ground arith

abbrev pub Ended : Pc → Type 0
Ended completed = Unit
Ended canceled = Unit
Ended p = ⊥

-- In every run, whenever the thread is cancelled: at most one critical section is begun that is not done,
-- and none when the thread has ended; the thread has its state of cancellation from the start again
-- then. Its resource is freed at most once, and as often as it was allocated when the thread has ended,
-- but for one case: the thread is cancelled after all 10 sections, in the handler that
-- pthread_cleanup_pop runs, before its free. A thread that completes has done all 10 sections.
pub sections_whole :
    (garbage : Bool) (k : ℕ) (s : State)
    → Run Step (init garbage) k s
    → (s.done ≤ s.begun)
      × (s.begun ≤ s.done + 1)
      × (Ended s.pc → (s.begun ≡ s.done) × (s.enabled ≡ true))
      × (Ended s.pc → s.handling ≡ false → s.frees ≡ s.allocs)
      × (s.handling ≡ true
          → (s.pc ≡ popping ⊎ s.pc ≡ canceled) × (s.allocs ≡ 1) × (s.frees ≡ 0) × (s.done ≡ 10))
      × (s.frees ≤ 1)
      × (s.pc ≡ completed → s.done ≡ 10)
sections_whole garbage k s r =
    let v = Run-keeps (λ t. Fits t t.pc) Step-Fits (init-Fits garbage) r in
    (
      ground arith,
      ground arith,
      λ e. ground arith,
      λ e f. ground arith,
      λ e. ground arith,
      ground arith,
      λ e. ground arith,
    )
