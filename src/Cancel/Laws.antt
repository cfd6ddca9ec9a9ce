-- ===== src/Cancel/Laws.antt =====
-- chapter32/thread_cancel.c: the resource of a thread is freed once, however it ends.
use the_linux_programming_in.Prelude.{ℕ, ◌≤◌, ◌≡◌, refl, ◌≢◌, ◌⊎◌, true, false, arith}
use the_linux_programming_in.Cancel.{
  Kind, asynchronous, deferred, disabled, Pc, starting, ready, allocated, shielded, working,
  sleeping, completed, canceled, State, init, Step, request, set_state, strdup, push,
  shielded_round, enable, test_cancel, work, wake, pop, cancel, popping, freed, free, finish,
}
use the_linux_programming_in.Prelude.{Run, Run-keeps}

-- What holds where the thread is, if its cancellation is not asynchronous
abbrev pub Fits : Kind → State → Pc → Type 0
Fits k s starting = (s.allocs ≡ 0) × (s.frees ≡ 0) × (s.pushed ≡ false) × (s.shielded_rounds ≡ 0)
Fits k s ready =
    (s.allocs ≡ 0)
    × (s.frees ≡ 0)
    × (s.pushed ≡ false)
    × (s.shielded_rounds ≡ 0)
    × (k ≡ disabled → s.enabled ≡ false)
    × (k ≡ deferred → s.enabled ≡ true)
Fits k s allocated =
    (s.allocs ≡ 1)
    × (s.frees ≡ 0)
    × (s.pushed ≡ false)
    × (s.shielded_rounds ≡ 0)
    × (k ≡ disabled → s.enabled ≡ false)
    × (k ≡ deferred → s.enabled ≡ true)
Fits k s (shielded i) =
    (s.allocs ≡ 1)
    × (s.frees ≡ 0)
    × (s.pushed ≡ true)
    × (s.shielded_rounds ≡ i)
    × (i ≤ 5)
    × (s.enabled ≡ false)
Fits k s (working i) =
    (s.allocs ≡ 1)
    × (s.frees ≡ 0)
    × (s.pushed ≡ true)
    × (k ≡ disabled → s.shielded_rounds ≡ 5)
    × (s.enabled ≡ true)
Fits k s (sleeping i) =
    (s.allocs ≡ 1)
    × (s.frees ≡ 0)
    × (s.pushed ≡ true)
    × (k ≡ disabled → s.shielded_rounds ≡ 5)
    × (s.enabled ≡ true)
Fits k s popping =
    (s.allocs ≡ 1)
    × (s.frees ≡ 0)
    × (s.pushed ≡ false)
    × (k ≡ disabled → s.shielded_rounds ≡ 5)
    × (s.enabled ≡ true)
Fits k s freed =
    (s.allocs ≡ 1)
    × (s.frees ≡ 1)
    × (s.pushed ≡ false)
    × (k ≡ disabled → s.shielded_rounds ≡ 5)
    × (s.enabled ≡ true)
Fits k s completed = (s.allocs ≡ 1) × (s.frees ≡ 1) × (k ≡ disabled → s.shielded_rounds ≡ 5)
Fits k s canceled =
    (s.allocs ≤ 1)
    × (s.frees ≤ s.allocs)
    × (s.handling ≡ false → s.frees ≡ s.allocs)
    × (s.handling ≡ true → (s.allocs ≡ 1) × (s.frees ≡ 0))
    × (k ≡ disabled → (s.allocs ≡ 0) ⊎ ((s.allocs ≡ 1) × (s.shielded_rounds ≡ 5)))

-- Whether a handler is left in its `printf`
abbrev pub Handled : State → Pc → Type 0
Handled s popping = s.handling ≡ true
Handled s canceled = Unit
Handled s p = s.handling ≡ false

pub record IsValid (k : Kind) (s : State) : Type 0 where
  pub fits : Fits k s s.pc
  pub not_async : s.is_async ≡ false
  pub handled : Handled s s.pc

pub init-IsValid : (k : Kind) → IsValid k init
init-IsValid k = record { fits = (refl, refl, refl, refl); not_async = refl; handled = refl }

Step-Fits : (k : Kind) (s u : State) → k ≢ asynchronous → IsValid k s → Step k s u → Fits k u u.pc
Step-Fits k s u h v (request e) = ground (arith, v.fits)
Step-Fits asynchronous s u h v (set_state e) = absurd (h refl)
Step-Fits deferred s u h v (set_state e) = ground (arith, v.fits)
Step-Fits disabled s u h v (set_state e) = ground (arith, v.fits)
Step-Fits k s u h v (strdup e) = ground (arith, v.fits)
Step-Fits asynchronous s u h v (push e) = absurd (h refl)
Step-Fits deferred s u h v (push e) = ground (arith, v.fits)
Step-Fits disabled s u h v (push e) = ground (arith, v.fits)
Step-Fits k s u h v (shielded_round i e l) = ground (arith, v.fits)
Step-Fits k s u h v (enable i e l) = ground (arith, v.fits)
Step-Fits k s u h v (test_cancel i n e r l p) = ground (arith, v.fits)
Step-Fits k s u h v (work i e r) = ground (arith, v.fits)
Step-Fits k s u h v (wake i e) = ground (arith, v.fits)
Step-Fits k s u h v (pop i n e r l) = ground (arith, v.fits)
Step-Fits k s u h v (free e) = ground (arith, v.fits)
Step-Fits k s u h v (finish e) = ground (arith, v.fits)
Step-Fits k s u h v (cancel e p c) = ground (arith, v.fits, v.not_async, v.handled)

Step-is_async :
    (k : Kind) (s u : State) → k ≢ asynchronous → IsValid k s → Step k s u → u.is_async ≡ false
Step-is_async k s u h v (request e) = v.not_async
Step-is_async asynchronous s u h v (set_state e) = absurd (h refl)
Step-is_async deferred s u h v (set_state e) = refl
Step-is_async disabled s u h v (set_state e) = v.not_async
Step-is_async k s u h v (strdup e) = v.not_async
Step-is_async k s u h v (push e) = v.not_async
Step-is_async k s u h v (shielded_round i e l) = v.not_async
Step-is_async k s u h v (enable i e l) = v.not_async
Step-is_async k s u h v (test_cancel i n e r l p) = v.not_async
Step-is_async k s u h v (work i e r) = v.not_async
Step-is_async k s u h v (wake i e) = v.not_async
Step-is_async k s u h v (pop i n e r l) = v.not_async
Step-is_async k s u h v (free e) = v.not_async
Step-is_async k s u h v (finish e) = v.not_async
Step-is_async k s u h v (cancel e p c) = v.not_async

Step-Handled : (k : Kind) (s u : State) → IsValid k s → Step k s u → Handled u u.pc
Step-Handled k s u v (request e) = v.handled
Step-Handled asynchronous s u v (set_state e) = ground (arith, v.handled)
Step-Handled deferred s u v (set_state e) = ground (arith, v.handled)
Step-Handled disabled s u v (set_state e) = ground (arith, v.handled)
Step-Handled k s u v (strdup e) = ground (arith, v.handled)
Step-Handled asynchronous s u v (push e) = ground (arith, v.handled)
Step-Handled deferred s u v (push e) = ground (arith, v.handled)
Step-Handled disabled s u v (push e) = ground (arith, v.handled)
Step-Handled k s u v (shielded_round i e l) = ground (arith, v.handled)
Step-Handled k s u v (enable i e l) = ground (arith, v.handled)
Step-Handled k s u v (test_cancel i n e r l p) = ground (arith, v.handled)
Step-Handled k s u v (work i e r) = ground (arith, v.handled)
Step-Handled k s u v (wake i e) = ground (arith, v.handled)
Step-Handled k s u v (pop i n e r l) = refl
Step-Handled k s u v (free e) = refl
Step-Handled k s u v (finish e) = ground (arith, v.handled)
Step-Handled k s u v (cancel e p c) = tt

pub Step-IsValid :
    (k : Kind) (s u : State) → k ≢ asynchronous → IsValid k s → Step k s u → IsValid k u
Step-IsValid k s u h v x = record {
  fits = Step-Fits k s u h v x;
  not_async = Step-is_async k s u h v x;
  handled = Step-Handled k s u v x;
}

abbrev pub Ended : Pc → Type 0
Ended completed = Unit
Ended canceled = Unit
Ended p = ⊥

-- In every run of the deferred and of the disabled thread: a resource is freed at most once, and when the
-- thread has ended it is freed if it was allocated, but for one case: the thread is cancelled in the
-- handler that pthread_cleanup_pop runs, before its free, and then the resource is lost. A thread that
-- completes has allocated and freed it; and the disabled thread is cancelled after the allocation only
-- when it has done its 5 rounds with cancellation disabled.
pub freed_once :
    (k : Kind) (j : ℕ) (s : State)
    → k ≢ asynchronous
    → Run (Step k) init j s
    → (s.frees ≤ s.allocs)
      × (s.allocs ≤ 1)
      × (Ended s.pc → s.handling ≡ false → s.frees ≡ s.allocs)
      × (s.handling ≡ true → (s.pc ≡ popping ⊎ s.pc ≡ canceled) × (s.allocs ≡ 1) × (s.frees ≡ 0))
      × (s.pc ≡ completed → (s.allocs ≡ 1) × (s.frees ≡ 1))
      × (k ≡ disabled → s.pc ≡ canceled → s.allocs ≡ 1 → s.shielded_rounds ≡ 5)
freed_once k j s h r =
    let v = Run-keeps (IsValid k) (λ t u w x. Step-IsValid k t u h w x) (init-IsValid k) r in
    (
      ground (arith, v.fits),
      ground (arith, v.fits),
      λ e f. ground (arith, v.fits),
      λ e. ground (arith, v.fits, v.handled),
      λ e. ground (arith, v.fits),
      λ e f g. ground (arith, v.fits),
    )
