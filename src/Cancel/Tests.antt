-- ===== src/Cancel/Tests.antt =====
-- chapter32/thread_cancel.c: a thread that is cancelled in its first round, and one that is cancelled
-- while its cancellation is disabled.
use the_linux_programming_in.Prelude.{◌⊎◌, ◌+◌, ◌≤◌, ◌≡◌, refl, true, false, arith}
use the_linux_programming_in.Cancel.{
  popping, asynchronous, deferred, disabled, shielded, completed, canceled, State, init, Step,
  request, set_state, strdup, push, cancel,
}
use the_linux_programming_in.Cancel.Laws.{Ended, freed_once}
use the_linux_programming_in.Prelude.{Run, start, step}

abbrev early : State
early = record {
  pc = canceled;
  enabled = true;
  is_async = false;
  pending = true;
  pushed = false;
  allocs = 0 + 1;
  frees = 0 + 1;
  shielded_rounds = 0;
  handling = false;
}

to_early : Run (Step deferred) init 5 early
to_early =
    step (step (step (step (step start (set_state refl)) (strdup refl)) (push refl)) (request refl))
      (cancel refl refl tt)

freed_once_example :
    (early.frees ≤ early.allocs)
    × (early.allocs ≤ 1)
    × (Ended early.pc → early.handling ≡ false → early.frees ≡ early.allocs)
    × (early.handling ≡ true
        → (early.pc ≡ popping ⊎ early.pc ≡ canceled) × (early.allocs ≡ 1) × (early.frees ≡ 0))
    × (early.pc ≡ completed → (early.allocs ≡ 1) × (early.frees ≡ 1))
    × (deferred ≡ disabled → early.pc ≡ canceled → early.allocs ≡ 1 → early.shielded_rounds ≡ 5)
freed_once_example = freed_once deferred 5 early (λ e. ground arith) to_early

abbrev waits : State
waits = record {
  pc = shielded 0;
  enabled = false;
  is_async = false;
  pending = true;
  pushed = true;
  allocs = 0 + 1;
  frees = 0;
  shielded_rounds = 0;
  handling = false;
}

to_waits : Run (Step disabled) init 4 waits
to_waits = step (step (step (step start (set_state refl)) (strdup refl)) (push refl)) (request refl)

-- The asynchronous thread can be cancelled between the two calls, and its copy of the name is lost.
abbrev lost : State
lost = record early { is_async = true; frees = 0 }

to_lost : Run (Step asynchronous) init 4 lost
to_lost =
    step (step (step (step start (set_state refl)) (strdup refl)) (request refl))
      (cancel refl refl refl)
