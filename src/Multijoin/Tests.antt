-- ===== src/Multijoin/Tests.antt =====
-- chapter30/thread_multijoin.c: a run with one thread, and the theorems at its states.
use the_linux_programming_in.Prelude.{◌≡◌, refl, arith}
use the_linux_programming_in.Multijoin.{
  joined, finished, System, create, advance, begin, acquire, leave, wait, retake, scan, join,
  release, read, lock, count, mark, unlock, signal, Reach, start, next,
}
use the_linux_programming_in.Multijoin.Shape.{ReadsOwn}
use the_linux_programming_in.Multijoin.Safety.{exited_joined}
use the_linux_programming_in.Multijoin.Progress.{CanStep, no_deadlock}

-- The main thread waits; the worker has read its index.
abbrev main_waits : (s : System) × Reach 1 s
main_waits = (
  _,
  next
      (next
        (next (next (next (next start (create refl (omega arith))) (read 0 refl)) (advance refl))
          (begin refl (omega arith)))
        (acquire refl (omega arith) refl))
      (wait refl refl),
)

-- The worker is in its critical section and has marked its entry.
abbrev worker_marked : (s : System) × Reach 1 s
worker_marked = (
  _,
  next (next (next main_waits.1 (lock 0 0 refl refl)) (count 0 0 refl))
      (mark 0 0 refl (omega arith)),
)

-- The worker has ended, and the main thread is woken.
abbrev signalled : (s : System) × Reach 1 s
signalled = (_, next (next worker_marked.1 (unlock 0 0 refl)) (signal 0 0 refl))

abbrev left : (s : System) × Reach 1 s
left = (
  _,
  next
      (next
        (next (next (next signalled.1 (retake refl refl)) (scan refl (omega arith)))
          (join 0 refl (omega arith) refl refl))
        (release refl (omega arith)))
      (leave refl refl),
)

worker_marked-ReadsOwn : ReadsOwn worker_marked.0
worker_marked-ReadsOwn j k e = ground arith

left-ReadsOwn : ReadsOwn left.0
left-ReadsOwn j k e = ground arith

exited_joined_example : (left.0.state 0 ≡ joined) × (left.0.worker 0 ≡ finished 0)
exited_joined_example = exited_joined left.1 left-ReadsOwn refl 0 (omega arith)

no_deadlock_example : CanStep 1 worker_marked.0
no_deadlock_example = no_deadlock worker_marked.1 worker_marked-ReadsOwn (λ e. cc)
