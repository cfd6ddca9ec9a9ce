-- ===== src/Multijoin/Safety.antt =====
-- chapter30/thread_multijoin.c: the counters, the wakeups and the exit, in every reachable state.
use the_linux_programming_in.Prelude.{ℕ, ◌<◌, ◌≡◌, refl, ◌∙◌, true, false, arith}
use the_linux_programming_in.Prelude.{sum_below, sum_below_ext, le-sum_below}
use the_linux_programming_in.Multijoin.{
  ThreadState, alive, terminated, joined, waiting, exited, WorkerPc, absent, started, ready,
  holding, counted, marked, signalling, finished, nobody, System, Reach,
}
use the_linux_programming_in.Multijoin.Shape.{ReadsOwn}
use the_linux_programming_in.Multijoin.Invariant.{
  Fits, main_holds, worker_holds, unjoined, is_creation, will_signal, pending_in, unjoined_in,
}
use the_linux_programming_in.Multijoin.Preserve.{Reach-Inv}

-- 1 for a thread that has terminated and is not joined
abbrev pub is_terminated : ThreadState → ℕ
is_terminated terminated = 1
is_terminated _ = 0

-- If each worker that has read its argument has read its own index, then whenever the mutex is free
-- `numUnjoined` is the number of threads that are terminated and not joined, and from the end of the
-- creation on `numLive` is the number of threads that are not joined.
pub counters_exact :
    {n : ℕ} {s : System}
    → Reach n s
    → ReadsOwn s
    → (s.mutex ≡ nobody → s.num_unjoined ≡ sum_below (λ j. is_terminated (s.state j)) n)
      × (is_creation s.main ≡ false → s.num_live ≡ sum_below (λ j. unjoined (s.state j)) n)
counters_exact {n} {s} r own =
    let inv = Reach-Inv r own in
    (
      λ free.
          inv.unjoined_count
          ∙ sum_below_ext _ _ n (λ j lt. ground (arith, inv.worker_owner j, inv.fits j)),
      inv.live_count,
    )

finished_of_joined :
    (st : ThreadState) (w : WorkerPc) → Fits st w → st ≡ joined → (k : ℕ) × (w ≡ finished k)
finished_of_joined alive w f e = cc
finished_of_joined terminated w f e = cc
finished_of_joined joined absent f e = absurd f
finished_of_joined joined started f e = absurd f
finished_of_joined joined (ready k) f e = absurd f
finished_of_joined joined (holding k) f e = absurd f
finished_of_joined joined (counted k) f e = absurd f
finished_of_joined joined (marked k) f e = absurd f
finished_of_joined joined (signalling k) f e = absurd f
finished_of_joined joined (finished k) f e = (k, refl)

-- If each worker that has read its argument has read its own index, the main thread leaves its loop
-- only after it has joined every thread, and every thread has ended by then.
pub exited_joined :
    {n : ℕ} {s : System}
    → Reach n s
    → ReadsOwn s
    → s.main ≡ exited
    → (j : ℕ) → j < n
    → (s.state j ≡ joined) × (s.worker j ≡ finished j)
exited_joined {n} {s} r own e j lt =
    let inv = Reach-Inv r own in
    let done : s.state j ≡ joined =
      ground (arith, inv.drained, inv.live_count, le-sum_below (unjoined_in s) j n lt) in
    let (k, f) = finished_of_joined (s.state j) (s.worker j) (inv.fits j) done in
    (done, ground (arith, own j k))

-- The critical sections exclude one another: of the workers and the main thread at most one is
-- between taking the mutex and giving it back.
pub mutual_exclusion :
    {n : ℕ} {s : System}
    → Reach n s
    → ReadsOwn s
    → (i : ℕ) → worker_holds (s.worker i) ≡ true
    → (main_holds s.main ≡ false) × ((j : ℕ) → worker_holds (s.worker j) ≡ true → i ≡ j)
mutual_exclusion r own i h =
    let inv = Reach-Inv r own in
    (
      ground (arith, inv.worker_owner i, inv.main_owner),
      λ j hj. ground (arith, inv.worker_owner i, inv.worker_owner j),
    )

-- No wakeup is lost: while the main thread waits for the condition and a thread has terminated that
-- is not joined, some worker has yet to send its signal.
pub no_lost_wakeup :
    {n : ℕ} {s : System}
    → Reach n s
    → ReadsOwn s
    → s.main ≡ waiting
    → (j : ℕ) → j < n
    → s.state j ≡ terminated
    → (i : ℕ) × (will_signal (s.worker i) ≡ true)
no_lost_wakeup {n} {s} r own m j lt e =
    let inv = Reach-Inv r own in
    inv.promised m (ground (arith, inv.unjoined_count, le-sum_below (pending_in s) j n lt))
