-- ===== src/Multijoin/Progress.antt =====
-- chapter30/thread_multijoin.c: which thread can go on in a reachable state.
use the_linux_programming_in.Prelude.{
  ℕ, ◌<◌, ◌≡◌, refl, ◌≢◌, ◌⊎◌, inl, inr, Bool, true, false, arith,
}
use the_linux_programming_in.Prelude.{sum_below, le-sum_below, sum_below_pos}
use native.Mathlib.Decide.{dec_lt, ℕ_discrete}
use the_linux_programming_in.Multijoin.{
  ThreadState, alive, terminated, joined, MainPc, creating, created, reaping, locked, waiting,
  woken, scanning, exited, WorkerPc, absent, started, ready, holding, counted, marked, signalling,
  finished, Owner, nobody, main_thread, worker_thread, System, Step, create, advance, begin,
  acquire, leave, wait, spurious, retake, scan, join, pass, release, read, lock, count, mark,
  unlock, signal, Reach,
}
use the_linux_programming_in.Multijoin.Shape.{Shape, Reach-Shape, ReadsOwn}
use the_linux_programming_in.Multijoin.Invariant.{
  main_holds, worker_holds, pending_in, unjoined_in, Inv,
}
use the_linux_programming_in.Multijoin.Preserve.{Reach-Inv}

abbrev pub is_spurious : {n : ℕ} {s t : System} → Step n s t → Bool
is_spurious (spurious p) = true
is_spurious _ = false

-- A step that is not a spurious wakeup.
abbrev pub CanStep : ℕ → System → Type 0
CanStep n s = (t : System) × (st : Step n s t) × (is_spurious st ≡ false)

module _ {n : ℕ} {s : System} (own : ReadsOwn s) (shape : Shape n s) (inv : Inv n s) where
  -- A worker that is there and has not ended can go on if the mutex is free or its own.
  worker_CanStep :
      (j : ℕ) (w : WorkerPc)
      → s.worker j ≡ w
      → w ≢ absent
      → ((k : ℕ) → w ≢ finished k)
      → (s.mutex ≡ nobody) ⊎ (worker_holds w ≡ true)
      → CanStep n s
  worker_CanStep j absent e a f m = absurd (a refl)
  worker_CanStep j started e a f m = (_, read j e, refl)
  worker_CanStep j (ready k) e a f (inl free) = (_, lock j k e free, refl)
  worker_CanStep j (ready k) e a f (inr h) = cc
  worker_CanStep j (holding k) e a f m = (_, count j k e, refl)
  worker_CanStep j (counted k) e a f m =
      (_, mark j k e (ground (arith, own j k, shape.unborn j, shape.room, shape.room_made)), refl)
  worker_CanStep j (marked k) e a f m = (_, unlock j k e, refl)
  worker_CanStep j (signalling k) e a f m = (_, signal j k e, refl)
  worker_CanStep j (finished k) e a f m = absurd (f k refl)

  holder_CanStep : (j : ℕ) → worker_holds (s.worker j) ≡ true → CanStep n s
  holder_CanStep j h =
      worker_CanStep j (s.worker j) refl (λ e. ground arith) (λ k e. ground arith) (inr h)

  -- Where the main thread wants the mutex: it is free, or a worker has it and can go on.
  mutex_CanStep :
      (o : Owner)
      → s.mutex ≡ o
      → main_holds s.main ≡ false
      → (s.mutex ≡ nobody → CanStep n s)
      → CanStep n s
  mutex_CanStep nobody e out free = free e
  mutex_CanStep main_thread e out free = absurd (ground (arith, inv.main_owner))
  mutex_CanStep (worker_thread j) e out free = holder_CanStep j (ground (arith, inv.worker_owner j))

  -- A thread that is not joined has a worker that can go on, or is counted in `numUnjoined`.
  waiting-CanStep : s.main ≡ waiting → s.mutex ≡ nobody → CanStep n s
  waiting-CanStep m free =
      let live : 0 < sum_below (unjoined_in s) n = ground (arith, inv.needed, inv.live_count) in
      let (i, lt, p) = sum_below_pos (unjoined_in s) n live in
      elim (ℕ_discrete s.num_unjoined 0) [
        | no some_unjoined ↦
            let (j, w) = inv.promised m (omega arith) in
            worker_CanStep j (s.worker j) refl (λ e. ground arith) (λ k e. ground arith) (inl free)
        | yes none_unjoined ↦
            worker_CanStep i (s.worker i) refl (ground (arith, shape.present i))
              (λ k e.
                ground (arith, inv.fits i, inv.unjoined_count, le-sum_below (pending_in s) i n lt))
              (inl free)
      ]

  scanning_CanStep :
      s.main ≡ scanning
      → (w : WorkerPc) → s.worker s.idx ≡ w
      → (st : ThreadState) → s.state s.idx ≡ st
      → s.idx < n
      → CanStep n s
  scanning_CanStep m (finished k) e terminated q lt = (_, join k m lt q e, refl)
  scanning_CanStep m absent e terminated q lt = absurd (ground (arith, inv.fits s.idx))
  scanning_CanStep m started e terminated q lt = absurd (ground (arith, inv.fits s.idx))
  scanning_CanStep m (ready k) e terminated q lt = absurd (ground (arith, inv.fits s.idx))
  scanning_CanStep m (signalling k) e terminated q lt = (_, signal s.idx k e, refl)
  scanning_CanStep m w e terminated q lt = holder_CanStep s.idx (ground arith)
  scanning_CanStep m w e alive q lt = (_, pass m lt (λ x. ground arith), refl)
  scanning_CanStep m w e joined q lt = (_, pass m lt (λ x. ground arith), refl)

  main_CanStep : (m : MainPc) → s.main ≡ m → m ≢ exited → CanStep n s
  main_CanStep creating e x = elim (dec_lt s.idx n) [
    | yes lt ↦ (_, create e lt, refl)
    | no ge ↦ (_, begin e (omega arith), refl)
  ]
  main_CanStep created e x = (_, advance e, refl)
  main_CanStep reaping e x = elim (ℕ_discrete s.num_live 0) [
    | yes z ↦ (_, leave e z, refl)
    | no p ↦
        mutex_CanStep s.mutex refl (ground arith) (λ free. (_, acquire e (omega arith) free, refl))
  ]
  main_CanStep locked e x = elim (ℕ_discrete s.num_unjoined 0) [
    | yes z ↦ (_, wait e z, refl)
    | no p ↦ (_, scan e p, refl)
  ]
  main_CanStep waiting e x = mutex_CanStep s.mutex refl (ground arith) (waiting-CanStep e)
  main_CanStep woken e x =
      mutex_CanStep s.mutex refl (ground arith) (λ free. (_, retake e free, refl))
  main_CanStep scanning e x = elim (dec_lt s.idx n) [
    | yes lt ↦ scanning_CanStep e (s.worker s.idx) refl (s.state s.idx) refl lt
    | no ge ↦ (_, release e (omega arith), refl)
  ]
  main_CanStep exited e x = absurd (x refl)

-- No deadlock: if each worker that has read its argument has read its own index, some thread can
-- take a step in every reachable state until the main thread has left its loop, and the step is not
-- a spurious wakeup.
pub no_deadlock : {n : ℕ} {s : System} → Reach n s → ReadsOwn s → s.main ≢ exited → CanStep n s
no_deadlock {n} {s} r own x = main_CanStep own (Reach-Shape r) (Reach-Inv r own) s.main refl x
