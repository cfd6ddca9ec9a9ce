-- ===== src/Multijoin/Preserve.antt =====
-- chapter30/thread_multijoin.c: the invariant at each step, a field at a time.
use the_linux_programming_in.Prelude.{ℕ, ◌+◌, ◌<◌, ◌≡◌, refl, sym, ◌≢◌, true, false, arith}
use the_linux_programming_in.Prelude.{
  sum_below, sum_below_change, sum_below-eq-zero, sum_below_ones,
}
use the_linux_programming_in.Multijoin.{
  joined, waiting, exited, absent, System, Step, create, begin, wait, spurious, join, read, lock,
  count, mark, unlock, signal, init, Reach, start, next,
}
use the_linux_programming_in.Multijoin.Premises.{premise}
use the_linux_programming_in.Multijoin.Shape.{Shape, Reach-Shape, ReadsOwn, Step-ReadsOwn}
use the_linux_programming_in.Multijoin.Invariant.{
  Fits, main_holds, worker_holds, is_main, is_worker, is_creation, needs_thread, will_signal,
  pending_in, unjoined_in, Inv,
}

module _ {n : ℕ} {s : System} (shape : Shape n s) (own : ReadsOwn s) (inv : Inv n s) where
  open inv use {
    fits, main_owner, worker_owner, unjoined_count, live_count, unscanned, needed, promised,
  }

  Step-Fits : {t : System} → Step n s t → (j : ℕ) → Fits (t.state j) (t.worker j)
  Step-Fits (mark i k p q) j = ground (arith, fits j, own i k)
  Step-Fits st j = ground (arith, premise st, fits j, shape.unborn j)

  Step-main_owner : {t : System} → Step n s t → main_holds t.main ≡ is_main t.mutex
  Step-main_owner (unlock j k p) = ground (arith, main_owner, worker_owner j)
  Step-main_owner st = ground (arith, premise st, main_owner)

  Step-worker_owner :
      {t : System} → Step n s t → (j : ℕ) → worker_holds (t.worker j) ≡ is_worker j t.mutex
  Step-worker_owner (create p q) j = ground (arith, worker_owner j, shape.unborn s.idx)
  Step-worker_owner (unlock i k p) j = ground (arith, worker_owner j, worker_owner i)
  Step-worker_owner st j = ground (arith, premise st, worker_owner j, main_owner)

  Step-unscanned :
      {t : System} → Step n s t → (j : ℕ) → is_creation t.main ≡ true → t.state j ≢ joined
  Step-unscanned (signal i k p) j e = ground (arith, unscanned j, fits j)
  Step-unscanned st j e = ground (arith, premise st, unscanned j)

  Step-needed : {t : System} → Step n s t → needs_thread t.main ≡ true → 0 < t.num_live
  Step-needed (signal i k p) e = ground (arith, needed)
  Step-needed st e = ground (arith, premise st, needed)

  Step-drained : {t : System} → Step n s t → t.main ≡ exited → t.num_live ≡ 0
  Step-drained (signal i k p) e = ground (arith, inv.drained)
  Step-drained st e = ground (arith, premise st, inv.drained)

  born_lt : (j : ℕ) → s.worker j ≢ absent → j < n
  born_lt j h = ground (arith, shape.unborn j, shape.room, shape.room_made)

  -- The count of pending threads, when a step changes thread `i` alone.
  pending_change :
      (t : System) (i : ℕ)
      → i < n
      → ((j : ℕ) → i ≢ j → pending_in s j ≡ pending_in t j)
      → s.num_unjoined + pending_in t i ≡ sum_below (pending_in t) n + pending_in s i
  pending_change t i lt same =
      omega (arith, unjoined_count, sum_below_change (pending_in s) (pending_in t) i n lt same)

  unjoined_change :
      (t : System) (i : ℕ)
      → i < n
      → is_creation s.main ≡ false
      → ((j : ℕ) → i ≢ j → unjoined_in s j ≡ unjoined_in t j)
      → s.num_live + unjoined_in t i ≡ sum_below (unjoined_in t) n + unjoined_in s i
  unjoined_change t i lt e same =
      omega (arith, live_count e, sum_below_change (unjoined_in s) (unjoined_in t) i n lt same)

  Step-unjoined_count : {t : System} → Step n s t → t.num_unjoined ≡ sum_below (pending_in t) n
  Step-unjoined_count {t} (create p q) =
      ground
        (arith, pending_change t s.idx q (λ j ne. ground arith), fits s.idx, shape.unborn s.idx)
  Step-unjoined_count {t} (join k p q e f) =
      ground (arith, pending_change t s.idx q (λ j ne. ground arith))
  Step-unjoined_count {t} (read j p) =
      ground (arith, pending_change t j (born_lt j (ground arith)) (λ i ne. ground arith), fits j)
  Step-unjoined_count {t} (lock j k p o) =
      ground (arith, pending_change t j (born_lt j (ground arith)) (λ i ne. ground arith), fits j)
  Step-unjoined_count {t} (count j k p) =
      ground (arith, pending_change t j (born_lt j (ground arith)) (λ i ne. ground arith), fits j)
  Step-unjoined_count {t} (mark j k p q) = ground (
    arith,
    own j k,
    pending_change t j (born_lt j (ground arith)) (λ i ne. ground (arith, own j k)),
    fits j,
  )
  Step-unjoined_count {t} (unlock j k p) =
      ground (arith, pending_change t j (born_lt j (ground arith)) (λ i ne. ground arith), fits j)
  Step-unjoined_count {t} (signal j k p) =
      ground (arith, pending_change t j (born_lt j (ground arith)) (λ i ne. ground arith), fits j)
  Step-unjoined_count st = unjoined_count

  Step-live_count :
      {t : System}
      → Step n s t
      → is_creation t.main ≡ false
      → t.num_live ≡ sum_below (unjoined_in t) n
  Step-live_count {t} (create p q) e = cc
  Step-live_count {t} (begin p q) e = sym (sum_below_ones _ n (λ j lt. ground (arith, unscanned j)))
  Step-live_count {t} (join k p q x f) e =
      ground (arith, unjoined_change t s.idx q (ground arith) (λ j ne. ground arith))
  Step-live_count {t} (mark j k p q) e = ground (
    arith,
    own j k,
    unjoined_change t j (born_lt j (ground arith)) e (λ i ne. ground (arith, own j k)),
    fits j,
  )
  Step-live_count {t} (signal j k p) e = live_count (ground arith)
  Step-live_count st e = live_count (ground (arith, premise st))

  Step-promised :
      {t : System}
      → Step n s t
      → t.main ≡ waiting
      → 0 < t.num_unjoined
      → (j : ℕ) × (will_signal (t.worker j) ≡ true)
  Step-promised (create p q) m h = cc
  Step-promised (wait p q) m h = absurd (omega (arith, q))
  Step-promised (signal j k p) m h = ground arith
  Step-promised (read i p) m h = let (j, w) = promised m h in (j, ground arith)
  Step-promised (lock i k p o) m h = let (j, w) = promised m h in (j, ground arith)
  Step-promised (count i k p) m h = (i, ground arith)
  Step-promised (mark i k p q) m h = (i, ground arith)
  Step-promised (unlock i k p) m h = (i, ground arith)
  Step-promised (spurious p) m h = cc
  Step-promised st m h =
      let (j, w) = promised (ground (arith, premise st)) (ground (arith, premise st)) in
      (j, ground (arith, premise st))

  Step-Inv : {t : System} → Step n s t → Inv n t
  Step-Inv st = record {
    fits = Step-Fits st;
    main_owner = Step-main_owner st;
    worker_owner = Step-worker_owner st;
    unjoined_count = Step-unjoined_count st;
    live_count = Step-live_count st;
    unscanned = Step-unscanned st;
    needed = Step-needed st;
    drained = Step-drained st;
    promised = Step-promised st;
  }

Inv-init : (n : ℕ) → Inv n init
Inv-init n = record {
  fits = λ j. tt;
  main_owner = refl;
  worker_owner = λ j. refl;
  unjoined_count = sym (sum_below-eq-zero _ n (λ j lt. refl));
  live_count = λ e. cc;
  unscanned = λ j e. cc;
  needed = λ e. cc;
  drained = λ e. cc;
  promised = λ e. cc;
}

-- The invariant holds in every reachable state where each worker that has read its argument has
-- read its own index.
pub Reach-Inv : {n : ℕ} {s : System} → Reach n s → ReadsOwn s → Inv n s
Reach-Inv {n} start own = Inv-init n
Reach-Inv (next r st) own =
    let own' = Step-ReadsOwn st (Reach-Shape r) own in
    Step-Inv (Reach-Shape r) own' (Reach-Inv r own') st
