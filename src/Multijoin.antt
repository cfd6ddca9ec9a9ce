-- ===== src/Multijoin.antt =====
-- chapter30/thread_multijoin.c: a main thread that joins its worker threads as they terminate.
-- Every interleaving of the threads is a sequence of steps; a step of a thread stands for the code
-- between two accesses to memory that other threads see. Here stand the state and the steps.
mod Premises
pub mod Shape
pub mod Invariant
pub mod Preserve
pub mod Safety
pub mod Progress
pub mod Race
mod Tests
use the_linux_programming_in.Prelude.{
  ℕ, zero, suc, ◌+◌, ◌-◌, ◌<◌, ◌≤◌, ◌≡◌, ◌≢◌, Option, none, some, update,
}

-- `enum tstate`
pub data ThreadState : Type 0 where
  alive terminated joined : ThreadState

-- Where the main thread stands.
pub data MainPc : Type 0 where
  creating : MainPc  -- head of the loop that creates the threads
  created : MainPc  -- after `pthread_create`, before `idx++`
  reaping : MainPc  -- head of `while (numLive > 0)`
  locked : MainPc  -- test of `while (numUnjoined == 0)`, with the mutex
  waiting : MainPc  -- in `pthread_cond_wait`, without the mutex
  woken : MainPc  -- woken up, before the mutex is taken again
  scanning : MainPc  -- head of the loop that joins, with the mutex
  exited : MainPc

-- Where a worker stands, with the index that it has read through `arg`.
pub data WorkerPc : Type 0 where
  absent : WorkerPc  -- not created yet
  started : WorkerPc  -- before `idx = *((int *) arg)`
  ready : ℕ → WorkerPc  -- asleep, or before `pthread_mutex_lock`
  holding : ℕ → WorkerPc  -- before `numUnjoined++`
  counted : ℕ → WorkerPc  -- before `thread[idx].state = TS_TERMINATED`
  marked : ℕ → WorkerPc  -- before `pthread_mutex_unlock`
  signalling : ℕ → WorkerPc  -- before `pthread_cond_signal`
  finished : ℕ → WorkerPc

pub data Owner : Type 0 where
  nobody main_thread : Owner
  worker_thread : ℕ → Owner

-- The globals of the file, the variable `idx` of `main`, and where each thread stands.
pub record System : Type 0 where
  pub state : ℕ → ThreadState  -- `thread[i].state`
  pub idx : ℕ
  pub num_live : ℕ
  pub num_unjoined : ℕ
  pub mutex : Owner
  pub main : MainPc
  pub worker : ℕ → WorkerPc

-- `pthread_cond_signal` wakes the main thread if it waits.
abbrev pub wake : MainPc → MainPc
wake waiting = woken
wake pc = pc

-- One step of the program with `n` threads. Worker `j` runs `threadFunc`; a write to
-- `thread[k]` with `k` out of bounds is undefined, so there is no step for it.
pub data Step (n : ℕ) (s : System) : System → Type 0 where
  create :
      s.main ≡ creating
      → s.idx < n
      → Step n s (record s {
        state = update s.state s.idx alive;
        worker = update s.worker s.idx started;
        main = created;
      })
  advance : s.main ≡ created → Step n s (record s { idx = s.idx + 1; main = creating })
  begin : s.main ≡ creating → n ≤ s.idx → Step n s (record s { num_live = n; main = reaping })
  acquire :
      s.main ≡ reaping
      → 0 < s.num_live
      → s.mutex ≡ nobody
      → Step n s (record s { mutex = main_thread; main = locked })
  leave : s.main ≡ reaping → s.num_live ≡ 0 → Step n s (record s { main = exited })
  wait :
      s.main ≡ locked → s.num_unjoined ≡ 0 → Step n s (record s { mutex = nobody; main = waiting })
  spurious : s.main ≡ waiting → Step n s (record s { main = woken })
  retake :
      s.main ≡ woken → s.mutex ≡ nobody → Step n s (record s { mutex = main_thread; main = locked })
  scan : s.main ≡ locked → s.num_unjoined ≢ 0 → Step n s (record s { idx = 0; main = scanning })
  join :
      (k : ℕ)
      → s.main ≡ scanning
      → s.idx < n
      → s.state s.idx ≡ terminated
      → s.worker s.idx ≡ finished k
      → Step n s (record s {
        state = update s.state s.idx joined;
        num_live = s.num_live - 1;
        num_unjoined = s.num_unjoined - 1;
        idx = s.idx + 1;
      })
  pass :
      s.main ≡ scanning
      → s.idx < n
      → s.state s.idx ≢ terminated
      → Step n s (record s { idx = s.idx + 1 })
  release : s.main ≡ scanning → n ≤ s.idx → Step n s (record s { mutex = nobody; main = reaping })
  read :
      (j : ℕ)
      → s.worker j ≡ started
      → Step n s (record s { worker = update s.worker j (ready s.idx) })
  lock :
      (j k : ℕ)
      → s.worker j ≡ ready k
      → s.mutex ≡ nobody
      → Step n s (record s { mutex = worker_thread j; worker = update s.worker j (holding k) })
  count :
      (j k : ℕ)
      → s.worker j ≡ holding k
      → Step n s
          (record s { num_unjoined = s.num_unjoined + 1; worker = update s.worker j (counted k) })
  mark :
      (j k : ℕ)
      → s.worker j ≡ counted k
      → k < n
      → Step n s
          (record s { state = update s.state k terminated; worker = update s.worker j (marked k) })
  unlock :
      (j k : ℕ)
      → s.worker j ≡ marked k
      → Step n s (record s { mutex = nobody; worker = update s.worker j (signalling k) })
  signal :
      (j k : ℕ)
      → s.worker j ≡ signalling k
      → Step n s (record s { main = wake s.main; worker = update s.worker j (finished k) })

-- `calloc` clears the array, so each state is `TS_ALIVE`, the first constant.
abbrev pub init : System
init = record {
  state = λ _. alive;
  idx = 0;
  num_live = 0;
  num_unjoined = 0;
  mutex = nobody;
  main = creating;
  worker = λ _. absent;
}

pub data Reach (n : ℕ) : System → Type 0 where
  start : Reach n init
  next : {s t : System} → Reach n s → Step n s t → Reach n t
