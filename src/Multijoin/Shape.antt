-- ===== src/Multijoin/Shape.antt =====
-- chapter30/thread_multijoin.c: how far the creation of the threads is, and which indexes the workers
-- have read.
use the_linux_programming_in.Prelude.{ℕ, ◌+◌, ◌≤◌, ◌<◌, ◌≡◌, refl, ◌≢◌, Option, none, some, arith}
use the_linux_programming_in.Multijoin.{
  MainPc, creating, created, WorkerPc, absent, started, ready, holding, counted, marked, signalling,
  finished, System, Step, create, Reach, start, next,
}
use the_linux_programming_in.Multijoin.Premises.{premise}

-- The number of threads that have been created.
abbrev pub born_at : ℕ → MainPc → ℕ → ℕ
born_at n creating i = i
born_at n created i = i + 1
born_at n _ i = n

pub record Shape (n : ℕ) (s : System) : Type 0 where
  pub room : s.main ≡ creating → s.idx ≤ n
  pub room_made : s.main ≡ created → s.idx < n
  pub unborn : (j : ℕ) → born_at n s.main s.idx ≤ j → s.worker j ≡ absent
  pub present : (j : ℕ) → j < born_at n s.main s.idx → s.worker j ≢ absent

Step-room : {n : ℕ} {s t : System} → Step n s t → Shape n s → t.main ≡ creating → t.idx ≤ n
Step-room (create p q) h e = ground arith
Step-room st h e = ground (arith, premise st, h.room, h.room_made)

Step-room_made : {n : ℕ} {s t : System} → Step n s t → Shape n s → t.main ≡ created → t.idx < n
Step-room_made (create p q) h e = ground arith
Step-room_made st h e = ground (arith, premise st, h.room, h.room_made)

Step-unborn :
    {n : ℕ} {s t : System}
    → Step n s t
    → Shape n s
    → (j : ℕ) → born_at n t.main t.idx ≤ j
    → t.worker j ≡ absent
Step-unborn (create p q) h j le = ground (arith, h.unborn j)
Step-unborn st h j le = ground (arith, premise st, h.unborn j, h.room, h.room_made)

Step-present :
    {n : ℕ} {s t : System}
    → Step n s t
    → Shape n s
    → (j : ℕ) → j < born_at n t.main t.idx
    → t.worker j ≢ absent
Step-present (create p q) h j lt = ground (arith, h.present j)
Step-present st h j lt = ground (arith, premise st, h.present j, h.room, h.room_made)

Step-Shape : {n : ℕ} {s t : System} → Step n s t → Shape n s → Shape n t
Step-Shape st h = record {
  room = Step-room st h;
  room_made = Step-room_made st h;
  unborn = Step-unborn st h;
  present = Step-present st h;
}

pub Reach-Shape : {n : ℕ} {s : System} → Reach n s → Shape n s
Reach-Shape start = record {
  room = λ e. omega arith;
  room_made = λ e. cc;
  unborn = λ j le. refl;
  present = λ j lt. absurd (omega arith);
}
Reach-Shape (next r st) = Step-Shape st (Reach-Shape r)

-- The index that a worker has read.
abbrev pub index : WorkerPc → Option ℕ
index absent = none
index started = none
index (ready k) = some k
index (holding k) = some k
index (counted k) = some k
index (marked k) = some k
index (signalling k) = some k
index (finished k) = some k

-- Every worker that has read `*arg` has read its own index.
abbrev pub ReadsOwn : System → Type 0
ReadsOwn s = (j k : ℕ) → index (s.worker j) ≡ some k → k ≡ j

-- What was true after a step was true before, since what has been read stays.
pub Step-ReadsOwn : {n : ℕ} {s t : System} → Step n s t → Shape n s → ReadsOwn t → ReadsOwn s
Step-ReadsOwn (create p q) h own j k e = ground (arith, own j k, h.unborn j)
Step-ReadsOwn st h own j k e = ground (arith, premise st, own j k)
