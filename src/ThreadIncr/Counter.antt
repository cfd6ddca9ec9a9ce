-- ===== src/ThreadIncr/Counter.antt =====
-- chapter30/thread_incr_mutex.c: the value of `glob` at the end of a run with the mutex.
use the_linux_programming_in.Prelude.{ℕ, ◌+◌, ◌-◌, ◌*◌, ◌≤◌, ◌<◌, ◌≡◌, refl, ◌≢◌, some, arith}
use the_linux_programming_in.ThreadIncr.{
  Pc, looping, locked, loaded, stored, ended, Thread, one, two, State, init, Step, lock, load,
  store, unlock, leave, Finished,
}
use the_linux_programming_in.Prelude.{Run, Run-keeps}

-- The rounds that a thread has done
abbrev pub rounds : ℕ → Pc → ℕ
rounds loops (looping j) = j
rounds loops (locked j) = j
rounds loops (loaded j loc) = j
rounds loops (stored j) = j + 1
rounds loops ended = loops

-- What holds of a thread: it has the mutex exactly in the critical section, what it has read is
-- still there, and it does not go round too often.
abbrev pub Fits : ℕ → Thread → Pc → State → Type 0
Fits loops t (looping j) s = (j ≤ loops) × (s.mtx ≢ some t)
Fits loops t (locked j) s = (j < loops) × (s.mtx ≡ some t)
Fits loops t (loaded j loc) s = (j < loops) × (s.mtx ≡ some t) × (loc ≡ s.glob + 1)
Fits loops t (stored j) s = (j < loops) × (s.mtx ≡ some t)
Fits loops t ended s = s.mtx ≢ some t

pub record IsValid (loops : ℕ) (s : State) : Type 0 where
  pub counted : s.glob ≡ rounds loops s.t1 + rounds loops s.t2
  pub fits1 : Fits loops one s.t1 s
  pub fits2 : Fits loops two s.t2 s

pub init-IsValid : (loops : ℕ) → IsValid loops init
init-IsValid loops = record { counted = refl; fits1 = ground arith; fits2 = ground arith }

pub Step-IsValid : (loops : ℕ) (s u : State) → IsValid loops s → Step loops s u → IsValid loops u
Step-IsValid loops s u v (lock one j e l m) = record {
  counted = ground (arith, v.counted, v.fits1, v.fits2);
  fits1 = ground (arith, v.counted, v.fits1, v.fits2);
  fits2 = ground (arith, v.counted, v.fits1, v.fits2);
}
Step-IsValid loops s u v (load one j e) = record {
  counted = ground (arith, v.counted, v.fits1, v.fits2);
  fits1 = ground (arith, v.counted, v.fits1, v.fits2);
  fits2 = ground (arith, v.counted, v.fits1, v.fits2);
}
Step-IsValid loops s u v (store one j loc e) = record {
  counted = ground (arith, v.counted, v.fits1, v.fits2);
  fits1 = ground (arith, v.counted, v.fits1, v.fits2);
  fits2 = ground (arith, v.counted, v.fits1, v.fits2);
}
Step-IsValid loops s u v (unlock one j e) = record {
  counted = ground (arith, v.counted, v.fits1, v.fits2);
  fits1 = ground (arith, v.counted, v.fits1, v.fits2);
  fits2 = ground (arith, v.counted, v.fits1, v.fits2);
}
Step-IsValid loops s u v (leave one j e l) = record {
  counted = ground (arith, v.counted, v.fits1, v.fits2);
  fits1 = ground (arith, v.counted, v.fits1, v.fits2);
  fits2 = ground (arith, v.counted, v.fits1, v.fits2);
}
Step-IsValid loops s u v (lock two j e l m) = record {
  counted = ground (arith, v.counted, v.fits1, v.fits2);
  fits1 = ground (arith, v.counted, v.fits1, v.fits2);
  fits2 = ground (arith, v.counted, v.fits1, v.fits2);
}
Step-IsValid loops s u v (load two j e) = record {
  counted = ground (arith, v.counted, v.fits1, v.fits2);
  fits1 = ground (arith, v.counted, v.fits1, v.fits2);
  fits2 = ground (arith, v.counted, v.fits1, v.fits2);
}
Step-IsValid loops s u v (store two j loc e) = record {
  counted = ground (arith, v.counted, v.fits1, v.fits2);
  fits1 = ground (arith, v.counted, v.fits1, v.fits2);
  fits2 = ground (arith, v.counted, v.fits1, v.fits2);
}
Step-IsValid loops s u v (unlock two j e) = record {
  counted = ground (arith, v.counted, v.fits1, v.fits2);
  fits1 = ground (arith, v.counted, v.fits1, v.fits2);
  fits2 = ground (arith, v.counted, v.fits1, v.fits2);
}
Step-IsValid loops s u v (leave two j e l) = record {
  counted = ground (arith, v.counted, v.fits1, v.fits2);
  fits1 = ground (arith, v.counted, v.fits1, v.fits2);
  fits2 = ground (arith, v.counted, v.fits1, v.fits2);
}

-- With the mutex, in every run, when both threads have ended, the variable is twice the number of
-- rounds.
pub Finished-glob :
    (loops k : ℕ) (s : State) → Run (Step loops) init k s → Finished s → s.glob ≡ 2 * loops
Finished-glob loops k s r (e1, e2) =
    let v = Run-keeps (IsValid loops) (Step-IsValid loops) (init-IsValid loops) r in
    ground (arith, v.counted)

-- The steps that a thread has still to take
abbrev pub ahead : ℕ → Pc → ℕ
ahead loops (looping j) = 4 * (loops - j) + 1
ahead loops (locked j) = 4 * (loops - j)
ahead loops (loaded j loc) = 4 * (loops - j) - 1
ahead loops (stored j) = 4 * (loops - j) - 2
ahead loops ended = 0

abbrev pub measure : ℕ → State → ℕ
measure loops s = ahead loops s.t1 + ahead loops s.t2

pub Step-measure :
    (loops : ℕ) (s u : State) → IsValid loops s → Step loops s u → measure loops u < measure loops s
Step-measure loops s u v (lock one j e l m) = ground (arith, v.fits1)
Step-measure loops s u v (load one j e) = ground (arith, v.fits1)
Step-measure loops s u v (store one j loc e) = ground (arith, v.fits1)
Step-measure loops s u v (unlock one j e) = ground (arith, v.fits1)
Step-measure loops s u v (leave one j e l) = ground (arith, v.fits1)
Step-measure loops s u v (lock two j e l m) = ground (arith, v.fits2)
Step-measure loops s u v (load two j e) = ground (arith, v.fits2)
Step-measure loops s u v (store two j loc e) = ground (arith, v.fits2)
Step-measure loops s u v (unlock two j e) = ground (arith, v.fits2)
Step-measure loops s u v (leave two j e l) = ground (arith, v.fits2)
