-- ===== src/Multijoin/Invariant.antt =====
-- chapter30/thread_multijoin.c: what holds in every state that the program reaches, as long as each
-- worker has read its own index.
use the_linux_programming_in.Prelude.{ℕ, ◌<◌, ◌≡◌, ◌≢◌, Bool, true, false, ◌==◌}
use the_linux_programming_in.Prelude.{sum_below}
use the_linux_programming_in.Multijoin.{
  ThreadState, alive, terminated, joined, MainPc, exited, creating, created, locked, waiting, woken,
  scanning, WorkerPc, holding, counted, marked, signalling, finished, Owner, main_thread,
  worker_thread, System,
}

-- The entry of a thread in the array, against where the thread stands.
abbrev pub Fits : ThreadState → WorkerPc → Type 0
Fits alive (marked k) = ⊥
Fits alive (signalling k) = ⊥
Fits alive (finished k) = ⊥
Fits alive _ = Unit
Fits terminated (marked k) = Unit
Fits terminated (signalling k) = Unit
Fits terminated (finished k) = Unit
Fits terminated _ = ⊥
Fits joined (finished k) = Unit
Fits joined _ = ⊥

abbrev pub main_holds : MainPc → Bool
main_holds locked = true
main_holds scanning = true
main_holds _ = false

abbrev pub worker_holds : WorkerPc → Bool
worker_holds (holding k) = true
worker_holds (counted k) = true
worker_holds (marked k) = true
worker_holds _ = false

abbrev pub is_main : Owner → Bool
is_main main_thread = true
is_main _ = false

abbrev pub is_worker : ℕ → Owner → Bool
is_worker j (worker_thread i) = i == j
is_worker j _ = false

-- Threads that `numUnjoined` counts.
abbrev pub pending : ThreadState → WorkerPc → ℕ
pending terminated _ = 1
pending alive (counted k) = 1
pending _ _ = 0

-- Threads that `numLive` counts.
abbrev pub unjoined : ThreadState → ℕ
unjoined joined = 0
unjoined _ = 1

abbrev pub is_creation : MainPc → Bool
is_creation creating = true
is_creation created = true
is_creation _ = false

-- The main thread has seen `numLive > 0` and joins no thread before it tests again.
abbrev pub needs_thread : MainPc → Bool
needs_thread locked = true
needs_thread waiting = true
needs_thread woken = true
needs_thread _ = false

abbrev pub will_signal : WorkerPc → Bool
will_signal (counted k) = true
will_signal (marked k) = true
will_signal (signalling k) = true
will_signal _ = false

abbrev pub pending_in : System → ℕ → ℕ
pending_in s j = pending (s.state j) (s.worker j)

abbrev pub unjoined_in : System → ℕ → ℕ
unjoined_in s j = unjoined (s.state j)

pub record Inv (n : ℕ) (s : System) : Type 0 where
  pub fits : (j : ℕ) → Fits (s.state j) (s.worker j)
  pub main_owner : main_holds s.main ≡ is_main s.mutex
  pub worker_owner : (j : ℕ) → worker_holds (s.worker j) ≡ is_worker j s.mutex
  pub unjoined_count : s.num_unjoined ≡ sum_below (pending_in s) n
  pub live_count : is_creation s.main ≡ false → s.num_live ≡ sum_below (unjoined_in s) n
  pub unscanned : (j : ℕ) → is_creation s.main ≡ true → s.state j ≢ joined
  pub needed : needs_thread s.main ≡ true → 0 < s.num_live
  pub drained : s.main ≡ exited → s.num_live ≡ 0
  pub promised : s.main ≡ waiting → 0 < s.num_unjoined → (j : ℕ) × (will_signal (s.worker j) ≡ true)
