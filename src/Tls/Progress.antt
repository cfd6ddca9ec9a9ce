-- ===== src/Tls/Progress.antt =====
-- chapter31/tls.c: the measure of a run, and the step that can always be taken.
use the_linux_programming_in.Prelude.{
  ℕ, ◌+◌, ◌-◌, ◌*◌, ◌≤◌, ◌<◌, ◌≡◌, refl, ap, ◌≢◌, inl, inr, Option, none, some, arith, ltb, leb,
  ltb→lt, leb→le, Bool-cases,
}
use the_linux_programming_in.Prelude.{update}
use the_linux_programming_in.Prelude.{sum_below}
use the_linux_programming_in.Tls.{
  MainPc, creating, changed, joining, finished, Pc, absent, started, introduced, looping, added,
  locking, locked, loaded, stored, shown, closing, ended, State, Step, main_sets, main_shows,
  create, main_adds, main_shows_again, join, finish, assign, show_first, show_text, add, show_value,
  lock, load, store, show_global, unlock, show_last, show_last_text,
}
use the_linux_programming_in.Tls.Order.{Inside, Guarded}
use the_linux_programming_in.Tls.Places.{Placed-below, IsPlaced, sum_goes, Placed-at, next_absent}
use the_linux_programming_in.Tls.Locals.{IsValid}

abbrev pub weight : Pc → ℕ
weight absent = 40
weight started = 40
weight Pc.assigned = 39
weight introduced = 38
weight (looping i) = 7 * (5 - i) + 2
weight (added i) = 7 * (5 - i) + 1
weight (locking i) = 7 * (5 - i)
weight (locked i) = 7 * (5 - i) - 1
weight (loaded i n) = 7 * (5 - i) - 2
weight (stored i) = 7 * (5 - i) - 3
weight (shown i) = 7 * (5 - i) - 4
weight closing = 1
weight ended = 0

abbrev pub main_weight : MainPc → ℕ
main_weight MainPc.starting = 11
main_weight MainPc.assigned = 10
main_weight (creating n) = 10 - n
main_weight changed = 5
main_weight (joining n) = 5 - n
main_weight finished = 0

abbrev pub measure : State → ℕ
measure s = sum_below (λ t. weight (s.thread t)) 4 + main_weight s.main

module _ {s : State} (v : IsPlaced s) where
  falls :
      (t : ℕ) (p q : Pc)
      → s.thread t ≡ p
      → p ≢ absent
      → weight q < weight p
      → sum_below (λ j. weight (update s.thread t q j)) 4 < sum_below (λ j. weight (s.thread j)) 4
  falls t p q e ne lt =
      let below = Placed-below s.thread t (ground arith) s.main v.placed in
      let same : weight (s.thread t) ≡ weight p = ap weight e in
      omega (arith, sum_goes weight s.thread t q below.1)

pub Step-measure : (s u : State) → IsValid s → Step s u → measure u < measure s
Step-measure s u v (main_sets e) = ground arith
Step-measure s u v (main_shows e) = ground arith
Step-measure s u v (create n e l) =
    ground (arith, sum_goes weight s.thread n started (omega arith), next_absent v.places n e)
Step-measure s u v (main_adds n e l) = let (a, b, c) = Placed-at v.places e in ground arith
Step-measure s u v (main_shows_again e) = ground arith
Step-measure s u v (join n e l f) = ground arith
Step-measure s u v (finish n e l) = let (a, b, c, d) = Placed-at v.places e in ground arith
Step-measure s u v (assign t e) =
    omega (arith, falls v.places t started Pc.assigned e (ground arith) (omega arith))
Step-measure s u v (show_first t e) =
    omega (arith, falls v.places t Pc.assigned introduced e (ground arith) (omega arith))
Step-measure s u v (show_text t e) =
    omega (arith, falls v.places t introduced (looping 0) e (ground arith) (omega arith))
Step-measure s u v (add t i e l) =
    omega (arith, falls v.places t (looping i) (added i) e (ground arith) (omega arith))
Step-measure s u v (show_value t i e) =
    omega (arith, falls v.places t (added i) (locking i) e (ground arith) (omega arith))
Step-measure s u v (lock t i e m) =
    let l : i < 5 = ground (arith, v.places.in_range t) in
    omega (arith, falls v.places t (locking i) (locked i) e (ground arith) (omega arith))
Step-measure s u v (load t i e) =
    let l : i < 5 = ground (arith, v.places.in_range t) in
    omega
      (arith, falls v.places t (locked i) (loaded i s.global_var) e (ground arith) (omega arith))
Step-measure s u v (store t i n e) =
    let l : i < 5 = ground (arith, v.places.in_range t) in
    omega (arith, falls v.places t (loaded i n) (stored i) e (ground arith) (omega arith))
Step-measure s u v (show_global t i e) =
    let l : i < 5 = ground (arith, v.places.in_range t) in
    omega (arith, falls v.places t (stored i) (shown i) e (ground arith) (omega arith))
Step-measure s u v (unlock t i e) =
    let l : i < 5 = ground (arith, v.places.in_range t) in
    omega (arith, falls v.places t (shown i) (looping (i + 1)) e (ground arith) (omega arith))
Step-measure s u v (show_last t i e l) =
    omega (arith, falls v.places t (looping i) closing e (ground arith) (omega arith))
Step-measure s u v (show_last_text t e) =
    omega (arith, falls v.places t closing ended e (ground arith) (omega arith))

-- The thread that has the mutex can go on.
inside_step : (s : State) (t : ℕ) (p : Pc) → s.thread t ≡ p → Inside s p → (u : State) × Step s u
inside_step s t (locked i) e h = (_, load t i e)
inside_step s t (loaded i n) e h = (_, store t i n e)
inside_step s t (stored i) e h = (_, show_global t i e)
inside_step s t (shown i) e h = (_, unlock t i e)
inside_step s t absent e h = absurd h
inside_step s t started e h = absurd h
inside_step s t Pc.assigned e h = absurd h
inside_step s t introduced e h = absurd h
inside_step s t (looping i) e h = absurd h
inside_step s t (added i) e h = absurd h
inside_step s t (locking i) e h = absurd h
inside_step s t closing e h = absurd h
inside_step s t ended e h = absurd h

-- A thread that waits for the mutex takes it, or the one that has it goes on.
lock_step :
    (s : State) (t i : ℕ)
    → s.thread t ≡ locking i
    → (m : Option ℕ) → s.mtx ≡ m
    → Guarded s m
    → (u : State) × Step s u
lock_step s t i e none f h = (_, lock t i e f)
lock_step s t i e (some j) f h = inside_step s j (s.thread j) refl h

pub thread_step :
    (s : State) (t : ℕ) (p : Pc)
    → s.thread t ≡ p
    → p ≢ absent
    → p ≢ ended
    → IsValid s
    → (u : State) × Step s u
thread_step s t absent e a b v = absurd (a refl)
thread_step s t started e a b v = (_, assign t e)
thread_step s t Pc.assigned e a b v = (_, show_first t e)
thread_step s t introduced e a b v = (_, show_text t e)
thread_step s t (looping i) e a b v = elim (Bool-cases (ltb i 5)) [
  | inl l ↦ (_, add t i e (ltb→lt i 5 l))
  | inr l ↦ (_, show_last t i e (ground arith))
]
thread_step s t (added i) e a b v = (_, show_value t i e)
thread_step s t (locking i) e a b v = lock_step s t i e s.mtx refl v.ordered.guarded
thread_step s t (locked i) e a b v = (_, load t i e)
thread_step s t (loaded i n) e a b v = (_, store t i n e)
thread_step s t (stored i) e a b v = (_, show_global t i e)
thread_step s t (shown i) e a b v = (_, unlock t i e)
thread_step s t closing e a b v = (_, show_last_text t e)
thread_step s t ended e a b v = absurd (b refl)

-- The thread that the main thread waits for has ended, or some thread can go on.
join_step :
    (s : State) (n : ℕ) (p : Pc)
    → s.thread n ≡ p
    → p ≢ absent
    → s.main ≡ joining n
    → n ≤ 3
    → IsValid s
    → (u : State) × Step s u
join_step s n ended f a e l v = (_, join n e l f)
join_step s n p f a e l v = thread_step s n p f a (ground arith) v

pub exists_step :
    (s : State) (m : MainPc) → s.main ≡ m → m ≢ finished → IsValid s → (u : State) × Step s u
exists_step s MainPc.starting e h v = (_, main_sets e)
exists_step s MainPc.assigned e h v = (_, main_shows e)
exists_step s (creating n) e h v = elim (Bool-cases (leb n 3)) [
  | inl l ↦ (_, create n e (leb→le n 3 l))
  | inr l ↦ (_, main_adds n e (ground arith))
]
exists_step s changed e h v = (_, main_shows_again e)
exists_step s (joining n) e h v = elim (Bool-cases (leb n 3)) [
  | inl l ↦
      let (a, b, (out, made), d) = Placed-at v.places e in
      join_step s n (s.thread n) refl (made n (omega arith) (ground arith)) e (leb→le n 3 l) v
  | inr l ↦ (_, finish n e (ground arith))
]
exists_step s finished e h v = absurd (h refl)
