-- ===== src/Tls/Laws.antt =====
-- chapter31/tls.c: what the program prints, and that it comes to its end.
use the_linux_programming_in.Prelude.{
  ℕ, ◌≤◌, ◌<◌, ◌≡◌, refl, ap, ◌∙◌, ◌≢◌, inl, inr, ◌&&◌, Option, none, some, List, [], ◌∷◌, ◌++◌,
  arith, ltb, Bool-cases,
}
use the_linux_programming_in.Prelude.{Run, Run-keeps, Run-bounded}
use the_linux_programming_in.Prelude.{sum_below_four, le-sum_below}
use the_linux_programming_in.Tls.{
  finished, Pc, absent, started, introduced, looping, added, locking, locked, loaded, stored, shown,
  closing, ended, State, init, Step,
}
use the_linux_programming_in.Tls.Order.{globals, count_up, Inside, Guarded}
use the_linux_programming_in.Tls.Places.{Placed, rounds, IsPlaced, Placed-at}
use the_linux_programming_in.Tls.Locals.{
  values, OwnTexts, tens, IsValid, init-IsValid, not_main, Step-IsValid,
}
use the_linux_programming_in.Tls.Progress.{weight, measure, Step-measure, exists_step}

-- The values that a thread prints: 100 to 150 by tens, and 150 once more
abbrev pub all_values : List ℕ
all_values = tens 6 ++ (150 ∷ [])

Inside-counts : (s : State) (p : Pc) → Inside s p → (n : ℕ) × (globals s.output ≡ count_up n)
Inside-counts s (locked i) h = (s.global_var, h)
Inside-counts s (loaded i n) h = (s.global_var, h.0)
Inside-counts s (stored i) (n, a, b) = (n, b)
Inside-counts s (shown i) h = (s.global_var, h)
Inside-counts s absent h = absurd h
Inside-counts s started h = absurd h
Inside-counts s Pc.assigned h = absurd h
Inside-counts s introduced h = absurd h
Inside-counts s (looping i) h = absurd h
Inside-counts s (added i) h = absurd h
Inside-counts s (locking i) h = absurd h
Inside-counts s closing h = absurd h
Inside-counts s ended h = absurd h

counts : (s : State) (m : Option ℕ) → Guarded s m → (n : ℕ) × (globals s.output ≡ count_up n)
counts s none h = (s.global_var, h)
counts s (some t) h = Inside-counts s (s.thread t) h

-- When all threads are joined, none is in its critical section.
joined_apart : (s : State) (t : ℕ) → Placed finished s.thread → ¬ Inside s (s.thread t)
joined_apart s t ((out, made), all) h = elim (Bool-cases (ltb 0 t && ltb t 4)) [
  | inl y ↦ ground (arith, all t, h)
  | inr y ↦ ground (arith, out t, h)
]

all_counted :
    (s : State) (m : Option ℕ)
    → Placed finished s.thread
    → Guarded s m
    → globals s.output ≡ count_up s.global_var
all_counted s none p h = h
all_counted s (some t) p h = absurd (joined_apart s t p h)

all_rounds : (s : State) → IsPlaced s → Placed finished s.thread → s.global_var ≡ 15
all_rounds s v ((out, made), all) =
    let a0 : rounds (s.thread 0) ≡ 0 = ap rounds (out 0 (inl refl)) in
    let a1 : rounds (s.thread 1) ≡ 5 = ap rounds (all 1 (omega arith) (omega arith)) in
    let a2 : rounds (s.thread 2) ≡ 5 = ap rounds (all 2 (omega arith) (omega arith)) in
    let a3 : rounds (s.thread 3) ≡ 5 = ap rounds (all 3 (omega arith) (omega arith)) in
    omega (arith, v.counted, sum_below_four (λ t. rounds (s.thread t)))

-- Every run comes to the end of the main thread: until then some step is possible, and no run has more
-- than 131 steps.
main_ends :
    (k : ℕ) (s : State)
    → Run Step init k s
    → (k ≤ 131) × (s.main ≢ finished → (u : State) × Step s u)
main_ends k s r =
    let v = Run-keeps IsValid Step-IsValid init-IsValid r in
    let main_absent : s.thread 0 ≡ absent = ground (arith, not_main v.places 0) in
    let kept : weight (s.thread 0) ≡ 40 = ap weight main_absent in
    (
      omega (
        arith,
        kept,
        le-sum_below (λ t. weight (s.thread t)) 0 4 (omega arith),
        sum_below_four (λ t. 40),
        Run-bounded IsValid measure Step-IsValid Step-measure init-IsValid r,
      ),
      λ h. exists_step s s.main refl h v,
    )

-- Every run comes to the end of the main thread: until then some step is possible, and no run has more
-- than 131 steps. In every run, whatever the threads do in between: the values of the global variable that are printed
-- are 1, 2 and so on, in order; each line with the text of a thread-local buffer has that of the thread
-- that prints it; a thread that has ended has printed 100, 110 and so on to 150 of its own variable, and
-- 150 once more. When the main thread has come to its end, all three threads have ended, the values of
-- the global variable are 1 to 15, it is 15, and the main thread has printed 999, 1049 and 1049 of its
-- own variable.
pub printed_in_order :
    (k : ℕ) (s : State)
    → Run Step init k s
    → ((k ≤ 131) × (s.main ≢ finished → (u : State) × Step s u))
      × ((n : ℕ) × (globals s.output ≡ count_up n))
      × OwnTexts s.output
      × ((t : ℕ) → s.thread t ≡ ended → values t s.output ≡ all_values)
      × (s.main ≡ finished
          → ((t : ℕ) → 0 < t → t < 4 → s.thread t ≡ ended)
            × (globals s.output ≡ count_up 15)
            × (s.global_var ≡ 15)
            × (values 0 s.output ≡ 999 ∷ 1049 ∷ 1049 ∷ []))
printed_in_order k s r =
    let v = Run-keeps IsValid Step-IsValid init-IsValid r in
    (
      main_ends k s r,
      counts s s.mtx v.ordered.guarded,
      v.owns.texts,
      λ t e. ground (arith, v.owns.own t, not_main v.places t),
      λ e.
          let all = Placed-at v.places e in
          let fifteen = all_rounds s v.places all in
          (
            all.1,
            all_counted s s.mtx all v.ordered.guarded ∙ ap count_up fifteen,
            fifteen,
            ground (arith, v.owns.main_own),
          ),
    )
