-- ===== src/Tls/Locals.antt =====
-- chapter31/tls.c: the values of the thread-local variables that are printed.
use the_linux_programming_in.Prelude.{
  ℕ, zero, suc, ◌+◌, ◌*◌, ◌≡◌, refl, sym, ap, ◌≢◌, Option, some, List, [], ◌∷◌, ◌++◌, arith, ◌==◌,
  if◌then◌else◌,
}
use the_linux_programming_in.Tls.{
  MainPc, creating, changed, joining, finished, Pc, absent, started, introduced, looping, added,
  locking, locked, loaded, stored, shown, closing, ended, Line, value, text, State, init, Step,
  main_sets, main_shows, create, main_adds, main_shows_again, join, finish, assign, show_first,
  show_text, add, show_value, lock, load, store, show_global, unlock, show_last, show_last_text,
}
use the_linux_programming_in.Tls.Order.{IsOrdered, init-IsOrdered, Step-IsOrdered}
use the_linux_programming_in.Tls.Places.{
  Placed-below, InRange, IsPlaced, init-IsPlaced, next_absent, Step-IsPlaced,
}

-- The values of its own variable that a thread has printed, in order
abbrev pub values : ℕ → List Line → List ℕ
values t [] = []
values t (value u n ∷ ls) = if u == t then values t ls ++ (n ∷ []) else values t ls
values t (l ∷ ls) = values t ls

-- Each line with the text of a buffer names the thread that prints it.
abbrev pub OwnTexts : List Line → Type 0
OwnTexts [] = Unit
OwnTexts (text t w ∷ ls) = (w ≡ some t) × OwnTexts ls
OwnTexts (l ∷ ls) = OwnTexts ls

-- The numbers 100, 110 and so on, so many
abbrev pub tens : ℕ → List ℕ
tens zero = []
tens (suc n) = tens n ++ ((100 + 10 * n) ∷ [])

tens-next : (i : ℕ) → tens (i + 1) ++ ((100 + 10 * (i + 1)) ∷ []) ≡ tens (i + 2)
tens-next i = let next : i + 2 ≡ suc (i + 1) = omega arith in sym (ap tens next)

-- What a thread has in its variables, and has printed
abbrev pub Own : ℕ → ℕ → Option ℕ → List ℕ → Pc → Type 0
Own t n w ns absent = ns ≡ []
Own t n w ns started = ns ≡ []
Own t n w ns Pc.assigned = (ns ≡ []) × (n ≡ 100) × (w ≡ some t)
Own t n w ns introduced = (ns ≡ tens 1) × (n ≡ 100) × (w ≡ some t)
Own t n w ns (looping i) = (ns ≡ tens (i + 1)) × (n ≡ 100 + 10 * i) × (w ≡ some t)
Own t n w ns (added i) = (ns ≡ tens (i + 1)) × (n ≡ 100 + 10 * (i + 1)) × (w ≡ some t)
Own t n w ns (locking i) = (ns ≡ tens (i + 2)) × (n ≡ 100 + 10 * (i + 1)) × (w ≡ some t)
Own t n w ns (locked i) = (ns ≡ tens (i + 2)) × (n ≡ 100 + 10 * (i + 1)) × (w ≡ some t)
Own t n w ns (loaded i g) = (ns ≡ tens (i + 2)) × (n ≡ 100 + 10 * (i + 1)) × (w ≡ some t)
Own t n w ns (stored i) = (ns ≡ tens (i + 2)) × (n ≡ 100 + 10 * (i + 1)) × (w ≡ some t)
Own t n w ns (shown i) = (ns ≡ tens (i + 2)) × (n ≡ 100 + 10 * (i + 1)) × (w ≡ some t)
Own t n w ns closing = (ns ≡ tens 6 ++ (150 ∷ [])) × (w ≡ some t)
Own t n w ns ended = ns ≡ tens 6 ++ (150 ∷ [])

abbrev pub MainOwn : ℕ → Option ℕ → List ℕ → MainPc → Type 0
MainOwn n w ns MainPc.starting = ns ≡ []
MainOwn n w ns MainPc.assigned = (ns ≡ []) × (n ≡ 999) × (w ≡ some 0)
MainOwn n w ns (creating m) = (ns ≡ 999 ∷ []) × (n ≡ 999) × (w ≡ some 0)
MainOwn n w ns changed = (ns ≡ 999 ∷ []) × (n ≡ 1049) × (w ≡ some 0)
MainOwn n w ns (joining m) = (ns ≡ 999 ∷ 1049 ∷ []) × (n ≡ 1049) × (w ≡ some 0)
MainOwn n w ns finished = ns ≡ 999 ∷ 1049 ∷ 1049 ∷ []

abbrev pub OwnOf : State → ℕ → Type 0
OwnOf s t = Own t (s.tls_var t) (s.tls_buffer t) (values t s.output) (s.thread t)

pub record IsOwn (s : State) : Type 0 where
  pub main_own : MainOwn (s.tls_var 0) (s.tls_buffer 0) (values 0 s.output) s.main
  pub own : (t : ℕ) → t ≢ 0 → OwnOf s t
  pub texts : OwnTexts s.output

pub init-IsOwn : IsOwn init
init-IsOwn = record { main_own = refl; own = λ t ne. refl; texts = tt }

module _ {s : State} (v : IsOwn s) (there : (t : ℕ) → s.thread t ≢ absent → t ≢ 0) where
  Step-own :
      {u : State}
      → (fresh : (n : ℕ) → s.main ≡ creating n → s.thread n ≡ absent)
      → ((t : ℕ) → InRange (s.thread t))
      → Step s u
      → (j : ℕ) → j ≢ 0
      → OwnOf u j
  Step-own fresh range (main_sets e) j ne = ground (arith, v.own j)
  Step-own fresh range (main_shows e) j ne = ground (arith, v.own j)
  Step-own fresh range (create n e l) j ne = ground (arith, v.own j, fresh n)
  Step-own fresh range (main_adds n e l) j ne = ground (arith, v.own j)
  Step-own fresh range (main_shows_again e) j ne = ground (arith, v.own j)
  Step-own fresh range (join n e l f) j ne = ground (arith, v.own j)
  Step-own fresh range (finish n e l) j ne = ground (arith, v.own j)
  Step-own fresh range (assign t e) j ne = ground (arith, v.own j)
  Step-own fresh range (show_first t e) j ne = ground (arith, v.own j)
  Step-own fresh range (show_text t e) j ne = ground (arith, v.own j)
  Step-own fresh range (add t i e l) j ne = ground (arith, v.own j)
  Step-own fresh range (show_value t i e) j ne = ground (arith, v.own j, tens-next i)
  Step-own fresh range (lock t i e m) j ne = ground (arith, v.own j)
  Step-own fresh range (load t i e) j ne = ground (arith, v.own j)
  Step-own fresh range (store t i n e) j ne = ground (arith, v.own j)
  Step-own fresh range (show_global t i e) j ne = ground (arith, v.own j)
  Step-own fresh range (unlock t i e) j ne = ground (arith, v.own j)
  Step-own fresh range (show_last t i e l) j ne = ground (arith, v.own j, range t)
  Step-own fresh range (show_last_text t e) j ne = ground (arith, v.own j)

  Step-MainOwn :
      {u : State} → Step s u → MainOwn (u.tls_var 0) (u.tls_buffer 0) (values 0 u.output) u.main
  Step-MainOwn (main_sets e) = ground (arith, v.main_own)
  Step-MainOwn (main_shows e) = ground (arith, v.main_own)
  Step-MainOwn (create n e l) = ground (arith, v.main_own)
  Step-MainOwn (main_adds n e l) = ground (arith, v.main_own)
  Step-MainOwn (main_shows_again e) = ground (arith, v.main_own)
  Step-MainOwn (join n e l f) = ground (arith, v.main_own)
  Step-MainOwn (finish n e l) = ground (arith, v.main_own)
  Step-MainOwn (assign t e) = ground (arith, v.main_own, there t)
  Step-MainOwn (show_first t e) = ground (arith, v.main_own, there t)
  Step-MainOwn (show_text t e) = ground (arith, v.main_own, there t)
  Step-MainOwn (add t i e l) = ground (arith, v.main_own, there t)
  Step-MainOwn (show_value t i e) = ground (arith, v.main_own, there t)
  Step-MainOwn (lock t i e m) = ground (arith, v.main_own)
  Step-MainOwn (load t i e) = ground (arith, v.main_own)
  Step-MainOwn (store t i n e) = ground (arith, v.main_own)
  Step-MainOwn (show_global t i e) = ground (arith, v.main_own)
  Step-MainOwn (unlock t i e) = ground (arith, v.main_own)
  Step-MainOwn (show_last t i e l) = ground (arith, v.main_own, there t)
  Step-MainOwn (show_last_text t e) = ground (arith, v.main_own, there t)

  Step-texts : {u : State} → Step s u → OwnTexts u.output
  Step-texts (main_sets e) = v.texts
  Step-texts (main_shows e) = ground (arith, v.main_own, v.texts)
  Step-texts (create n e l) = v.texts
  Step-texts (main_adds n e l) = v.texts
  Step-texts (main_shows_again e) = v.texts
  Step-texts (join n e l f) = v.texts
  Step-texts (finish n e l) = ground (arith, v.main_own, v.texts)
  Step-texts (assign t e) = v.texts
  Step-texts (show_first t e) = v.texts
  Step-texts (show_text t e) = ground (arith, v.own t, there t, v.texts)
  Step-texts (add t i e l) = v.texts
  Step-texts (show_value t i e) = v.texts
  Step-texts (lock t i e m) = v.texts
  Step-texts (load t i e) = v.texts
  Step-texts (store t i n e) = v.texts
  Step-texts (show_global t i e) = v.texts
  Step-texts (unlock t i e) = v.texts
  Step-texts (show_last t i e l) = v.texts
  Step-texts (show_last_text t e) = ground (arith, v.own t, there t, v.texts)

-- All that holds of a state of a run
pub record IsValid (s : State) : Type 0 where
  pub ordered : IsOrdered s
  pub places : IsPlaced s
  pub owns : IsOwn s

pub init-IsValid : IsValid init
init-IsValid = record { ordered = init-IsOrdered; places = init-IsPlaced; owns = init-IsOwn }

pub not_main : {s : State} → IsPlaced s → (t : ℕ) → s.thread t ≢ absent → t ≢ 0
not_main {s = s} v t here =
    let below = Placed-below s.thread t here s.main v.placed in ground (arith, below.0)

pub Step-IsValid : (s u : State) → IsValid s → Step s u → IsValid u
Step-IsValid s u v x =
    let fresh = next_absent v.places in
    let there = not_main v.places in
    record {
      ordered = Step-IsOrdered fresh v.ordered x;
      places = Step-IsPlaced v.places v.ordered x;
      owns = record {
        main_own = Step-MainOwn v.owns there x;
        own = Step-own v.owns there fresh v.places.in_range x;
        texts = Step-texts v.owns there x;
      };
    }
