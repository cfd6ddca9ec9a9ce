-- ===== src/Tls/Order.antt =====
-- chapter31/tls.c: the mutex, and the values of the global variable that are printed.
use the_linux_programming_in.Prelude.{
  ℕ, zero, suc, ◌+◌, ◌≡◌, refl, sym, ap, ◌∙◌, Option, none, some, List, [], ◌∷◌, ◌++◌, arith,
}
use mathlib.Core.Path.{subst}
use the_linux_programming_in.Tls.{
  creating, Pc, absent, started, introduced, looping, added, locking, locked, loaded, stored, shown,
  closing, ended, Line, global, State, init, Step, main_sets, main_shows, create, main_adds,
  main_shows_again, join, finish, assign, show_first, show_text, add, show_value, lock, load, store,
  show_global, unlock, show_last, show_last_text,
}

-- The values of the global variable that are printed, in order
abbrev pub globals : List Line → List ℕ
globals [] = []
globals (global t n ∷ ls) = globals ls ++ (n ∷ [])
globals (l ∷ ls) = globals ls

-- The numbers from 1 on, so many
abbrev pub count_up : ℕ → List ℕ
count_up zero = []
count_up (suc n) = count_up n ++ ((n + 1) ∷ [])

-- What a thread in its critical section knows
abbrev pub Inside : State → Pc → Type 0
Inside s (locked i) = globals s.output ≡ count_up s.global_var
Inside s (loaded i n) = (globals s.output ≡ count_up s.global_var) × (n ≡ s.global_var)
Inside s (stored i) = (n : ℕ) × (s.global_var ≡ n + 1) × (globals s.output ≡ count_up n)
Inside s (shown i) = globals s.output ≡ count_up s.global_var
Inside s p = ⊥

abbrev pub InSection : Pc → Type 0
InSection (locked i) = Unit
InSection (loaded i n) = Unit
InSection (stored i) = Unit
InSection (shown i) = Unit
InSection p = ⊥

abbrev pub Guarded : State → Option ℕ → Type 0
Guarded s none = globals s.output ≡ count_up s.global_var
Guarded s (some t) = Inside s (s.thread t)

pub record IsOrdered (s : State) : Type 0 where
  pub guarded : Guarded s s.mtx
  pub holds : (t : ℕ) → InSection (s.thread t) → s.mtx ≡ some t

pub init-IsOrdered : IsOrdered init
init-IsOrdered = record { guarded = refl; holds = λ t h. absurd h }

Step-holds :
    {s u : State} → IsOrdered s → Step s u → (t : ℕ) → InSection (u.thread t) → u.mtx ≡ some t
Step-holds v (main_sets e) j h = ground (arith, v.holds j)
Step-holds v (main_shows e) j h = ground (arith, v.holds j)
Step-holds v (create n e l) j h = ground (arith, v.holds j)
Step-holds v (main_adds n e l) j h = ground (arith, v.holds j)
Step-holds v (main_shows_again e) j h = ground (arith, v.holds j)
Step-holds v (join n e l f) j h = ground (arith, v.holds j)
Step-holds v (finish n e l) j h = ground (arith, v.holds j)
Step-holds v (assign t e) j h = ground (arith, v.holds j)
Step-holds v (show_first t e) j h = ground (arith, v.holds j)
Step-holds v (show_text t e) j h = ground (arith, v.holds j)
Step-holds v (add t i e l) j h = ground (arith, v.holds j)
Step-holds v (show_value t i e) j h = ground (arith, v.holds j)
Step-holds v (lock t i e m) j h = ground (arith, v.holds j)
Step-holds v (load t i e) j h = ground (arith, v.holds j, v.holds t)
Step-holds v (store t i n e) j h = ground (arith, v.holds j, v.holds t)
Step-holds v (show_global t i e) j h = ground (arith, v.holds j, v.holds t)
Step-holds v (unlock t i e) j h = ground (arith, v.holds j, v.holds t)
Step-holds v (show_last t i e l) j h = ground (arith, v.holds j)
Step-holds v (show_last_text t e) j h = ground (arith, v.holds j)

-- What the thread that is in its critical section knows now, and that it has the mutex
pub guarded_now :
    {s : State} {p : Pc}
    → IsOrdered s
    → (t : ℕ) → s.thread t ≡ p
    → InSection p
    → (Inside s p) × (s.mtx ≡ some t)
guarded_now {s = s} v t e h =
    let m = v.holds t (subst InSection (sym e) h) in
    (subst (Inside s) e (subst (Guarded s) m v.guarded), m)

Guarded-at :
    (u : State) (t : ℕ) (p : Pc) → u.mtx ≡ some t → u.thread t ≡ p → Inside u p → Guarded u u.mtx
Guarded-at u t p m e h = subst (Guarded u) (sym m) (subst (Inside u) (sym e) h)

-- What a thread in its critical section knows depends on the variable and the lines for it only.
Inside-same :
    (s u : State) (p : Pc)
    → u.global_var ≡ s.global_var
    → globals u.output ≡ globals s.output
    → Inside s p
    → (Inside u p) × (InSection p)
Inside-same s u (locked i) e f h = (ground arith, tt)
Inside-same s u (loaded i n) e f h = (ground arith, tt)
Inside-same s u (stored i) e f (n, h1, h2) = ((n, ground arith, ground arith), tt)
Inside-same s u (shown i) e f h = (ground arith, tt)
Inside-same s u absent e f h = absurd h
Inside-same s u started e f h = absurd h
Inside-same s u Pc.assigned e f h = absurd h
Inside-same s u introduced e f h = absurd h
Inside-same s u (looping i) e f h = absurd h
Inside-same s u (added i) e f h = absurd h
Inside-same s u (locking i) e f h = absurd h
Inside-same s u closing e f h = absurd h
Inside-same s u ended e f h = absurd h

-- A step of a thread that is not in its critical section
Guarded-same :
    (s u : State) (m : Option ℕ)
    → u.global_var ≡ s.global_var
    → globals u.output ≡ globals s.output
    → ((j : ℕ) → InSection (s.thread j) → u.thread j ≡ s.thread j)
    → Guarded s m
    → Guarded u m
Guarded-same s u none e f same h = f ∙ h ∙ ap count_up (sym e)
Guarded-same s u (some j) e f same h =
    let (inside, section) = Inside-same s u (s.thread j) e f h in
    subst (Inside u) (sym (same j section)) inside

Step-guarded :
    {s u : State}
    → ((n : ℕ) → s.main ≡ creating n → s.thread n ≡ absent)
    → IsOrdered s
    → Step s u
    → Guarded u u.mtx
Step-guarded {s = s} {u = u} fresh v (main_sets e) =
    Guarded-same s u s.mtx refl refl (λ j h. refl) v.guarded
Step-guarded {s = s} {u = u} fresh v (main_shows e) =
    Guarded-same s u s.mtx refl refl (λ j h. refl) v.guarded
Step-guarded {s = s} {u = u} fresh v (create n e l) =
    Guarded-same s u s.mtx refl refl (λ j h. ground (arith, fresh n e)) v.guarded
Step-guarded {s = s} {u = u} fresh v (main_adds n e l) =
    Guarded-same s u s.mtx refl refl (λ j h. refl) v.guarded
Step-guarded {s = s} {u = u} fresh v (main_shows_again e) =
    Guarded-same s u s.mtx refl refl (λ j h. refl) v.guarded
Step-guarded {s = s} {u = u} fresh v (join n e l f) =
    Guarded-same s u s.mtx refl refl (λ j h. refl) v.guarded
Step-guarded {s = s} {u = u} fresh v (finish n e l) =
    Guarded-same s u s.mtx refl refl (λ j h. refl) v.guarded
Step-guarded {s = s} {u = u} fresh v (assign t e) =
    Guarded-same s u s.mtx refl refl (λ j h. ground arith) v.guarded
Step-guarded {s = s} {u = u} fresh v (show_first t e) =
    Guarded-same s u s.mtx refl refl (λ j h. ground arith) v.guarded
Step-guarded {s = s} {u = u} fresh v (show_text t e) =
    Guarded-same s u s.mtx refl refl (λ j h. ground arith) v.guarded
Step-guarded {s = s} {u = u} fresh v (add t i e l) =
    Guarded-same s u s.mtx refl refl (λ j h. ground arith) v.guarded
Step-guarded {s = s} {u = u} fresh v (show_value t i e) =
    Guarded-same s u s.mtx refl refl (λ j h. ground arith) v.guarded
Step-guarded {s = s} {u = u} fresh v (lock t i e m) = ground (arith, v.guarded)
Step-guarded {s = s} {u = u} fresh v (load t i e) =
    let (h, m) = guarded_now v t e tt in
    Guarded-at u t (loaded i s.global_var) m (ground arith) (h, refl)
Step-guarded {s = s} {u = u} fresh v (store t i n e) =
    let (h, m) = guarded_now v t e tt in
    Guarded-at u t (stored i) m (ground arith) (n, refl, ground arith)
Step-guarded {s = s} {u = u} fresh v (show_global t i e) =
    let ((n, after, before), m) = guarded_now v t e tt in
    let next : s.global_var ≡ suc n = omega arith in
    Guarded-at u t (shown i) m (ground arith) (
      ap (λ ns. ns ++ (s.global_var ∷ [])) before
      ∙ ap (λ g. count_up n ++ (g ∷ [])) after
      ∙ sym (ap count_up next))
Step-guarded {s = s} {u = u} fresh v (unlock t i e) = (guarded_now v t e tt).0
Step-guarded {s = s} {u = u} fresh v (show_last t i e l) =
    Guarded-same s u s.mtx refl refl (λ j h. ground arith) v.guarded
Step-guarded {s = s} {u = u} fresh v (show_last_text t e) =
    Guarded-same s u s.mtx refl refl (λ j h. ground arith) v.guarded

pub Step-IsOrdered :
    {s u : State}
    → ((n : ℕ) → s.main ≡ creating n → s.thread n ≡ absent)
    → IsOrdered s
    → Step s u
    → IsOrdered u
Step-IsOrdered fresh v x = record { guarded = Step-guarded fresh v x; holds = Step-holds v x }
