-- ===== src/Tls/Places.antt =====
-- chapter31/tls.c: which threads there are, and how often each has stepped the global variable.
use the_linux_programming_in.Prelude.{
  ℕ, ◌+◌, ◌≤◌, ◌<◌, ◌≡◌, refl, sym, ◌∙◌, ◌≢◌, ◌⊎◌, inl, inr, ◌&&◌, arith, ltb, Bool-cases,
}
use the_linux_programming_in.Prelude.{update}
use mathlib.Core.Path.{subst}
use the_linux_programming_in.Tls.{
  MainPc, creating, changed, joining, finished, Pc, absent, started, introduced, looping, added,
  locking, locked, loaded, stored, shown, closing, ended, State, init, Step, main_sets, main_shows,
  create, main_adds, main_shows_again, join, finish, assign, show_first, show_text, add, show_value,
  lock, load, store, show_global, unlock, show_last, show_last_text,
}
use the_linux_programming_in.Tls.Order.{IsOrdered, guarded_now}
use the_linux_programming_in.Prelude.{sum_below, sum_below_change, sum_below-eq-zero}

-- The threads 1 to n - 1 are made.
abbrev pub Created : ℕ → (ℕ → Pc) → Type 0
Created n thread =
    ((t : ℕ) → t ≡ 0 ⊎ n ≤ t → thread t ≡ absent) × ((t : ℕ) → 0 < t → t < n → thread t ≢ absent)

abbrev pub Joined : ℕ → (ℕ → Pc) → Type 0
Joined n thread = (t : ℕ) → 0 < t → t < n → thread t ≡ ended

abbrev pub Placed : MainPc → (ℕ → Pc) → Type 0
Placed MainPc.starting thread = Created 1 thread
Placed MainPc.assigned thread = Created 1 thread
Placed (creating n) thread = (0 < n) × (n ≤ 4) × Created n thread
Placed changed thread = Created 4 thread
Placed (joining n) thread = (0 < n) × (n ≤ 4) × Created 4 thread × Joined n thread
Placed finished thread = Created 4 thread × Joined 4 thread

module _ (thread : ℕ → Pc) (t : ℕ) (here : thread t ≢ absent) where
  goes-Created : (p : Pc) (n : ℕ) → p ≢ absent → Created n thread → Created n (update thread t p)
  goes-Created p n made (out, made_all) =
      (λ j h. ground (arith, out j h), λ j a b. ground (arith, made_all j a b))

  goes-Joined : (p : Pc) (n : ℕ) → thread t ≢ ended → Joined n thread → Joined n (update thread t p)
  goes-Joined p n going h = λ j a b. ground (arith, h j a b)

  -- A thread that has not ended goes on.
  pub goes-Placed :
      (p : Pc) (m : MainPc)
      → p ≢ absent
      → thread t ≢ ended
      → Placed m thread
      → Placed m (update thread t p)
  goes-Placed p MainPc.starting made going v = goes-Created p 1 made v
  goes-Placed p MainPc.assigned made going v = goes-Created p 1 made v
  goes-Placed p (creating n) made going (a, b, v) = (a, b, goes-Created p n made v)
  goes-Placed p changed made going v = goes-Created p 4 made v
  goes-Placed p (joining n) made going (a, b, v, w) =
      (a, b, goes-Created p 4 made v, goes-Joined p n going w)
  goes-Placed p finished made going (v, w) = (goes-Created p 4 made v, goes-Joined p 4 going w)

  made_below : (n : ℕ) → n ≤ 4 → Created n thread → (0 < t) × (t < 4)
  made_below n l (out, made) = elim (Bool-cases (ltb 0 t && ltb t n)) [
    | inl y ↦ (ground arith, ground arith)
    | inr y ↦ absurd (here (out t (ground arith)))
  ]

  -- Only the threads 1, 2 and 3 are ever made.
  pub Placed-below : (m : MainPc) → Placed m thread → (0 < t) × (t < 4)
  Placed-below MainPc.starting v = made_below 1 (omega arith) v
  Placed-below MainPc.assigned v = made_below 1 (omega arith) v
  Placed-below (creating n) (a, b, v) = made_below n b v
  Placed-below changed v = made_below 4 (omega arith) v
  Placed-below (joining n) (a, b, v, w) = made_below 4 (omega arith) v
  Placed-below finished (v, w) = made_below 4 (omega arith) v

-- How often a thread has stepped the global variable
abbrev pub rounds : Pc → ℕ
rounds (looping i) = i
rounds (added i) = i
rounds (locking i) = i
rounds (locked i) = i
rounds (loaded i n) = i
rounds (stored i) = i + 1
rounds (shown i) = i + 1
rounds closing = 5
rounds ended = 5
rounds p = 0

abbrev pub InRange : Pc → Type 0
InRange (looping i) = i ≤ 5
InRange (added i) = i < 5
InRange (locking i) = i < 5
InRange (locked i) = i < 5
InRange (loaded i n) = i < 5
InRange (stored i) = i < 5
InRange (shown i) = i < 5
InRange p = Unit

pub record IsPlaced (s : State) : Type 0 where
  pub placed : Placed s.main s.thread
  pub in_range : (t : ℕ) → InRange (s.thread t)
  pub counted : sum_below (λ t. rounds (s.thread t)) 4 ≡ s.global_var

pub init-IsPlaced : IsPlaced init
init-IsPlaced = record {
  placed = (λ t h. refl, λ t a b. absurd (omega arith));
  in_range = λ t. tt;
  counted = sum_below-eq-zero (λ t. 0) 4 (λ j lt. refl);
}

pub sum_goes :
    (f : Pc → ℕ) (thread : ℕ → Pc) (t : ℕ) (p : Pc)
    → t < 4
    → sum_below (λ j. f (thread j)) 4 + f p
      ≡ sum_below (λ j. f (update thread t p j)) 4 + f (thread t)
sum_goes f thread t p lt = ground (
  arith,
  sum_below_change (λ j. f (thread j)) (λ j. f (update thread t p j)) t 4 lt (λ j ne. ground arith),
)

-- The state after a step of a thread, for what is counted
module _ {s : State} (v : IsPlaced s) where
  -- A thread that goes on, and steps the global variable so often
  IsPlaced-goes :
      (u : State) (t : ℕ) (p q : Pc)
      → u.main ≡ s.main
      → u.thread ≡ update s.thread t q
      → s.thread t ≡ p
      → p ≢ absent
      → p ≢ ended
      → q ≢ absent
      → InRange q
      → u.global_var + rounds p ≡ s.global_var + rounds q
      → IsPlaced u
  IsPlaced-goes u t p q em et ep pa pe qa r g =
      let here : s.thread t ≢ absent = ground arith in
      let below = Placed-below s.thread t here s.main v.placed in
      record {
        placed =
            subst (λ m. Placed m u.thread) (sym em)
              (subst (Placed s.main) (sym et)
                (goes-Placed s.thread t here q s.main qa (ground arith) v.placed));
        in_range = λ j. subst (λ f. InRange (f j)) (sym et) (ground (arith, v.in_range j));
        counted =
            subst (λ f. sum_below (λ j. rounds (f j)) 4 ≡ u.global_var) (sym et)
              (ground (arith, sum_goes rounds s.thread t q below.1, v.counted));
      }

  pub Placed-at : {m : MainPc} → s.main ≡ m → Placed m s.thread
  Placed-at e = subst (λ m. Placed m s.thread) e v.placed

  -- A step of the main thread that makes no thread
  IsPlaced-main :
      (u : State)
      → u.thread ≡ s.thread
      → u.global_var ≡ s.global_var
      → Placed u.main s.thread
      → IsPlaced u
  IsPlaced-main u et eg h = record {
    placed = subst (Placed u.main) (sym et) h;
    in_range = λ j. subst (λ f. InRange (f j)) (sym et) (v.in_range j);
    counted =
        subst (λ f. sum_below (λ j. rounds (f j)) 4 ≡ u.global_var) (sym et) (v.counted ∙ sym eg);
  }

  pub next_absent : (n : ℕ) → s.main ≡ creating n → s.thread n ≡ absent
  next_absent n e = let (a, b, (out, made)) = Placed-at e in out n (inr (omega arith))

  creates :
      (n : ℕ) → s.main ≡ creating n → n ≤ 3 → Placed (creating (n + 1)) (update s.thread n started)
  creates n e l =
      let (a, b, (out, made)) = Placed-at e in
      (omega arith, omega arith, (λ j h. ground (arith, h, out j), λ j c d. ground (arith, made j)))

pub Step-IsPlaced : {s u : State} → IsPlaced s → IsOrdered s → Step s u → IsPlaced u
Step-IsPlaced {u = u} v w (main_sets e) = IsPlaced-main v u refl refl (Placed-at v e)
Step-IsPlaced {u = u} v w (main_shows e) =
    let (out, made) = Placed-at v e in
    IsPlaced-main v u refl refl (omega arith, omega arith, (out, made))
Step-IsPlaced {s = s} {u = u} v w (create n e l) = record {
  placed = creates v n e l;
  in_range = λ j. ground (arith, v.in_range j);
  counted =
      ground
        (arith, sum_goes rounds s.thread n started (omega arith), v.counted, next_absent v n e);
}
Step-IsPlaced {s = s} {u = u} v w (main_adds n e l) =
    let (a, b, c) = Placed-at v e in
    IsPlaced-main v u refl refl (subst (λ m. Created m s.thread) (omega arith) c)
Step-IsPlaced {u = u} v w (main_shows_again e) =
    IsPlaced-main v u refl refl
      (omega arith, omega arith, Placed-at v e, λ j a b. absurd (omega arith))
Step-IsPlaced {u = u} v w (join n e l f) =
    let (a, b, c, d) = Placed-at v e in
    IsPlaced-main v u refl refl (omega arith, omega arith, c, λ j x y. ground (arith, d j x))
Step-IsPlaced {s = s} {u = u} v w (finish n e l) =
    let (a, b, c, d) = Placed-at v e in
    IsPlaced-main v u refl refl (c, subst (λ m. Joined m s.thread) (omega arith) d)
Step-IsPlaced {u = u} v w (assign t e) =
    IsPlaced-goes v u t started Pc.assigned refl refl e (ground arith) (ground arith) (ground arith)
      tt refl
Step-IsPlaced {u = u} v w (show_first t e) =
    IsPlaced-goes v u t Pc.assigned introduced refl refl e (ground arith) (ground arith)
      (ground arith) tt refl
Step-IsPlaced {u = u} v w (show_text t e) =
    IsPlaced-goes v u t introduced (looping 0) refl refl e (ground arith) (ground arith)
      (ground arith) (omega arith) refl
Step-IsPlaced {u = u} v w (add t i e l) =
    IsPlaced-goes v u t (looping i) (added i) refl refl e (ground arith) (ground arith)
      (ground arith) l refl
Step-IsPlaced {u = u} v w (show_value t i e) =
    IsPlaced-goes v u t (added i) (locking i) refl refl e (ground arith) (ground arith)
      (ground arith) (ground (arith, v.in_range t)) refl
Step-IsPlaced {u = u} v w (lock t i e m) =
    IsPlaced-goes v u t (locking i) (locked i) refl refl e (ground arith) (ground arith)
      (ground arith) (ground (arith, v.in_range t)) refl
Step-IsPlaced {s = s} {u = u} v w (load t i e) =
    IsPlaced-goes v u t (locked i) (loaded i s.global_var) refl refl e (ground arith) (ground arith)
      (ground arith) (ground (arith, v.in_range t)) refl
Step-IsPlaced {u = u} v w (store t i n e) =
    let ((h, same), m) = guarded_now w t e tt in
    IsPlaced-goes v u t (loaded i n) (stored i) refl refl e (ground arith) (ground arith)
      (ground arith) (ground (arith, v.in_range t)) (omega arith)
Step-IsPlaced {u = u} v w (show_global t i e) =
    IsPlaced-goes v u t (stored i) (shown i) refl refl e (ground arith) (ground arith)
      (ground arith) (ground (arith, v.in_range t)) refl
Step-IsPlaced {u = u} v w (unlock t i e) =
    IsPlaced-goes v u t (shown i) (looping (i + 1)) refl refl e (ground arith) (ground arith)
      (ground arith) (ground (arith, v.in_range t)) refl
Step-IsPlaced {u = u} v w (show_last t i e l) =
    IsPlaced-goes v u t (looping i) closing refl refl e (ground arith) (ground arith) (ground arith)
      tt (ground (arith, v.in_range t))
Step-IsPlaced {u = u} v w (show_last_text t e) =
    IsPlaced-goes v u t closing ended refl refl e (ground arith) (ground arith) (ground arith) tt
      refl
