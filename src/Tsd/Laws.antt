-- ===== src/Tsd/Laws.antt =====
-- chapter31/tsd.c: what the threads print, and which buffers are left in the end.
use the_linux_programming_in.Prelude.{
  ℕ, ◌≤◌, ◌≡◌, ◌≢◌, inl, inr, none, some, List, [], ◌∷◌, ◌++◌, append_assoc, append-nil, arith,
  ◌==◌, if◌then◌else◌, Bool-cases, Bytes,
}
use the_linux_programming_in.Tsd.{
  Pc, calling, entered, allocated, formatting, returned, ended, Printed, State, init, Step,
  create_key, key_there, malloc, set_specific, get_specific, write_part, write_all, print,
  end_clean, destructor,
}
use the_linux_programming_in.Tsd.Invariant.{own, AllRight, IsValid, init-IsValid, Step-IsValid}
use the_linux_programming_in.Prelude.{Run, Run-keeps}
use the_linux_programming_in.Prelude.{Has}

-- The error numbers that a thread has printed, and those that it has yet to print
abbrev pub said : ℕ → List Printed → List ℕ
said t [] = []
said t (l ∷ ls) = if l.thread == t then said t ls ++ (l.err ∷ []) else said t ls

abbrev pub left : Pc → List ℕ
left (calling rest) = rest
left (entered err rest) = err ∷ rest
left (allocated err b rest) = err ∷ rest
left (formatting err b rest) = err ∷ rest
left (returned err b rest) = err ∷ rest
left ended = []

abbrev InTurn : ℕ → (ℕ → List ℕ) → State → Type 0
InTurn n codes s = (t : ℕ) → t ≤ n → said t s.output ++ left (s.pc t) ≡ codes t

Step-InTurn :
    (text : ℕ → Bytes) (n : ℕ) (codes : ℕ → List ℕ) (s u : State)
    → InTurn n codes s
    → Step text s u
    → InTurn n codes u
Step-InTurn text n codes s u v (create_key t err rest e o) j le = ground (arith, v j le)
Step-InTurn text n codes s u v (key_there t err rest e o) j le = ground (arith, v j le)
Step-InTurn text n codes s u v (malloc t err b rest bytes e o f) j le = ground (arith, v j le)
Step-InTurn text n codes s u v (set_specific t err b rest e) j le = ground (arith, v j le)
Step-InTurn text n codes s u v (get_specific t err b rest e o) j le = ground (arith, v j le)
Step-InTurn text n codes s u v (write_part t err b rest bytes e) j le = ground (arith, v j le)
Step-InTurn text n codes s u v (write_all t err b rest e) j le = ground (arith, v j le)
Step-InTurn text n codes s u v (print t err b rest bytes e o) j le =
    ground (arith, v j le, append_assoc (said j s.output) (err ∷ []) rest)
Step-InTurn text n codes s u v (end_clean t ne e o) j le = ground (arith, v j le)
Step-InTurn text n codes s u v (destructor t b ne e o) j le = ground (arith, v j le)

right_one :
    (text : ℕ → Bytes) (ls : List Printed) (l : Printed)
    → AllRight text ls
    → Has l ls
    → l.text ≡ text l.err
right_one text [] l h m = absurd m
right_one text (x ∷ ls) l (h, hs) (inl e) = ground arith
right_one text (x ∷ ls) l (h, hs) (inr m) = right_one text ls l hs m

-- In every run, whatever the threads do in between, each line that is printed has the text of the error
-- number that it was asked for, a thread has printed the first of its error numbers, in order, and all of
-- them when it has ended, the key has been created at most once, and no two threads have the same buffer.
pub printed_own :
    (text : ℕ → Bytes) (n : ℕ) (codes : ℕ → List ℕ) (k : ℕ) (s : State)
    → Run (Step text) (init n codes) k s
    → ((l : Printed) → Has l s.output → l.text ≡ text l.err)
      × ((t : ℕ) → t ≤ n → (rest : List ℕ) × (said t s.output ++ rest ≡ codes t))
      × ((t : ℕ) → t ≤ n → s.pc t ≡ ended → said t s.output ≡ codes t)
      × (s.keys ≤ 1)
      × ((t u b : ℕ) → t ≢ u → s.specific t ≡ some b → s.specific u ≢ some b)
printed_own text n codes k s r =
    let v = Run-keeps (IsValid text) (Step-IsValid text) (init-IsValid text n codes) r in
    let w = Run-keeps (InTurn n codes) (Step-InTurn text n codes) (λ t le. ground arith) r in
    (
      λ l m. right_one text s.output l v.printed m,
      λ t le. (left (s.pc t), w t le),
      λ t le e. ground (arith, w t le, append-nil (said t s.output)),
      elim (Bool-cases s.once) [
        | inl o ↦ ground (arith, v.keyed)
        | inr o ↦ ground (arith, v.keyed)
      ],
      λ t u b ne e f. ground (arith, v.apart t u b, v.places t, v.places u),
    )

-- When the threads but the main thread have ended, the only buffer that can be left is that of the main
-- thread.
pub ended_freed :
    (text : ℕ → Bytes) (n : ℕ) (codes : ℕ → List ℕ) (k b : ℕ) (s : State)
    → Run (Step text) (init n codes) k s
    → ((t : ℕ) → t ≢ 0 → s.pc t ≡ ended)
    → s.heap b ≢ none
    → own s 0 ≡ some b
ended_freed text n codes k b s r all h =
    let v = Run-keeps (IsValid text) (Step-IsValid text) (init-IsValid text n codes) r in
    let (t, e) = v.used b h in
    elim (Bool-cases (t == 0)) [
      | inl y ↦ ground arith
      | inr n ↦ absurd (ground (arith, all t, v.places t))
    ]
