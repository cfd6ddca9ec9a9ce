-- ===== src/Tls.antt =====
-- chapter31/tls.c: three threads with thread-local variables, which step one global variable under a
-- mutex. Here stand the states and the steps; the children hold the proofs. The main thread has the
-- number 0, A, B and C have 1, 2 and 3. A failing call ends the program, and has no step; lines without
-- a value are left out, and numbers have no bound.
mod Order
mod Places
mod Locals
mod Progress
pub mod Laws
mod Tests
use the_linux_programming_in.Prelude.{
  ℕ, zero, suc, ◌+◌, ◌-◌, ◌*◌, ◌/◌, ◌%◌, ◌^◌, ◌≤◌, ◌<◌, ◌≡◌, refl, sym, ap, ◌∙◌, ◌≢◌, ◌↔◌, ◌⊎◌, inl,
  inr, Bool, true, false, ◌&&◌, ◌||◌, not, Option, none, some, List, [], ◌∷◌, ◌++◌, map,
  append_assoc, append-nil, arith, ltb, leb, ◌==◌, if◌then◌else◌, ltb→lt, lt→ltb, leb→le, ==_iff,
  Bool-cases, Option-cases, length, get_elem?, set, length-append, length-set, get_elem?-set_self,
  get_elem?-set_ne, get_or, take, drop, replicate, length-map, Bytes, bytes_eq, bytes_eq_refl,
  bytes_eq_sound, bytes_eq_ne,
}
use the_linux_programming_in.Prelude.{update}

pub data MainPc : Type 0 where
  starting : MainPc
  assigned : MainPc  -- its own variables are set
  creating : ℕ → MainPc  -- the number of the next thread
  changed : MainPc
  joining : ℕ → MainPc
  finished : MainPc

-- Where a thread is; the numbers are the rounds that are done.
pub data Pc : Type 0 where
  absent : Pc
  started : Pc
  assigned : Pc
  introduced : Pc  -- the first value is printed
  looping : ℕ → Pc
  added : ℕ → Pc  -- `tls_var += 10` is done
  locking : ℕ → Pc  -- its value is printed
  locked : ℕ → Pc
  loaded : ℕ → ℕ → Pc  -- `global_var++` has read this value
  stored : ℕ → Pc
  shown : ℕ → Pc  -- the global value is printed
  closing : Pc  -- the last value is printed
  ended : Pc

-- A line: the thread that prints it, with its `tls_var`, the thread whose name its `tls_buffer` has, or
-- `global_var`
pub data Line : Type 0 where
  value : ℕ → ℕ → Line
  text : ℕ → Option ℕ → Line
  global : ℕ → ℕ → Line
  final_global : ℕ → Line

pub record State : Type 0 where
  pub main : MainPc
  pub thread : ℕ → Pc
  pub tls_var : ℕ → ℕ  -- the variable of each thread
  pub tls_buffer : ℕ → Option ℕ
  pub global_var : ℕ
  pub mtx : Option ℕ  -- the thread that has the mutex
  pub output : List Line  -- the last line first

abbrev pub init : State
init = record {
  main = MainPc.starting;
  thread = λ t. absent;
  tls_var = λ t. 0;
  tls_buffer = λ t. none;
  global_var = 0;
  mtx = none;
  output = [];
}

-- A step of the main thread, or of a thread t
pub data Step (s : State) : State → Type 0 where
  main_sets :
      s.main ≡ MainPc.starting
      → Step s (record s {
        main = MainPc.assigned;
        tls_var = update s.tls_var 0 999;
        tls_buffer = update s.tls_buffer 0 (some 0);
      })
  main_shows :
      s.main ≡ MainPc.assigned
      → Step s (record s {
        main = creating 1;
        output = text 0 (s.tls_buffer 0) ∷ value 0 (s.tls_var 0) ∷ s.output;
      })
  create :
      (n : ℕ)
      → s.main ≡ creating n
      → n ≤ 3
      → Step s (record s { main = creating (n + 1); thread = update s.thread n started })
  main_adds :
      (n : ℕ)
      → s.main ≡ creating n
      → 3 < n
      → Step s (record s { main = changed; tls_var = update s.tls_var 0 (s.tls_var 0 + 50) })
  main_shows_again :
      s.main ≡ changed
      → Step s (record s { main = joining 1; output = value 0 (s.tls_var 0) ∷ s.output })
  join :
      (n : ℕ)
      → s.main ≡ joining n
      → n ≤ 3
      → s.thread n ≡ ended
      → Step s (record s { main = joining (n + 1) })
  finish :
      (n : ℕ)
      → s.main ≡ joining n
      → 3 < n
      → Step s (record s {
        main = finished;
        output =
            final_global s.global_var ∷ text 0 (s.tls_buffer 0) ∷ value 0 (s.tls_var 0) ∷ s.output;
      })
  assign :
      (t : ℕ)
      → s.thread t ≡ started
      → Step s (record s {
        thread = update s.thread t assigned;
        tls_var = update s.tls_var t 100;
        tls_buffer = update s.tls_buffer t (some t);
      })
  show_first :
      (t : ℕ)
      → s.thread t ≡ assigned
      → Step s (record s {
        thread = update s.thread t introduced;
        output = value t (s.tls_var t) ∷ s.output;
      })
  show_text :
      (t : ℕ)
      → s.thread t ≡ introduced
      → Step s (record s {
        thread = update s.thread t (looping 0);
        output = text t (s.tls_buffer t) ∷ s.output;
      })
  add :
      (t i : ℕ)
      → s.thread t ≡ looping i
      → i < 5
      → Step s (record s {
        thread = update s.thread t (added i);
        tls_var = update s.tls_var t (s.tls_var t + 10);
      })
  show_value :
      (t i : ℕ)
      → s.thread t ≡ added i
      → Step s (record s {
        thread = update s.thread t (locking i);
        output = value t (s.tls_var t) ∷ s.output;
      })
  lock :
      (t i : ℕ)
      → s.thread t ≡ locking i
      → s.mtx ≡ none
      → Step s (record s { thread = update s.thread t (locked i); mtx = some t })
  load :
      (t i : ℕ)
      → s.thread t ≡ locked i
      → Step s (record s { thread = update s.thread t (loaded i s.global_var) })
  store :
      (t i n : ℕ)
      → s.thread t ≡ loaded i n
      → Step s (record s { thread = update s.thread t (stored i); global_var = n + 1 })
  show_global :
      (t i : ℕ)
      → s.thread t ≡ stored i
      → Step s (record s {
        thread = update s.thread t (shown i);
        output = global t s.global_var ∷ s.output;
      })
  unlock :
      (t i : ℕ)
      → s.thread t ≡ shown i
      → Step s (record s { thread = update s.thread t (looping (i + 1)); mtx = none })
  show_last :
      (t i : ℕ)
      → s.thread t ≡ looping i
      → 5 ≤ i
      → Step s (record s {
        thread = update s.thread t closing;
        output = value t (s.tls_var t) ∷ s.output;
      })
  show_last_text :
      (t : ℕ)
      → s.thread t ≡ closing
      → Step s (record s {
        thread = update s.thread t ended;
        output = text t (s.tls_buffer t) ∷ s.output;
      })
