-- ===== src/Tsd.antt =====
-- chapter31/tsd.c: a strerror whose buffer is thread-specific data. Here stand the states and the
-- steps; the children hold the proofs. A failing call ends the program, and has no step.
pub mod Invariant
pub mod Laws
mod Tests
use the_linux_programming_in.Prelude.{
  ℕ, zero, suc, ◌+◌, ◌-◌, ◌*◌, ◌/◌, ◌%◌, ◌^◌, ◌≤◌, ◌<◌, ◌≡◌, refl, sym, ap, ◌∙◌, ◌≢◌, ◌↔◌, ◌⊎◌, inl,
  inr, Bool, true, false, ◌&&◌, ◌||◌, not, Option, none, some, List, [], ◌∷◌, ◌++◌, map,
  append_assoc, append-nil, arith, ltb, leb, ◌==◌, if◌then◌else◌, ltb→lt, lt→ltb, leb→le, ==_iff,
  Bool-cases, Option-cases, length, get_elem?, set, length-append, length-set, get_elem?-set_self,
  get_elem?-set_ne, get_or, take, drop, replicate, length-map, Bytes, bytes_eq, bytes_eq_refl,
  bytes_eq_sound, bytes_eq_ne,
}
use the_linux_programming_in.Prelude.{update}

-- Where a thread is, with the error numbers that it has yet to ask for
pub data Pc : Type 0 where
  calling : List ℕ → Pc  -- before `strerror_tsd` of the first of them, or at the end
  entered : ℕ → List ℕ → Pc  -- `pthread_once` is done
  allocated : ℕ → ℕ → List ℕ → Pc  -- after `malloc`, with the buffer
  formatting : ℕ → ℕ → List ℕ → Pc  -- in `strerror_r` or `snprintf`
  returned : ℕ → ℕ → List ℕ → Pc  -- `strerror_tsd` has returned the buffer
  ended : Pc

pub record Printed : Type 0 where
  pub thread : ℕ
  pub err : ℕ
  pub text : Bytes

pub record State : Type 0 where
  pub keys : ℕ  -- how often the key has been created
  pub once : Bool
  pub specific : ℕ → Option ℕ  -- of each thread, its buffer
  pub heap : ℕ → Option Bytes  -- what the buffer at an address holds, if one is allocated there
  pub pc : ℕ → Pc
  pub output : List Printed

-- Thread 0 is the main thread, and n others are made; `codes` are the error numbers that each of them
-- asks for.
abbrev pub init : ℕ → (ℕ → List ℕ) → State
init n codes = record {
  keys = 0;
  once = false;
  specific = λ t. none;
  heap = λ b. none;
  pc = λ t. if leb t n then calling (codes t) else ended;
  output = [];
}

-- What `strerror_tsd` puts into its buffer: `message` is what `strerror_r` gives, none where it fails,
-- and `unknown_error` the text of the `snprintf`.
abbrev pub text_of : (ℕ → Option Bytes) → (ℕ → Bytes) → ℕ → Bytes
text_of message unknown_error err = elim (message err) [
  | some text ↦ text
  | none ↦ unknown_error err
]

-- A step of a thread. While a buffer is written it can hold any bytes.
pub data Step (text : ℕ → Bytes) (s : State) : State → Type 0 where
  create_key :
      (t err : ℕ) (rest : List ℕ)
      → s.pc t ≡ calling (err ∷ rest)
      → s.once ≡ false
      → Step text s
          (record s { keys = s.keys + 1; once = true; pc = update s.pc t (entered err rest) })
  key_there :
      (t err : ℕ) (rest : List ℕ)
      → s.pc t ≡ calling (err ∷ rest)
      → s.once ≡ true
      → Step text s (record s { pc = update s.pc t (entered err rest) })
  malloc :
      (t err b : ℕ) (rest : List ℕ) (bytes : Bytes)
      → s.pc t ≡ entered err rest
      → s.specific t ≡ none
      → s.heap b ≡ none
      → Step text s (record s {
        heap = update s.heap b (some bytes);
        pc = update s.pc t (allocated err b rest);
      })
  set_specific :
      (t err b : ℕ) (rest : List ℕ)
      → s.pc t ≡ allocated err b rest
      → Step text s (record s {
        specific = update s.specific t (some b);
        pc = update s.pc t (formatting err b rest);
      })
  get_specific :
      (t err b : ℕ) (rest : List ℕ)
      → s.pc t ≡ entered err rest
      → s.specific t ≡ some b
      → Step text s (record s { pc = update s.pc t (formatting err b rest) })
  write_part :
      (t err b : ℕ) (rest : List ℕ) (bytes : Bytes)
      → s.pc t ≡ formatting err b rest
      → Step text s (record s { heap = update s.heap b (some bytes) })
  write_all :
      (t err b : ℕ) (rest : List ℕ)
      → s.pc t ≡ formatting err b rest
      → Step text s (record s {
        heap = update s.heap b (some (text err));
        pc = update s.pc t (returned err b rest);
      })
  print :
      (t err b : ℕ) (rest : List ℕ) (bytes : Bytes)
      → s.pc t ≡ returned err b rest
      → s.heap b ≡ some bytes
      → Step text s (record s {
        pc = update s.pc t (calling rest);
        output = record { thread = t; err = err; text = bytes } ∷ s.output;
      })
  end_clean :
      (t : ℕ)
      → t ≢ 0
      → s.pc t ≡ calling []
      → s.specific t ≡ none
      → Step text s (record s { pc = update s.pc t ended })
  destructor :
      (t b : ℕ)
      → t ≢ 0
      → s.pc t ≡ calling []
      → s.specific t ≡ some b
      → Step text s (record s {
        specific = update s.specific t none;
        heap = update s.heap b none;
        pc = update s.pc t ended;
      })
