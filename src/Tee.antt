-- ===== src/Tee.antt =====
-- chapter4/tee.c: copies its input to its output and to each of the files that it is given.
-- chapter4/teee.c is the same text. Here stand the data and the code; the children hold the proofs.
pub mod Streams
pub mod Runs
pub mod Success
mod Tests
use the_linux_programming_in.Prelude.{
  ℕ, zero, suc, ◌+◌, ◌-◌, ◌*◌, ◌/◌, ◌%◌, ◌^◌, ◌≤◌, ◌<◌, ◌≡◌, refl, sym, ap, ◌∙◌, ◌≢◌, ◌↔◌, ◌⊎◌, inl,
  inr, Bool, true, false, ◌&&◌, ◌||◌, not, Option, none, some, List, [], ◌∷◌, ◌++◌, map,
  append_assoc, append-nil, arith, ltb, leb, ◌==◌, if◌then◌else◌, ltb→lt, lt→ltb, leb→le, ==_iff,
  Bool-cases, Option-cases, length, get_elem?, set, length-append, length-set, get_elem?-set_self,
  get_elem?-set_ne, get_or, take, drop, replicate, length-map, Bytes, bytes_eq, bytes_eq_refl,
  bytes_eq_sound, bytes_eq_ne,
}

-- How a file is opened: with O_APPEND or with O_TRUNC, beside O_WRONLY | O_CREAT
pub data OpenMode : Type 0 where
  append truncate : OpenMode

-- What a call that has happened did to a descriptor
pub data Event : Type 0 where
  opened : Bytes → OpenMode → ℕ → Event  -- a file by its name, on the descriptor
  wrote : ℕ → Bytes → Event  -- what `write` took
  closed : ℕ → Event

-- What the calls return, given what has happened before, the latest event first. `write` takes a
-- number of bytes, and none stands for -1.
pub record Kernel : Type 0 where
  pub options : List ℕ  -- the options that `getopt` returns, '?' for an unknown one
  pub files : List Bytes  -- the other arguments
  pub malloc_ok : Bool
  pub open_file : List Event → Bytes → OpenMode → Option ℕ
  pub reads : List (Option Bytes)
  pub accepts : List Event → ℕ → Bytes → Option ℕ
  pub close_ok : ℕ → Bool

pub data Exit : Type 0 where
  success failure : Exit

abbrev pub stdout : ℕ
stdout = 1

-- The loop over the options: whether '-a' was given; none for a wrong option
unfoldable pub parse_options : List ℕ → Bool → Option Bool
parse_options [] append_flag = some append_flag
parse_options (opt ∷ opts) append_flag = if opt == b'a' then parse_options opts true else none

-- The loop that opens the files: the descriptors in order, or none
unfoldable pub open_all : Kernel → OpenMode → List Bytes → List Event → Option (List ℕ) × List Event
open_all k mode [] log = (some [], log)
open_all k mode (f ∷ fs) log = elim (k.open_file log f mode) [
  | none ↦ (none, log)
  | some fd ↦
      let (r, log') = open_all k mode fs (opened f mode fd ∷ log) in
      elim r [ none ↦ (none, log') | some fds ↦ (some (fd ∷ fds), log') ]
]

-- `write(fd, buffer, num_read) != num_read` is false: all bytes are taken. What a short write took
-- is in the log too.
unfoldable pub write : Kernel → ℕ → Bytes → List Event → Bool × List Event
write k fd buf log = elim (k.accepts log fd buf) [
  | none ↦ (false, log)
  | some n ↦ (n == length buf, wrote fd (take n buf) ∷ log)
]

-- The writes of one buffer to the descriptors in turn, up to the first that fails
unfoldable pub write_all : Kernel → List ℕ → Bytes → List Event → Bool × List Event
write_all k [] buf log = (true, log)
write_all k (fd ∷ fds) buf log =
    let w = write k fd buf log in
    let rest = write_all k fds buf w.1 in if w.0 then rest else (false, w.1)

-- The loop over the input
unfoldable pub copy_loop : Kernel → List ℕ → List (Option Bytes) → List Event → Bool × List Event
copy_loop k fds [] log = (true, log)
copy_loop k fds (none ∷ rs) log = (false, log)
copy_loop k fds (some [] ∷ rs) log = (true, log)
copy_loop k fds (some (c ∷ cs) ∷ rs) log =
    let w = write_all k (stdout ∷ fds) (c ∷ cs) log in
    let rest = copy_loop k fds rs w.1 in if w.0 then rest else (false, w.1)

-- The loop that closes the files
unfoldable pub close_all : Kernel → List ℕ → List Event → Bool × List Event
close_all k [] log = (true, log)
close_all k (fd ∷ fds) log =
    let rest = close_all k fds (closed fd ∷ log) in if k.close_ok fd then rest else (false, log)

abbrev pub is_empty {ℓ} : {A : Type ℓ} → List A → Bool
is_empty [] = true
is_empty (x ∷ xs) = false

-- From the first read on, with the files open
unfoldable pub run : Kernel → List ℕ → List Event → Exit × List Event
run k fds log =
    let c = copy_loop k fds k.reads log in
    let d = close_all k fds c.1 in
    if c.0 then (if d.0 then (success, d.1) else (failure, d.1)) else (failure, c.1)

unfoldable pub main : Kernel → Exit × List Event
main k = elim (parse_options k.options false) [
  | none ↦ (failure, [])
  | some append_flag ↦
      if not (is_empty k.files) && not k.malloc_ok
      then (failure, [])
      else (let o = open_all k (if append_flag then append else truncate) k.files [] in
          elim o.0 [ none ↦ (failure, o.1) | some fds ↦ run k fds o.1 ])
]
