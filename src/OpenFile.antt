-- ===== src/OpenFile.antt =====
-- chapter12/exercise_3.c: the processes that have a file open, from /proc. Here stand the data and the
-- code; Laws holds the proofs.
pub mod Laws
mod Tests
use the_linux_programming_in.Prelude.{
  ℕ, zero, suc, ◌+◌, ◌-◌, ◌*◌, ◌/◌, ◌%◌, ◌^◌, ◌≤◌, ◌<◌, ◌≡◌, refl, sym, ap, ◌∙◌, ◌≢◌, ◌↔◌, ◌⊎◌, inl,
  inr, Bool, true, false, ◌&&◌, ◌||◌, not, Option, none, some, List, [], ◌∷◌, ◌++◌, map,
  append_assoc, append-nil, arith, ltb, leb, ◌==◌, if◌then◌else◌, ltb→lt, lt→ltb, leb→le, ==_iff,
  Bool-cases, Option-cases, length, get_elem?, set, length-append, length-set, get_elem?-set_self,
  get_elem?-set_ne, get_or, take, drop, replicate, length-map, Bytes, bytes_eq, bytes_eq_refl,
  bytes_eq_sound, bytes_eq_ne,
}
use the_linux_programming_in.Prelude.Atoi.{isdigit, isspace, atoi}
use the_linux_programming_in.ProcessTree.{until_nul, chomp}

-- An entry of /proc/PID/fd, and what `readlink` gives for it
pub record FdEntry : Type 0 where
  pub name : Bytes
  pub target : Option Bytes

-- An entry of /proc: its descriptors, none where the directory cannot be opened, and the line that
-- `fgets` reads from its file `comm`; the outer none is a file that cannot be opened.
pub record ProcEntry : Type 0 where
  pub name : Bytes
  pub fds : Option (List FdEntry)
  pub comm : Option (Option Bytes)

abbrev pub max_path : ℕ
max_path = 4096

abbrev pub starts_with_digit : Bytes → Bool
starts_with_digit [] = false
starts_with_digit (c ∷ s) = isdigit c

abbrev pub is_dots : Bytes → Bool
is_dots name = bytes_eq name (b'.' ∷ []) || bytes_eq name (b'.' ∷ b'.' ∷ [])

-- The loop over the descriptors: whether it ends at a match
unfoldable pub has_open : Bytes → List FdEntry → Bool
has_open path [] = false
has_open path (e ∷ es) =
    let rest = has_open path es in
    if is_dots e.name then rest else elim e.target [
      | none ↦ rest
      | some target ↦ if bytes_eq (take (max_path - 1) target) path then true else rest
    ]

abbrev pub unknown : Bytes
unknown = b'u' ∷ b'n' ∷ b'k' ∷ b'n' ∷ b'o' ∷ b'w' ∷ b'n' ∷ []

abbrev pub comm_of : Option (Option Bytes) → Bytes
comm_of none = unknown
comm_of (some none) = []
comm_of (some (some line)) = chomp (until_nul (take 255 line))

-- A line of the output
pub record Row : Type 0 where
  pub pid : Bytes
  pub command : Bytes

abbrev pub row : ProcEntry → Row
row e = record { pid = e.name; command = comm_of e.comm }

-- The loop over /proc
unfoldable pub processes_with_file : Bytes → List ProcEntry → List Row
processes_with_file path [] = []
processes_with_file path (e ∷ es) =
    let rest = processes_with_file path es in
    if not (starts_with_digit e.name)
    then rest
    else elim e.fds [ none ↦ rest | some fds ↦ if has_open path fds then row e ∷ rest else rest ]

-- `print_processes_with_file`: none where `opendir` fails
unfoldable pub print_processes_with_file : Option (List ProcEntry) → Bytes → Option (List Row)
print_processes_with_file none path = none
print_processes_with_file (some es) path = some (processes_with_file path es)

pub data Outcome : Type 0 where
  failure : Outcome
  success : Option (List Row) → Outcome

-- `main`: the number of arguments, what `realpath` gives for the file, and /proc
unfoldable pub main : ℕ → Option Bytes → Option (List ProcEntry) → Outcome
main argc path proc =
    if not (argc == 2)
    then failure
    else elim path [ none ↦ failure | some p ↦ success (print_processes_with_file proc p) ]
