-- ===== src/ProcessTree.antt =====
-- chapter12/exercise_2.c: reads the processes from /proc, links each to its parent and prints the tree.
-- Here stand the data and the code; the children hold the proofs.
pub mod Views
pub mod Links
pub mod Print
pub mod Preorder
pub mod Scan
mod Tests
use the_linux_programming_in.Prelude.{
  ℕ, zero, suc, ◌+◌, ◌-◌, Bool, true, false, ◌&&◌, not, Option, none, some, List, [], ◌∷◌, ◌++◌,
  ltb, ◌==◌, if◌then◌else◌, length, get_elem?, take, drop, Bytes, bytes_eq,
}
use the_linux_programming_in.Prelude.Int.{ℤ, pos, negsuc, ltb_ℤ}
use the_linux_programming_in.Prelude.Atoi.{isdigit, atoi}

abbrev pub max_processes : ℕ
max_processes = 10000

abbrev pub max_cmd_len : ℕ
max_cmd_len = 1024

-- `struct Process`; a pointer to a process is its index in `processes`.
pub record Process : Type 0 where
  pub pid : ℤ
  pub ppid : ℤ
  pub cmd : Bytes
  pub children : List ℕ

-- What the files below /proc hold when they are read; none where a file cannot be opened. The lines
-- of `status` are those that `fgets` returns; a `comm` of some none gives no line.
pub record ProcFs : Type 0 where
  pub status : ℤ → Option (List Bytes)
  pub cmdline : ℤ → Option Bytes
  pub comm : ℤ → Option (Option Bytes)

-- "PPid:"
abbrev pub ppid_key : Bytes
ppid_key = b'P' ∷ b'P' ∷ b'i' ∷ b'd' ∷ b':' ∷ []

-- "[unknown]"
abbrev pub unknown : Bytes
unknown = b'[' ∷ b'u' ∷ b'n' ∷ b'k' ∷ b'n' ∷ b'o' ∷ b'w' ∷ b'n' ∷ b']' ∷ []

-- The loop of `get_ppid`: the first line that begins with "PPid:"
unfoldable pub ppid_of_lines : List Bytes → ℤ
ppid_of_lines [] = negsuc 0
ppid_of_lines (l ∷ ls) = if bytes_eq (take 5 l) ppid_key then atoi (drop 5 l) else ppid_of_lines ls

unfoldable pub get_ppid : ProcFs → ℤ → ℤ
unfolding ppid_of_lines
get_ppid fs pid = elim (fs.status pid) [ none ↦ negsuc 0 | some ls ↦ ppid_of_lines ls ]

-- The bytes up to the first NUL
abbrev pub until_nul : Bytes → Bytes
until_nul [] = []
until_nul (c ∷ s) = if c == 0 then [] else c ∷ until_nul s

-- The loop that puts a space for each NUL
abbrev pub spaces_for_nuls : Bytes → Bytes
spaces_for_nuls [] = []
spaces_for_nuls (c ∷ s) = (if c == 0 then b' ' else c) ∷ spaces_for_nuls s

-- A trailing newline is taken off.
abbrev pub chomp : Bytes → Bytes
chomp [] = []
chomp (c ∷ []) = if c == 10 then [] else c ∷ []
chomp (c ∷ d ∷ s) = c ∷ chomp (d ∷ s)

-- `fgets` takes at most `sizeof(buffer) - 1` bytes, and `snprintf` leaves room for its NUL.
unfoldable pub get_cmdline : ProcFs → ℤ → ℕ → Bytes
get_cmdline fs pid cmd_size = elim (fs.cmdline pid) [
  | none ↦ take (cmd_size - 1) unknown
  | some content ↦ elim (take (max_cmd_len - 1) content) [
    | [] ↦ elim (fs.comm pid) [
      | none ↦ take (cmd_size - 1) unknown
      | some none ↦ take (cmd_size - 1) unknown
      | some (some l) ↦ take (cmd_size - 1) (chomp (until_nul (take (max_cmd_len - 1) l)))
    ]
    | c ∷ s ↦ take (cmd_size - 1) (spaces_for_nuls (c ∷ s))
  ]
]

-- `create_process`; the `malloc` is taken to succeed, since `main` exits otherwise.
unfoldable pub create_process : ProcFs → ℤ → Process
unfolding get_ppid get_cmdline
create_process fs pid = record {
  pid = pid;
  ppid = get_ppid fs pid;
  cmd = get_cmdline fs pid max_cmd_len;
  children = [];
}

-- `add_child(processes[parent], processes[child])`
unfoldable pub add_child : ℕ → ℕ → List Process → List Process
add_child parent child [] = []
add_child zero child (p ∷ ps) =
    (if ltb (length p.children) max_processes
      then record p { children = p.children ++ (child ∷ []) }
      else p)
    ∷ ps
add_child (suc parent) child (p ∷ ps) = p ∷ add_child parent child ps

abbrev pub eq_ℤ : ℤ → ℤ → Bool
eq_ℤ (pos a) (pos b) = a == b
eq_ℤ (negsuc a) (negsuc b) = a == b
eq_ℤ _ _ = false

-- The index of the first process with this pid
unfoldable pub find_process : ℤ → List Process → Option ℕ
find_process pid [] = none
find_process pid (p ∷ ps) =
    if eq_ℤ p.pid pid
    then some 0
    else elim (find_process pid ps) [ none ↦ none | some i ↦ some (suc i) ]

-- The index of the parent that `build_process_tree` finds for a process
unfoldable pub parent_of : List Process → Process → Option ℕ
unfolding find_process
parent_of ps p = if ltb_ℤ (pos 0) p.ppid then find_process p.ppid ps else none

-- One round of the loop of `build_process_tree`
unfoldable pub link : ℕ → List Process → List Process
unfolding parent_of add_child
link i ps = elim (get_elem? ps i) [
  | none ↦ ps
  | some p ↦ elim (parent_of ps p) [ none ↦ ps | some parent ↦ add_child parent i ps ]
]

-- The loop from `i` on, with `n` rounds left
unfoldable pub build_from : ℕ → ℕ → List Process → List Process
unfolding link
build_from zero i ps = ps
build_from (suc n) i ps = build_from n (suc i) (link i ps)

unfoldable pub build_process_tree : List Process → List Process
unfolding build_from
build_process_tree ps = build_from (length ps) 0 ps

-- A line of the output: the level that it is indented by, the pid and the command
pub record Line : Type 0 where
  pub level : ℕ
  pub pid : ℤ
  pub cmd : Bytes

-- The loop over the children, with what is printed for one of them; none when the fuel ran out there
abbrev pub print_all : (ℕ → Option (List Line)) → List ℕ → Option (List Line)
print_all print [] = some []
print_all print (j ∷ js) = elim (print j) [
  | none ↦ none
  | some ls ↦ elim (print_all print js) [ none ↦ none | some rest ↦ some (ls ++ rest) ]
]

-- `print_process_tree(processes[i], level)`, with fuel for the depth of the recursion
unfoldable pub print_process_tree : ℕ → List Process → ℕ → ℕ → Option (List Line)
print_process_tree zero ps i level = none
print_process_tree (suc fuel) ps i level = elim (get_elem? ps i) [
  | none ↦ some []
  | some p ↦ elim (print_all (λ j. print_process_tree fuel ps j (level + 1)) p.children) [
    | none ↦ none
    | some ls ↦ some (record { level = level; pid = p.pid; cmd = p.cmd } ∷ ls)
  ]
]

-- An entry of the directory /proc
pub record DirEntry : Type 0 where
  pub is_dir : Bool  -- `d_type == DT_DIR`
  pub name : Bytes

abbrev pub all_digits : Bytes → Bool
all_digits [] = true
all_digits (c ∷ s) = isdigit c && all_digits s

-- The loop of `main` over the directory. The array has `max_processes` places and the code does not
-- test for its end: a write past it is undefined, none here.
unfoldable pub scan_proc : ProcFs → List DirEntry → List Process → Option (List Process)
unfolding create_process
scan_proc fs [] ps = some ps
scan_proc fs (e ∷ es) ps =
    let proc = create_process fs (atoi e.name) in
    let kept = scan_proc fs es (ps ++ (proc ∷ [])) in
    let skipped = scan_proc fs es ps in
    if e.is_dir && all_digits e.name && not (eq_ℤ proc.ppid (negsuc 0))
    then (if ltb (length ps) max_processes then kept else none)
    else skipped

pub data Output : Type 0 where
  cannot_open : Output  -- `opendir` failed: EXIT_FAILURE
  overflow : Output  -- more processes than the array holds
  no_init : Output
  tree : List Line → Output
  too_deep : Output  -- the fuel ran out

-- `main`; the directory is none where `opendir` fails.
unfoldable pub main : ℕ → ProcFs → Option (List DirEntry) → Output
unfolding scan_proc build_process_tree find_process print_process_tree atoi
main fuel fs none = cannot_open
main fuel fs (some es) = elim (scan_proc fs es []) [
  | none ↦ overflow
  | some ps ↦
      let built = build_process_tree ps in
      elim (find_process (pos 1) built) [
        | none ↦ no_init
        | some i ↦ elim (print_process_tree fuel built i 0) [ none ↦ too_deep | some ls ↦ tree ls ]
      ]
]
