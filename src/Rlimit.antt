-- ===== src/Rlimit.antt =====
-- chapter36/rlimit.c: the limits of a process are displayed, the limit of open files is halved and tried,
-- and a child runs into a limit of its CPU time. Here stand the data and the code; the children hold the
-- proofs.
pub mod Laws
pub mod Reports
mod Tests
use the_linux_programming_in.Prelude.{
  ℕ, zero, suc, ◌+◌, ◌-◌, ◌*◌, ◌/◌, ◌%◌, ◌^◌, ◌≤◌, ◌<◌, ◌≡◌, refl, sym, ap, ◌∙◌, ◌≢◌, ◌↔◌, ◌⊎◌, inl,
  inr, Bool, true, false, ◌&&◌, ◌||◌, not, Option, none, some, List, [], ◌∷◌, ◌++◌, map,
  append_assoc, append-nil, arith, ltb, leb, ◌==◌, if◌then◌else◌, ltb→lt, lt→ltb, leb→le, ==_iff,
  Bool-cases, Option-cases, length, get_elem?, set, length-append, length-set, get_elem?-set_self,
  get_elem?-set_ne, get_or, take, drop, replicate, length-map, Bytes, bytes_eq, bytes_eq_refl,
  bytes_eq_sound, bytes_eq_ne,
}

-- A descriptor that `close` is called with, in order, is a number; -1 is never passed.
pub record Rlimit : Type 0 where
  pub rlim_cur : ℕ
  pub rlim_max : ℕ

-- What the system calls return: the descriptor of the j-th `open`, none where it fails
pub record Kernel : Type 0 where
  pub get_ok : Bool
  pub set_ok : Bool
  pub show_ok : Bool
  pub calloc_ok : Bool
  pub opens : ℕ → Option ℕ
  pub restore_ok : Bool

abbrev pub halved : Rlimit → Rlimit
halved r = record r { rlim_cur = r.rlim_max / 2 }

-- A slot of `fds`: none is -1; `calloc` fills it with the descriptor 0.
abbrev pub Slot : Type 0
Slot = Option ℕ

abbrev pub calloc : ℕ → List Slot
calloc n = replicate n (some 0)

-- The loop of calls of `open`, from j on with so many slots ahead: the slots, and j after the loop
unfoldable pub open_loop : (ℕ → Option ℕ) → ℕ → List Slot → List Slot × ℕ
open_loop opens j [] = ([], j)
open_loop opens j (slot ∷ slots) = elim (opens j) [
  | none ↦ (none ∷ slots, j)
  | some fd ↦ let rest = open_loop opens (suc j) slots in (some fd ∷ rest.0, rest.1)
]

-- The loop of calls of `close`: their arguments
unfoldable pub close_loop : List Slot → List ℕ
close_loop [] = []
close_loop (none ∷ slots) = close_loop slots
close_loop (some fd ∷ slots) = fd ∷ close_loop slots

-- Where the part ends: in `errExit`, or at its end with the limit, the count that is printed and the
-- arguments of `close`; `limit` is what the process is left with.
pub data End : Type 0 where
  failed : Rlimit → End
  finished : Rlimit → ℕ → List ℕ → End

unfoldable pub test_files : Kernel → Rlimit → End
unfolding open_loop
test_files k orig =
    let new = halved orig in
    let opened = open_loop k.opens 0 (calloc (new.rlim_cur + 10)) in
    if not k.get_ok || not k.set_ok
    then failed orig
    else (if not k.show_ok || not k.calloc_ok || not k.restore_ok
        then failed new
        else finished orig opened.1 (close_loop opened.0))

pub data Resource : Type 0 where
  cpu fsize data_size stack core nofile address_space : Resource

pub data Limit : Type 0 where
  unlimited : Limit
  at_most : ℕ → Limit

pub data Status : Type 0 where
  exited : ℕ → Status
  signaled : ℕ → Status

-- A line with a value
pub data Line : Type 0 where
  limits : Resource → Limit → Limit → Line
  soft_limit : ℕ → Line
  trying : ℕ → Line
  open_failed : ℕ → Line
  opened : ℕ → Line
  terminated : Status → Line

-- RLIM_INFINITY, the limits of the process, for which of the first calls `getrlimit` succeeds, the test
-- of the limit of open files, and what the calls after it return; `cpu_signal` ends a process that has
-- used its CPU time.
pub record MainCalls : Type 0 where
  pub infinity : ℕ
  pub limit : Resource → Rlimit
  pub get_ok : Resource → Bool
  pub files : Kernel
  pub show_restored_ok : Bool
  pub fork_ok : Bool
  pub child_set_ok : Bool
  pub child_show_ok : Bool
  pub cpu_signal : ℕ
  pub wait_ok : Bool

abbrev pub limit_of : ℕ → ℕ → Limit
limit_of infinity n = if n == infinity then unlimited else at_most n

abbrev pub display_rlimit : MainCalls → Resource → Rlimit → Line
display_rlimit k r l = limits r (limit_of k.infinity l.rlim_cur) (limit_of k.infinity l.rlim_max)

abbrev pub resources : List Resource
resources = cpu ∷ fsize ∷ data_size ∷ stack ∷ core ∷ nofile ∷ address_space ∷ []

abbrev pub all_shown : MainCalls → List Resource → Bool
all_shown k [] = true
all_shown k (r ∷ rs) = k.get_ok r && all_shown k rs

-- The line that the loop of `open` prints if a call fails
abbrev pub failure_line : ℕ → ℕ → List Line
failure_line count slots = if ltb count slots then open_failed count ∷ [] else []

-- 1 second, and 2 seconds at most
abbrev pub cpu_limit : Rlimit
cpu_limit = record { rlim_cur = 1; rlim_max = 2 }

-- The child: its lines, and how it ends; its loop has no end of its own.
abbrev pub cpu_child : MainCalls → List Line × Status
cpu_child k =
    if k.child_set_ok && k.child_show_ok
    then (display_rlimit k cpu cpu_limit ∷ [], signaled k.cpu_signal)
    else ([], exited 1)

-- How `main` ends: in `errExit`, with the limit of open files that is left then, or with success, the
-- limit, the count, the arguments of `close` and the lines
pub data MainEnd : Type 0 where
  gave_up : Rlimit → MainEnd
  reported : Rlimit → ℕ → List ℕ → List Line → MainEnd

-- The lines of a run to the end, with the limit that is set back and the count
abbrev pub all_lines : MainCalls → Rlimit → ℕ → List Line
all_lines k left count =
    let soft = (k.limit nofile).rlim_max / 2 in
    map (λ r. display_rlimit k r (k.limit r)) resources
    ++ (soft_limit soft
        ∷ display_rlimit k nofile (halved (k.limit nofile))
        ∷ trying (soft + 10)
        ∷ [])
    ++ failure_line count (soft + 10)
    ++ (opened count ∷ display_rlimit k nofile left ∷ [])
    ++ (cpu_child k).0
    ++ (terminated (cpu_child k).1 ∷ [])

-- From the test of the limit of open files on
abbrev pub report : MainCalls → End → MainEnd
report k (failed left) = gave_up left
report k (finished left count closed) =
    if not k.show_restored_ok || not k.fork_ok || not k.wait_ok
    then gave_up left
    else reported left count closed (all_lines k left count)

unfoldable pub main : MainCalls → MainEnd
unfolding test_files
main k =
    if all_shown k resources
    then report k (test_files k.files (k.limit nofile))
    else gave_up (k.limit nofile)
