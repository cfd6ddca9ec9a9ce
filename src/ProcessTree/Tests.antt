-- ===== src/ProcessTree/Tests.antt =====
-- chapter12/exercise_2.c: a small /proc, the output for it, and the theorems there.
use the_linux_programming_in.Prelude.{
  ℕ, zero, suc, ◌≡◌, refl, inl, inr, true, Option, none, some, List, [], ◌∷◌, arith, leb,
  if◌then◌else◌, length, Bytes,
}
use the_linux_programming_in.Prelude.Int.{ℤ, pos, negsuc}
use the_linux_programming_in.Prelude.Atoi.{atoi}
use the_linux_programming_in.Prelude.{filterb}
use the_linux_programming_in.ProcessTree.{
  max_processes, Process, ProcFs, get_ppid, get_cmdline, create_process, build_process_tree, Line,
  print_process_tree, DirEntry, scan_proc, no_init, tree, main,
}
use the_linux_programming_in.ProcessTree.Scan.{collected, scan_proc_lem}
use the_linux_programming_in.ProcessTree.Views.{children_at, is_child, range_from, bare}
use the_linux_programming_in.ProcessTree.Links.{children_exact}
use the_linux_programming_in.ProcessTree.Preorder.{Preorder}
use the_linux_programming_in.ProcessTree.Print.{IsAcyclic, Exact, print_process_tree-Exact}

-- "PPid:\t" and a digit
abbrev ppid_line : ℕ → Bytes
ppid_line c = b'P' ∷ b'P' ∷ b'i' ∷ b'd' ∷ b':' ∷ 9 ∷ c ∷ 10 ∷ []

abbrev status_of : ℤ → Option (List Bytes)
status_of (pos zero) = none
status_of (pos (suc zero)) = some (ppid_line b'0' ∷ [])
status_of (pos (suc (suc zero))) = some (ppid_line b'1' ∷ [])
status_of (pos (suc (suc (suc n)))) = some (ppid_line b'2' ∷ [])
status_of (negsuc n) = none

abbrev fs : ProcFs
fs = record { status = status_of; cmdline = λ pid. some (b'a' ∷ 0 ∷ b'b' ∷ []); comm = λ pid. none }

abbrev entry : ℕ → DirEntry
entry c = record { is_dir = true; name = c ∷ [] }

-- 3 is a child of 2, and 2 of 1; "x" and 9, which has gone, are passed over.
abbrev entries : List DirEntry
entries = entry b'3' ∷ entry b'x' ∷ entry b'1' ∷ entry b'0' ∷ entry b'2' ∷ []

abbrev cmd : Bytes
cmd = b'a' ∷ b' ' ∷ b'b' ∷ []

abbrev process : ℕ → ℕ → Process
process pid ppid = record { pid = pos pid; ppid = pos ppid; cmd = cmd; children = [] }

abbrev processes : List Process
processes = process 3 2 ∷ process 1 0 ∷ process 2 1 ∷ []

scan_runs : scan_proc fs entries [] ≡ some processes
unfolding scan_proc create_process get_ppid get_cmdline atoi
scan_runs = refl

main_runs :
    main 4 fs (some entries)
    ≡ tree (
        record { level = 0; pid = pos 1; cmd = cmd }
        ∷ record { level = 1; pid = pos 2; cmd = cmd }
        ∷ record { level = 2; pid = pos 3; cmd = cmd }
        ∷ [])
unfolding main create_process get_ppid get_cmdline
main_runs = refl

main_without_init : main 4 fs (some (entry b'3' ∷ [])) ≡ no_init
unfolding main create_process get_ppid get_cmdline
main_without_init = refl

children_exact_example :
    ((p : ℕ)
      → children_at (build_process_tree processes) p
        ≡ filterb (is_child processes p) (range_from 0 (length processes)))
    × (bare (build_process_tree processes) ≡ bare processes)
children_exact_example = children_exact fs entries processes scan_runs

abbrev built : List Process
built =
    process 3 2
    ∷ record (process 1 0) { children = 2 ∷ [] }
    ∷ record (process 2 1) { children = 0 ∷ [] }
    ∷ []

abbrev rank : ℕ → ℕ
rank zero = 0
rank (suc zero) = 2
rank (suc (suc zero)) = 1
rank (suc (suc (suc n))) = 0

built-IsAcyclic : IsAcyclic built rank
built-IsAcyclic zero k h = absurd h
built-IsAcyclic (suc zero) k (inl e) = rw (← e) (omega arith)
built-IsAcyclic (suc zero) k (inr h) = absurd h
built-IsAcyclic (suc (suc zero)) k (inl e) = rw (← e) (omega arith)
built-IsAcyclic (suc (suc zero)) k (inr h) = absurd h
built-IsAcyclic (suc (suc (suc n))) k h = absurd h

print_process_tree-Exact_example :
    (ls : List Line) × (print_process_tree 3 built 1 0 ≡ some ls)
    × Exact built (1 ∷ []) 0 ls
    × Preorder built 0 (1 ∷ []) ls
print_process_tree-Exact_example =
    print_process_tree-Exact 3 built rank 1 0 built-IsAcyclic (omega arith)

scan_proc_lem_example : scan_proc fs entries [] ≡ (
    if leb (length (collected fs entries)) max_processes then some (collected fs entries) else none)
scan_proc_lem_example = scan_proc_lem fs entries
